-- ===== src/Sandbox/LocalConversation/Cancellation.antt =====
-- `cancel` of sandboxes/gg/server/agent/local_conversation.py: the request that is never taken back.
use gg_agent_server.Prelude.{String, ◌≡◌, refl, Bool, true, false, List, Bool-cases, inl, inr}
use gg_agent_server.Result.{Result, ok, err}
use gg_agent_server.Program.{transact}
use gg_agent_server.Program.Runs.{
  Keeps, Leads, Keeps-bind, Keeps-return, Keeps-raise, Keeps-demand, Keeps-if, Keeps-modify,
  Keeps-finally,
}
use gg_agent_server.Sdk.Domain.{ConversationStatus, EventKind, PayloadValue}
use gg_agent_server.Sandbox.EventLog.{save_conversation_state}
use gg_agent_server.Sandbox.LocalConversation.{
  Environment, LocalConversation, same_status, is_agent_error, is_cancelled_error, persist_status,
  append_event, apply_status, begin_settling,
}
use gg_agent_server.Sandbox.LocalConversation.Messages.{go_idle, message_payload, send_message}
use gg_agent_server.Sandbox.LocalConversation.Runs.{
  cancel, start_run, fail_run, stop_run, settle_run, finish_status, finish_run,
}
use gg_agent_server.Sandbox.LocalConversation.Steps.{Step}
use gg_agent_server.Sandbox.LocalConversation.Frames.{append_event-Keeps, steer-Keeps}
use gg_agent_server.Sandbox.LocalConversation.Invariant.{apply_status-Leads}

module _ (env : Environment) where
  abbrev pub is_live : {c c' : LocalConversation} → Step env c c' → Bool
  is_live (Step.restarted draws c) = false
  is_live _ = true

  -- Steps without a restart of the server.
  pub data Session : LocalConversation → LocalConversation → Type 0 where
    here : (c : LocalConversation) → Session c c
    next :
        {c d e : LocalConversation}
        → Session c d
        → (last : Step env d e) → is_live last ≡ true
        → Session c e

  abbrev IsCancelling : LocalConversation → Type 0
  IsCancelling c = c.cancelling ≡ true

  append-Keeps :
      (kind : EventKind) (payload : List (String × PayloadValue))
      → Keeps IsCancelling (append_event env kind payload)
  append-Keeps = append_event-Keeps env IsCancelling (λ c s same h. h) (λ c h. h)

  apply-Keeps : (status : ConversationStatus) → Keeps IsCancelling (apply_status env status)
  unfolding Keeps Leads persist_status transact save_conversation_state
  apply-Keeps = λ status.
      apply_status-Leads env IsCancelling IsCancelling (λ c s same h. h) (λ c h. h) status
        (λ c h. h)

  go_idle-Keeps : Keeps IsCancelling (go_idle env)
  unfolding Keeps go_idle
  go_idle-Keeps c h = elim (Bool-cases (same_status c.status ConversationStatus.idle)) [
    | inl e ↦ rw (e, go_idle) h
    | inr e ↦ rw (e, go_idle) (apply-Keeps ConversationStatus.idle c h)
  ]

  send_message-Keeps : (text : String) → Keeps IsCancelling (send_message env text)
  unfolding send_message
  send_message-Keeps text = Keeps-bind IsCancelling _ _ (Keeps-demand IsCancelling _ _) λ _.
      Keeps-bind IsCancelling _ _ go_idle-Keeps
        λ _. append-Keeps EventKind.message (message_payload text)

  start_run-Keeps : Keeps IsCancelling (start_run env)
  unfolding start_run
  start_run-Keeps =
      let P = IsCancelling in
      Keeps-bind P _ _ (Keeps-demand P _ _) λ _. Keeps-bind P _ _ (Keeps-demand P _ _) λ _.
        Keeps-bind P _ _ (apply-Keeps ConversationStatus.running) λ _. Keeps-modify P _ λ c h. h

  settle_run-Keeps : (outcome : Result (Unit {0})) → Keeps IsCancelling (settle_run env outcome)
  unfolding settle_run stop_run fail_run
  settle_run-Keeps (ok done) = Keeps-return IsCancelling true
  settle_run-Keeps (err e) =
      let P = IsCancelling in
      Keeps-if P (is_cancelled_error e) _ _
        (Keeps-bind P _ _ (Keeps-demand P _ _) λ _.
          Keeps-bind P _ _ (apply-Keeps ConversationStatus.cancelled) λ _. Keeps-return P false)
        (Keeps-if P (is_agent_error e) _ _
          (Keeps-bind P _ _ (append-Keeps EventKind.error _) λ _.
            Keeps-bind P _ _ (Keeps-demand P _ _) λ _.
              Keeps-bind P _ _ (apply-Keeps ConversationStatus.error) λ _. Keeps-raise Bool P e)
          (Keeps-raise Bool P e))

  finish_status-Keeps : (finished : Bool) → Keeps IsCancelling (finish_status env finished)
  unfolding finish_status
  finish_status-Keeps false = Keeps-return IsCancelling tt
  finish_status-Keeps true =
      Keeps-bind IsCancelling _ _ (Keeps-demand IsCancelling _ _)
        λ _. apply-Keeps ConversationStatus.finished

  finish_run-Keeps : (outcome : Result (Unit {0})) → Keeps IsCancelling (finish_run env outcome)
  unfolding finish_run
  finish_run-Keeps outcome =
      Keeps-bind IsCancelling _ _
        (Keeps-finally IsCancelling (settle_run env outcome) begin_settling
          (settle_run-Keeps outcome) λ c h. h)
        finish_status-Keeps

  cancel-again :
      (answer : Result (Unit {0})) (c : LocalConversation)
      → IsCancelling c
      → cancel env answer c ≡ (ok tt, c)
  unfolding cancel
  cancel-again answer c h = elim (Bool-cases (same_status c.status ConversationStatus.cancelled)) [
    | inl e ↦ rw (cancel, e) refl
    | inr e ↦ rw (cancel, e, h) refl
  ]

  Step-IsCancelling :
      {c d : LocalConversation} (last : Step env c d)
      → is_live last ≡ true
      → IsCancelling c
      → IsCancelling d
  unfolding Keeps
  Step-IsCancelling (Step.sent text c) live h = send_message-Keeps text c h
  Step-IsCancelling (Step.steered message_id text answer c) live h =
      steer-Keeps env IsCancelling (λ c s same h. h) (λ c h. h) message_id text answer c h
  Step-IsCancelling (Step.cancelled answer c) live h = rw (cancel-again answer c h) h
  Step-IsCancelling (Step.started c) live h = start_run-Keeps c h
  Step-IsCancelling (Step.emitted kind payload c) live h = append-Keeps kind payload c h
  Step-IsCancelling (Step.settled c) live h = h
  Step-IsCancelling (Step.finished outcome c) live h = finish_run-Keeps outcome c h
  Step-IsCancelling (Step.restarted draws c) live h = cc live

Session-IsCancelling :
    (env : Environment) {c c' : LocalConversation}
    → Session env c c'
    → c.cancelling ≡ true
    → c'.cancelling ≡ true
Session-IsCancelling env (Session.here c) h = h
Session-IsCancelling env (Session.next earlier last live) h =
    Step-IsCancelling env last live (Session-IsCancelling env earlier h)

-- Once a cancellation has been asked for, then until the server is restarted, whatever else happens
-- to the conversation, a turn that finished and a new one that was started included, `cancel` returns
-- at once and changes nothing: the backend of the new turn is not told to stop.
pub Session-cancel :
    (env : Environment) {c c' : LocalConversation} (answer : Result (Unit {0}))
    → Session env c c'
    → c.cancelling ≡ true
    → cancel env answer c' ≡ (ok tt, c')
Session-cancel env {c' = c'} answer session h =
    cancel-again env answer c' (Session-IsCancelling env session h)
