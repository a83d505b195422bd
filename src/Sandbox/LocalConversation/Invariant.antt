-- ===== src/Sandbox/LocalConversation/Invariant.antt =====
-- The operations of sandboxes/gg/server/agent/local_conversation.py keep the status in memory and in
-- the database the same.
use gg_agent_server.Prelude.{
  String, ◌≡◌, refl, sym, ◌∙◌, inl, inr, Bool, true, false, not, List, Bool-cases, ◌||◌,
}
use gg_agent_server.Result.{Result, ok, err}
use gg_agent_server.Program.{◌>>=◌, ◌>>◌, modify, transact, return, finally}
use gg_agent_server.Program.Runs.{
  Keeps, Leads, Leads-bind, Leads-demand, Leads-finally, Keeps-bind, Keeps-return, Keeps-raise,
  Keeps-demand, Keeps-if, Keeps-read, Keeps-modify,
}
use gg_agent_server.Sdk.Domain.{ConversationStatus, EventKind, PayloadValue}
use gg_agent_server.Sandbox.{SandboxState}
use gg_agent_server.Sandbox.EventLog.{save_conversation_state}
use gg_agent_server.Sandbox.LocalConversation.{
  Environment, LocalConversation, Operation, is_allowed, same_status, is_running, is_agent_error,
  is_cancelled_error, begin_settling, draw, persist_status, append_event, apply_status,
}
use gg_agent_server.Sandbox.LocalConversation.Messages.{go_idle, message_payload, send_message}
use gg_agent_server.Sandbox.LocalConversation.Runs.{
  cancel_run, cancel, start_run, fail_run, stop_run, settle_run, finish_status, finish_run,
}
use gg_agent_server.Sandbox.LocalConversation.Steps.{IsPersisted, IsClosed, IsConsistent}
use gg_agent_server.Sandbox.LocalConversation.Frames.{
  KeepsConversations, persist_status-IsPersisted, append_event-Keeps,
}

false_of_not : {b : Bool} → not b ≡ true → b ≡ false
false_of_not {b = true} h = cc h
false_of_not {b = false} h = refl

module _ (env : Environment) where
  -- Persisted, and not accepting messages.
  abbrev pub IsQuiet : LocalConversation → Type 0
  IsQuiet c = IsPersisted env c × IsClosed c

  pub IsPersisted-frame :
      (c : LocalConversation) (s : SandboxState)
      → KeepsConversations c.state s
      → IsPersisted env c
      → IsPersisted env (record c { state = s })
  IsPersisted-frame c s same (time, found) = (time, rw same found)

  module _ {ℓ} (P Q : LocalConversation → Type ℓ)
      (other_table : (c : LocalConversation) (s : SandboxState)
        → KeepsConversations c.state s
        → Q c
        → Q (record c { state = s }))
      (drawn : (c : LocalConversation) → Q c → Q (draw c)) where
    -- The status is written in both places before anything can fail.
    pub apply_status-Leads :
        (status : ConversationStatus)
        → ((c : LocalConversation) → P c → Q (persist_status env (record c { status = status })).1)
        → Leads P Q (apply_status env status)
    unfolding Leads Keeps apply_status ◌>>=◌ modify persist_status transact save_conversation_state
        return
    apply_status-Leads status start c h =
        Keeps-bind Q (append_event env EventKind.status _) (λ _. return tt)
          (append_event-Keeps env Q other_table drawn EventKind.status _)
          (λ _. Keeps-return {0, 0, ℓ} Q tt) (persist_status env (record c { status = status })).1
          (start c h)

  IsQuiet-frame :
      (c : LocalConversation) (s : SandboxState)
      → KeepsConversations c.state s
      → IsQuiet c
      → IsQuiet (record c { state = s })
  IsQuiet-frame c s same (saved, closed) = (IsPersisted-frame c s same saved, closed)

  apply_status-Keeps : (status : ConversationStatus) → Keeps IsQuiet (apply_status env status)
  unfolding Keeps Leads persist_status transact save_conversation_state
  apply_status-Keeps status =
      apply_status-Leads IsQuiet IsQuiet IsQuiet-frame (λ c h. h) status
        λ c h. (persist_status-IsPersisted env (record c { status = status }), h.1)

  apply_status-Persists :
      (status : ConversationStatus) → Keeps (IsPersisted env) (apply_status env status)
  unfolding Keeps Leads
  apply_status-Persists status =
      apply_status-Leads (IsPersisted env) (IsPersisted env) IsPersisted-frame (λ c h. h) status
        λ c h. persist_status-IsPersisted env (record c { status = status })

  append-Keeps :
      (kind : EventKind) (payload : List (String × PayloadValue))
      → Keeps IsQuiet (append_event env kind payload)
  append-Keeps = append_event-Keeps env IsQuiet IsQuiet-frame (λ c h. h)

  -- A conversation that is not running accepts no messages.
  quiet : (c : LocalConversation) → IsConsistent env c → is_running c ≡ false → IsQuiet c
  quiet c (saved, inl closed) idle = (saved, closed)
  quiet c (saved, inr running) idle = let wrong : true ≡ false = sym running ∙ idle in cc wrong

  consistent : (c : LocalConversation) → IsQuiet c → IsConsistent env c
  consistent c (saved, closed) = (saved, inl closed)

  not_running_to_send :
      (status : ConversationStatus)
      → is_allowed status Operation.send ≡ true
      → same_status status ConversationStatus.running ≡ false
  not_running_to_send ConversationStatus.running h = cc h
  not_running_to_send ConversationStatus.idle h = refl
  not_running_to_send ConversationStatus.finished h = refl
  not_running_to_send ConversationStatus.error h = refl
  not_running_to_send ConversationStatus.cancelled h = refl

  go_idle-Keeps : Keeps IsQuiet (go_idle env)
  unfolding Keeps go_idle
  go_idle-Keeps c h = elim (Bool-cases (same_status c.status ConversationStatus.idle)) [
    | inl e ↦ rw (e, go_idle) h
    | inr e ↦ rw (e, go_idle) (apply_status-Keeps ConversationStatus.idle c h)
  ]

  sent-IsQuiet :
      (text : String)
      → Keeps IsQuiet (go_idle env >> append_event env EventKind.message (message_payload text))
  sent-IsQuiet text =
      Keeps-bind IsQuiet (go_idle env) _ go_idle-Keeps
        λ _. append-Keeps EventKind.message (message_payload text)

  pub send_message-IsConsistent : (text : String) → Keeps (IsConsistent env) (send_message env text)
  unfolding Keeps Leads send_message
  send_message-IsConsistent text =
      Leads-demand (IsConsistent env) (IsConsistent env) _ _ _ (λ c h f. h)
        λ c (h, allowed).
          let q = sent-IsQuiet text c (quiet c h (not_running_to_send c.status allowed)) in
          (q.0, inl (q.1))

  cancel_run-IsConsistent :
      (answer : Result (Unit {0})) → Keeps (IsConsistent env) (cancel_run env answer)
  unfolding cancel_run
  cancel_run-IsConsistent answer =
      let P = IsConsistent env in
      Keeps-bind P _ _ (Keeps-demand P _ _) λ _.
        Keeps-bind P _ _ (Keeps-demand P _ _)
          λ _. Keeps-bind P _ _ (Keeps-modify P _ λ c h. (h.0, inl refl)) λ _. Keeps-read P _

  pub cancel-IsConsistent :
      (answer : Result (Unit {0})) → Keeps (IsConsistent env) (cancel env answer)
  unfolding Keeps cancel
  cancel-IsConsistent answer c h =
      elim (Bool-cases (same_status c.status ConversationStatus.cancelled || c.cancelling)) [
        | inl e ↦ rw (e, cancel) h
        | inr e ↦ rw (e, cancel) (cancel_run-IsConsistent answer c h)
      ]

  -- Persisted, running and not accepting messages yet.
  abbrev IsStarted : LocalConversation → Type 0
  IsStarted c = IsQuiet c × (is_running c ≡ true)

  run-Leads : Leads IsQuiet IsStarted (apply_status env ConversationStatus.running)
  unfolding Leads persist_status transact save_conversation_state
  run-Leads =
      apply_status-Leads IsQuiet IsStarted
        (λ c s same (h, running). (IsQuiet-frame c s same h, running)) (λ c h. h)
        ConversationStatus.running
        λ c h. (
          (persist_status-IsPersisted env (record c { status = ConversationStatus.running }), h.1),
          refl,
        )

  pub start_run-IsConsistent : Keeps (IsConsistent env) (start_run env)
  unfolding Keeps Leads start_run modify
  start_run-IsConsistent =
      let P = IsConsistent env in
      Leads-demand P P _ _ _ (λ c h f. h)
        (Leads-demand (λ c. P c × (not (is_running c) ≡ true)) P _ _ _ (λ c h f. h.0)
          λ c h.
            Leads-bind IsQuiet IsStarted P (apply_status env ConversationStatus.running) _ run-Leads
              (λ c q. consistent c (q.0)) (λ _ c q. (q.0.0, inr (q.1))) c
              (quiet c (h.0.0) (false_of_not (h.0.1))))

  settle_run-Persists :
      (outcome : Result (Unit {0})) → Keeps (IsPersisted env) (settle_run env outcome)
  unfolding settle_run stop_run fail_run
  settle_run-Persists (ok done) = Keeps-return (IsPersisted env) true
  settle_run-Persists (err e) =
      let P = IsPersisted env in
      Keeps-if P (is_cancelled_error e) _ _
        (Keeps-bind P _ _ (Keeps-demand P _ _) λ _.
          Keeps-bind P _ _ (apply_status-Persists ConversationStatus.cancelled)
            λ _. Keeps-return P false)
        (Keeps-if P (is_agent_error e) _ _
          (Keeps-bind P _ _
            (append_event-Keeps env P IsPersisted-frame (λ c h. h) EventKind.error _)
            λ _. Keeps-bind P _ _ (Keeps-demand P _ _) λ _.
              Keeps-bind P _ _ (apply_status-Persists ConversationStatus.error)
                λ _. Keeps-raise Bool P e)
          (Keeps-raise Bool P e))

  finish_status-Keeps : (finished : Bool) → Keeps IsQuiet (finish_status env finished)
  unfolding finish_status
  finish_status-Keeps false = Keeps-return IsQuiet tt
  finish_status-Keeps true =
      Keeps-bind IsQuiet _ _ (Keeps-demand IsQuiet _ _)
        λ _. apply_status-Keeps ConversationStatus.finished

  pub finish_run-IsConsistent :
      (outcome : Result (Unit {0})) → Keeps (IsConsistent env) (finish_run env outcome)
  unfolding Keeps Leads finish_run
  finish_run-IsConsistent outcome c h =
      let settled =
        Leads-finally (IsPersisted env) (IsPersisted env) IsQuiet (settle_run env outcome)
          begin_settling (settle_run-Persists outcome) (λ c h. (h, refl)) in
      let q =
        Leads-bind (IsPersisted env) IsQuiet IsQuiet
          (finally (settle_run env outcome) begin_settling) (finish_status env) settled (λ c h. h)
          finish_status-Keeps c (h.0) in
      (q.0, inl (q.1))
