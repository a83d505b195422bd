-- ===== src/Sandbox/LocalConversation/Reached.antt =====
-- The status of a conversation of sandboxes/gg/server/agent/local_conversation.py, in memory and in
-- the database, over all that can happen to it, and after a restart.
use gg_agent_server.Prelude.{ℕ, ◌≡◌, refl, ap, inl, inr, false, Bool-cases}
use gg_agent_server.Result.{ok}
use gg_agent_server.Program.{◌>>=◌, transact}
use gg_agent_server.Program.Runs.{Keeps}
use gg_agent_server.Sdk.Domain.{ConversationStatus}
use gg_agent_server.Sandbox.{SandboxState}
use gg_agent_server.Sandbox.EventLog.{
  load_meta, load_base_state, open_conversation, save_conversation_state,
}
use gg_agent_server.Sandbox.LocalConversation.{
  Environment, LocalConversation, is_running, persist_status, base_of,
}
use gg_agent_server.Sandbox.LocalConversation.Runs.{create, disown, open_stored, hydrate}
use gg_agent_server.Sandbox.LocalConversation.Steps.{
  IsPersisted, IsClosed, IsConsistent, Step, Reach,
}
use gg_agent_server.Sandbox.LocalConversation.Frames.{
  persist_status-IsPersisted, append_event-Keeps, steer-Keeps,
}
use gg_agent_server.Sandbox.LocalConversation.Invariant.{
  IsQuiet, IsPersisted-frame, send_message-IsConsistent, cancel-IsConsistent,
  start_run-IsConsistent, finish_run-IsConsistent,
}

module _ (env : Environment) where
  create-IsConsistent :
      (state : SandboxState) (draws : ℕ) → IsConsistent env (create env state draws).1
  unfolding create ◌>>=◌ transact open_conversation persist_status save_conversation_state
  create-IsConsistent state draws = (
    persist_status-IsPersisted env (record {
      state = _;
      status = ConversationStatus.idle;
      accepting_messages = false;
      cancelling = false;
      draws = draws;
    }),
    inl refl,
  )

  disown-IsIdle :
      (c : LocalConversation)
      → IsQuiet env c
      → IsQuiet env (disown env c).1
        × (is_running (disown env c).1 ≡ false)
        × ((disown env c).0 ≡ ok tt)
  unfolding disown persist_status transact save_conversation_state
  disown-IsIdle c h = elim (Bool-cases (is_running c)) [
    | inl e ↦
        let failed = record c { status = ConversationStatus.error } in
        rw (e, disown) ((persist_status-IsPersisted env failed, h.1), refl, refl)
    | inr e ↦ rw (e, disown) (h, e, refl)
  ]

  pub reopened-IsIdle :
      (draws : ℕ) (c : LocalConversation)
      → IsPersisted env c
      → let opened = open_stored env (base_of env c) c.state draws in
        IsQuiet env opened.1 × (is_running opened.1 ≡ false) × (opened.0 ≡ ok tt)
  unfolding open_stored ◌>>=◌ transact open_conversation
  reopened-IsIdle draws c (time, found) = rw found (
      disown-IsIdle
        (record {
          state = c.state;
          status = c.status;
          accepting_messages = false;
          cancelling = false;
          draws = draws;
        })
        ((time, found), refl))

  Step-IsConsistent :
      {c c' : LocalConversation} → IsConsistent env c → Step env c c' → IsConsistent env c'
  unfolding Keeps
  Step-IsConsistent h (Step.sent text c) = send_message-IsConsistent env text c h
  Step-IsConsistent h (Step.steered message_id text answer c) =
      steer-Keeps env (IsConsistent env)
        (λ c s same (saved, accepting). (IsPersisted-frame env c s same saved, accepting))
        (λ c h. h) message_id text answer c h
  Step-IsConsistent h (Step.cancelled answer c) = cancel-IsConsistent env answer c h
  Step-IsConsistent h (Step.started c) = start_run-IsConsistent env c h
  Step-IsConsistent h (Step.emitted kind payload c) =
      append_event-Keeps env (IsConsistent env)
        (λ c s same (saved, accepting). (IsPersisted-frame env c s same saved, accepting))
        (λ c h. h) kind payload c h
  Step-IsConsistent h (Step.settled c) = (h.0, inl refl)
  Step-IsConsistent h (Step.finished outcome c) = finish_run-IsConsistent env outcome c h
  Step-IsConsistent h (Step.restarted draws c) =
      let q = (reopened-IsIdle draws c (h.0)).0 in (q.0, inl (q.1))

-- Whatever happens to a conversation, in any order, restarts of the server included, its status and
-- its identity in memory are those in the database, in both columns, and it accepts messages to the
-- agent only while it is running.
pub reached-IsConsistent :
    (env : Environment) {c : LocalConversation} → Reach env c → IsConsistent env c
reached-IsConsistent env (Reach.created state draws) = create-IsConsistent env state draws
reached-IsConsistent env (Reach.step earlier last) =
    Step-IsConsistent env (reached-IsConsistent env earlier) last

-- After a restart of the server at any point the conversation is found in the database with the
-- identity, the directory and the agent that it had; it is not running, and what it is persisted as
-- says so, and it accepts no message to an agent.
pub hydrate-reached :
    (env : Environment) {c : LocalConversation} (draws : ℕ)
    → Reach env c
    → (c' : LocalConversation) × (hydrate env c.state draws ≡ ok (env, (ok tt, c')))
      × (is_running c' ≡ false)
      × IsPersisted env c'
      × IsClosed c'
unfolding hydrate load_meta load_base_state
hydrate-reached env {c} draws reached =
    let ((time, found), accepting) = reached-IsConsistent env reached in
    let (calm, idle, done) = reopened-IsIdle env draws c (time, found) in
    let opened = open_stored env (base_of env c) c.state draws in
    (
      opened.1,
      rw (hydrate, load_meta, found, load_base_state, found)
          (ap (λ r. ok (env, (r, opened.1))) done),
      idle,
      calm.0,
      calm.1,
    )
