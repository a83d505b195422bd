-- ===== src/Sandbox/LocalConversation/Runs.antt =====
-- `run`, `cancel`, `__init__` and `open` of sandboxes/gg/server/agent/local_conversation.py.
use gg_agent_server.Prelude.{ℕ, Bool, true, false, not, ◌||◌, [], ◌∷◌, if◌then◌else◌}
use gg_agent_server.Result.{
  Result, Error, ok, err, agent_control_error, conversation_already_running_error,
  invalid_conversation_state_error,
}
use gg_agent_server.Program.{Program, return, raise, read, finally, modify, demand, ◌>>=◌, ◌>>◌}
use gg_agent_server.Sdk.Domain.{ConversationStatus, ConversationRecord, EventKind, PayloadValue}
use gg_agent_server.Sandbox.{BaseState, SandboxState}
use gg_agent_server.Sandbox.EventLog.{load_meta, load_base_state, open_conversation}
use gg_agent_server.Sandbox.LocalConversation.{
  Environment, LocalConversation, Operation, same_status, is_running, is_agent_error,
  is_cancelled_error, commit, transition, begin_settling, persist_status, append_event,
  apply_status,
}

module _ (env : Environment) where
  -- The backend is told to stop, and answers, unless the cancellation is there already.
  unfoldable pub cancel_run : Result (Unit {0}) → Program LocalConversation (Unit {0})
  cancel_run answer = do
    demand is_running invalid_conversation_state_error
    demand (λ c. env.running_backend) agent_control_error
    modify (λ c. record c { accepting_messages = false; cancelling = true })
    read (λ c. answer)

  unfoldable pub cancel : Result (Unit {0}) → Program LocalConversation (Unit {0})
  cancel answer c =
      if same_status c.status ConversationStatus.cancelled || c.cancelling
      then (ok tt, c)
      else cancel_run answer c

  -- `run` up to the call of the backend
  unfoldable pub start_run : Program LocalConversation (Unit {0})
  start_run = do
    demand (λ c. not (is_running c)) conversation_already_running_error
    transition Operation.run
    apply_status env ConversationStatus.running
    modify (λ c. record c { accepting_messages = env.running_backend })

  unfoldable pub fail_run : Error → Program LocalConversation Bool
  fail_run e = do
    _ ←
        append_event env EventKind.error (
          ("type", PayloadValue.text (env.code e))
          ∷ ("message", PayloadValue.text (env.str e))
          ∷ [])
    transition Operation.fail
    apply_status env ConversationStatus.error
    raise e

  unfoldable pub stop_run : Program LocalConversation Bool
  stop_run = do
    transition Operation.abort
    apply_status env ConversationStatus.cancelled
    return false

  -- `run` from the end of the backend's run; `true` where the run goes on after the `try`
  unfoldable pub settle_run : Result (Unit {0}) → Program LocalConversation Bool
  settle_run (ok done) = return true
  settle_run (err e) =
      if is_cancelled_error e then stop_run else if is_agent_error e then fail_run e else raise e

  unfoldable pub finish_status : Bool → Program LocalConversation (Unit {0})
  finish_status false = return tt
  finish_status true = do transition Operation.finish; apply_status env ConversationStatus.finished

  -- One step: the code releases its lock between the status and `_begin_settling`, and takes it again.
  unfoldable pub finish_run : Result (Unit {0}) → Program LocalConversation (Unit {0})
  finish_run outcome = do
    finished ← finally (settle_run outcome) begin_settling
    finish_status finished

  -- `__init__`
  unfoldable pub create : SandboxState → ℕ → Result (Unit {0}) × LocalConversation
  create state draws = (commit (open_conversation env.key) >> persist_status env) (record {
    state = state;
    status = ConversationStatus.idle;
    accepting_messages = false;
    cancelling = false;
    draws = draws;
  })

  abbrev hydrated : BaseState → SandboxState → ℕ → LocalConversation
  hydrated base state draws = record {
    state = state;
    status = base.status;
    accepting_messages = false;
    cancelling = false;
    draws = draws;
  }

  unfoldable pub disown : Program LocalConversation (Unit {0})
  disown c =
      if is_running c
      then persist_status env (record c { status = ConversationStatus.error })
      else (ok tt, c)

-- `open`, with the environment has the stored identity, directory and agent.
unfoldable pub open_stored :
    Environment → BaseState → SandboxState → ℕ → Result (Unit {0}) × LocalConversation
open_stored env base state draws =
    (commit (open_conversation env.key) >> disown env) (hydrated env base state draws)

abbrev pub stored_environment : Environment → ConversationRecord → BaseState → Environment
stored_environment env meta base = record env {
  id = meta.id;
  working_dir = base.working_dir;
  agent = base.agent;
}

unfoldable pub hydrate :
    Environment → SandboxState → ℕ → Result (Environment × (Result (Unit {0}) × LocalConversation))
hydrate env state draws = elim (load_meta env.key state) [
  | err e ↦ err e
  | ok meta ↦ elim (load_base_state env.key state) [
    | err e ↦ err e
    | ok base ↦
        let stored = stored_environment env meta base in
        ok (stored, open_stored stored base state draws)
  ]
]
