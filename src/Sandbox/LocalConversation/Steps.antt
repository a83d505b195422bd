-- ===== src/Sandbox/LocalConversation/Steps.antt =====
-- What can happen to a conversation of sandboxes/gg/server/agent/local_conversation.py, the restart
-- of the server included, in any order.
use gg_agent_server.Prelude.{ℕ, String, ◌≡◌, ◌⊎◌, Bool, true, false, some, Option, List}
use gg_agent_server.Result.{Result}
use gg_agent_server.Sdk.Domain.{EventKind, PayloadValue}
use gg_agent_server.Sandbox.{ConversationRow, SandboxState}
use gg_agent_server.Sandbox.EventLog.{find_conversation}
use gg_agent_server.Sandbox.LocalConversation.{
  Environment, LocalConversation, is_running, begin_settling, meta_of, base_of, append_event,
}
use gg_agent_server.Sandbox.LocalConversation.Messages.{send_message, steer}
use gg_agent_server.Sandbox.LocalConversation.Runs.{
  cancel, start_run, finish_run, create, open_stored,
}

-- No message to the running agent is accepted.
abbrev pub IsClosed : LocalConversation → Type 0
IsClosed c = c.accepting_messages ≡ false

module _ (env : Environment) where
  pub data Step : LocalConversation → LocalConversation → Type 0 where
    sent : (text : String) (c : LocalConversation) → Step c (send_message env text c).1
    steered :
        (message_id text : String) (answer : Result (Bool × Option String)) (c : LocalConversation)
        → Step c (steer env message_id text answer c).1
    cancelled :
        (answer : Result (Unit {0})) (c : LocalConversation) → Step c (cancel env answer c).1
    started : (c : LocalConversation) → Step c (start_run env c).1
    emitted :
        (kind : EventKind) (payload : List (String × PayloadValue)) (c : LocalConversation)
        → Step c (append_event env kind payload c).1
    settled : (c : LocalConversation) → Step c (begin_settling c)
    finished :
        (outcome : Result (Unit {0})) (c : LocalConversation) → Step c (finish_run env outcome c).1
    restarted :
        (draws : ℕ) (c : LocalConversation)
        → Step c (open_stored env (base_of env c) c.state draws).1

  pub data Reach : LocalConversation → Type 0 where
    created : (state : SandboxState) (draws : ℕ) → Reach (create env state draws).1
    step : {c c' : LocalConversation} → Reach c → Step c c' → Reach c'

  -- The row that stands for the conversation, but for the time of its last change.
  abbrev pub row_at : ℕ → LocalConversation → ConversationRow
  row_at time c = record {
    directory = env.key;
    meta_json = some (record (meta_of env c) { created_at = time });
    base_json = some (base_of env c);
  }

  abbrev pub IsPersisted : LocalConversation → Type 0
  IsPersisted c = (time : ℕ) × (find_conversation env.key c.state ≡ some (row_at time c))

  abbrev pub IsConsistent : LocalConversation → Type 0
  IsConsistent c = IsPersisted c × (IsClosed c ⊎ (is_running c ≡ true))
