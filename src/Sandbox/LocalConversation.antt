-- ===== src/Sandbox/LocalConversation.antt =====
-- sandboxes/gg/server/agent/local_conversation.py: a conversation around an agent backend. The
-- backend's answers and the way its run ends are arguments of the operations, and `run` is the two
-- operations that hold the lock before and after the backend runs.
pub mod Messages
pub mod Receipts
pub mod Steps
pub mod Frames
pub mod Invariant
pub mod Reached
pub mod Cancellation
mod Examples
pub mod Runs
use gg_agent_server.Prelude.{
  ℕ, suc, String, Bool, true, false, not, ◌&&◌, ◌||◌, Option, none, some, List, [], ◌∷◌, ◌==◌,
  if◌then◌else◌,
}
use gg_agent_server.Result.{
  Result, Error, ok, err, agent_cancelled_error, agent_control_error, agent_error,
  conversation_already_running_error, invalid_conversation_state_error, message_id_conflict_error,
}
use gg_agent_server.Program.{
  Program, return, raise, transact, read, catch, finally, modify, demand, ◌>>=◌, ◌>>◌,
}
use gg_agent_server.Sdk.Domain.{
  ConversationStatus, ConversationRecord, AgentConfig, Event, EventKind, PayloadValue,
  MessageReceipt, MessageDeliveryStatus,
}
use gg_agent_server.Sandbox.{BaseState, SandboxState, Write}
use gg_agent_server.Sandbox.EventLog.{
  load_meta, load_base_state, save_conversation_state, open_conversation, append, next_seq,
  load_receipt, save_receipt,
}

-- What a conversation is made with, `uuid4` and the clock at each draw, and `str` and the `code` of
-- an exception.
pub record Environment : Type 0 where
  pub key : String
  pub id : String
  pub working_dir : String
  pub agent : AgentConfig
  pub running_backend : Bool
  pub uuid4 : ℕ → String
  pub now : ℕ → ℕ
  pub str : Error → String
  pub code : Error → String

-- `draws` counts the draws from the environment.
pub record LocalConversation : Type 0 where
  pub state : SandboxState
  pub status : ConversationStatus
  pub accepting_messages : Bool
  pub cancelling : Bool
  pub draws : ℕ

abbrev pub same_status : ConversationStatus → ConversationStatus → Bool
same_status ConversationStatus.idle ConversationStatus.idle = true
same_status ConversationStatus.running ConversationStatus.running = true
same_status ConversationStatus.finished ConversationStatus.finished = true
same_status ConversationStatus.error ConversationStatus.error = true
same_status ConversationStatus.cancelled ConversationStatus.cancelled = true
same_status _ _ = false

abbrev status_value : ConversationStatus → String
status_value ConversationStatus.idle = "idle"
status_value ConversationStatus.running = "running"
status_value ConversationStatus.finished = "finished"
status_value ConversationStatus.error = "error"
status_value ConversationStatus.cancelled = "cancelled"

pub data Operation : Type 0 where
  send run finish fail abort : Operation

abbrev pub is_allowed : ConversationStatus → Operation → Bool
is_allowed ConversationStatus.idle Operation.send = true
is_allowed ConversationStatus.idle Operation.run = true
is_allowed ConversationStatus.finished Operation.send = true
is_allowed ConversationStatus.error Operation.send = true
is_allowed ConversationStatus.running Operation.finish = true
is_allowed ConversationStatus.running Operation.fail = true
is_allowed ConversationStatus.running Operation.abort = true
is_allowed _ _ = false

abbrev pub is_running : LocalConversation → Bool
is_running c = same_status c.status ConversationStatus.running

abbrev pub is_cancelled_error : Error → Bool
is_cancelled_error Error.agent_cancelled_error = true
is_cancelled_error _ = false

-- `AgentError` and its subclasses
abbrev pub is_agent_error : Error → Bool
is_agent_error Error.agent_error = true
is_agent_error Error.agent_cancelled_error = true
is_agent_error _ = false

abbrev pub is_unsure : Error → Bool
is_unsure Error.agent_control_error = true
is_unsure e = is_agent_error e

abbrev pub with_state {ℓ} :
    {A : Type ℓ} → LocalConversation → Result (A × SandboxState) → Result (A × LocalConversation)
with_state c (ok (a, s)) = ok (a, record c { state = s })
with_state c (err e) = err e

abbrev pub commit : {A : Type 0} → Write A → Program LocalConversation A
commit body = transact (λ c. with_state c (body c.state))

abbrev pub transition : Operation → Program LocalConversation (Unit {0})
transition operation = demand (λ c. is_allowed c.status operation) invalid_conversation_state_error

abbrev pub begin_settling : LocalConversation → LocalConversation
begin_settling c = record c { accepting_messages = false }

abbrev pub draw : LocalConversation → LocalConversation
draw c = record c { draws = suc c.draws }

module _ (env : Environment) where
  abbrev pub meta_of : LocalConversation → ConversationRecord
  meta_of c = record {
    id = env.id;
    status = c.status;
    working_dir = env.working_dir;
    created_at = env.now c.draws;
  }

  abbrev pub base_of : LocalConversation → BaseState
  base_of c = record { status = c.status; working_dir = env.working_dir; agent = env.agent }

  unfoldable pub persist_status : Program LocalConversation (Unit {0})
  persist_status c = commit (save_conversation_state env.key (meta_of c) (base_of c)) (draw c)

  abbrev pub event_of : EventKind → List (String × PayloadValue) → LocalConversation → Event
  event_of kind payload c = record {
    id = env.uuid4 c.draws;
    seq = next_seq env.key c.state;
    kind = kind;
    payload = payload;
    created_at = env.now c.draws;
  }

  -- The listener is told last, and what it raises is dropped.
  unfoldable pub append_event :
      EventKind → List (String × PayloadValue) → Program LocalConversation Event
  append_event kind payload c =
      let event = event_of kind payload c in
      (commit (append env.key event) >> return event) (draw c)

  unfoldable pub apply_status : ConversationStatus → Program LocalConversation (Unit {0})
  apply_status status = do
    modify (λ c. record c { status = status })
    persist_status
    _ ← append_event EventKind.status (("status", PayloadValue.text (status_value status)) ∷ [])
    return tt
