-- ===== src/Sdk/Tasks.antt =====
-- packages/gg-sdk/gg/sdk/tasks.py. A time is its distance from a fixed origin; identifiers are texts.
use gg_agent_server.Prelude.{ℕ, String, Bool, true, false, Option}
use gg_agent_server.Sdk.Execution.{AgentOutcome}

pub data TaskState : Type 0 where
  queued starting running idle sleeping finalizing completed failed cancelled : TaskState

-- `==` of two states
abbrev pub same_state : TaskState → TaskState → Bool
same_state TaskState.queued TaskState.queued = true
same_state TaskState.starting TaskState.starting = true
same_state TaskState.running TaskState.running = true
same_state TaskState.idle TaskState.idle = true
same_state TaskState.sleeping TaskState.sleeping = true
same_state TaskState.finalizing TaskState.finalizing = true
same_state TaskState.completed TaskState.completed = true
same_state TaskState.failed TaskState.failed = true
same_state TaskState.cancelled TaskState.cancelled = true
same_state _ _ = false

pub record TaskRecord : Type 0 where
  pub owner_id : Option String
  pub id : String
  pub seq : ℕ
  pub state : TaskState
  pub idempotency_key : String
  pub repository : Option String
  pub prompt : String
  pub base_ref : Option String
  pub base_sha : Option String
  pub retry_of : Option String
  pub model : String
  pub created_at : ℕ
  pub updated_at : ℕ
  pub agent_outcome : Option AgentOutcome
  pub outcome_detail : Option String
  pub check_status : Option String
  pub sandbox_cleanup_status : Option String
  pub payload_expired : Bool
  pub workspace_expired : Bool
  pub workspace_last_activity_at : Option ℕ
