-- ===== src/Sandbox.antt =====
-- sandboxes/gg/server/sqlite_state.py: the tables of the database of one sandbox, and a write
-- transaction. A JSON column holds the value that is dumped to it and validated from it. The table
-- `publication_intents` belongs to the publication helper and is left out.
pub mod EventLog
pub mod LocalConversation
pub mod Executions
pub mod Samples
pub mod Redaction
pub mod Supervisor
use gg_agent_server.Prelude.{ℕ, String, Option, List}
use gg_agent_server.Sdk.Domain.{
  ConversationStatus, ConversationRecord, AgentConfig, Event, MessageReceipt,
}
use gg_agent_server.Sdk.Execution.{TaskExecutionPhase, TaskExecutionRecord, TaskResultManifest}
use gg_agent_server.Result.{Result}

-- `BaseState` of sandboxes/gg/server/agent/event_log.py
pub record BaseState : Type 0 where
  pub status : ConversationStatus
  pub working_dir : String
  pub agent : AgentConfig

pub record MetadataRow : Type 0 where
  pub name : String
  pub value : String

pub record ConversationRow : Type 0 where
  pub directory : String
  pub meta_json : Option ConversationRecord
  pub base_json : Option BaseState

pub record EventRow : Type 0 where
  pub conversation : String
  pub seq : ℕ
  pub id : String
  pub payload : Event

pub record MessageReceiptRow : Type 0 where
  pub conversation : String
  pub message_id : String
  pub payload : MessageReceipt

pub record ExecutionRow : Type 0 where
  pub execution_id : String
  pub start_key : String
  pub phase : TaskExecutionPhase
  pub payload : TaskExecutionRecord

pub record ManifestRow : Type 0 where
  pub execution_id : String
  pub payload : TaskResultManifest

pub record SandboxState : Type 0 where
  pub metadata : List MetadataRow
  pub conversations : List ConversationRow
  pub events : List EventRow
  pub message_receipts : List MessageReceiptRow
  pub executions : List ExecutionRow
  pub manifests : List ManifestRow

-- The body of a write transaction: it commits what it returns, and an exception rolls it back.
abbrev pub Write : Type 0 → Type 0
Write A = SandboxState → Result (A × SandboxState)
