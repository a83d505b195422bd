-- ===== src/Ledger/Rows.antt =====
-- The tables of the ledger (backend/gg/runtime/sqlite_migrations.py) and its records. A row that the
-- ledger only copies field by field into a record is that record.
use gg_agent_server.Prelude.{
  ℕ, String, Bool, true, false, Option, none, some, List, ◌==◌, if◌then◌else◌,
}
use gg_agent_server.Sdk.Tasks.{TaskState, TaskRecord}
use gg_agent_server.Sdk.Domain.{MessageReceipt}
use gg_agent_server.Sdk.Execution.{AgentOutcome, TaskResultManifest}
use gg_agent_server.Sdk.Publication.{PublicationState, PublicationRecord}

pub data SandboxProviderState : Type 0 where
  creating running stopped unknown : SandboxProviderState

pub data ReservationPhase : Type 0 where
  starting running finalizing termination_pending unresolved_creation : ReservationPhase

pub record TaskRow : Type 0 where
  pub id : String
  pub seq : ℕ
  pub state : TaskState
  pub idempotency_key : String
  pub owner_id : Option String
  pub repository : String
  pub prompt : String
  pub base_ref : Option String
  pub base_sha : Option String
  pub retry_of : Option String
  pub model : String
  pub created_at : ℕ
  pub updated_at : ℕ
  pub outcome_detail : Option String
  pub check_status : Option String
  pub sandbox_cleanup_status : Option String
  pub payload_expired : Bool
  pub workspace_expired : Bool
  pub workspace_last_activity_at : Option ℕ

pub record ReservationRecord : Type 0 where
  pub task_id : String
  pub phase : ReservationPhase
  pub condition : Option String
  pub reserved_at : ℕ
  pub updated_at : ℕ

pub record SupervisionRecord : Type 0 where
  pub task_id : String
  pub execution_id : String
  pub task_branch : String
  pub start_key : String
  pub conversation_id : Option String
  pub cancel_requested : Bool
  pub tail_gap_possible : Bool
  pub created_at : ℕ
  pub updated_at : ℕ

pub record TaskResultArchive : Type 0 where
  pub task_id : String
  pub execution_id : Option String
  pub manifest : Option TaskResultManifest
  pub evidence_complete : Bool
  pub evidence_detail : Option String
  pub archived_at : Option ℕ

pub record SandboxCreationRecord : Type 0 where
  pub task_id : String
  pub deployment : String
  pub sandbox_name : String
  pub tags_json : String
  pub session_api_key : String
  pub credential_version : Option ℕ
  pub provider_id : Option String
  pub provider_state : SandboxProviderState
  pub detail : Option String
  pub created_at : ℕ
  pub updated_at : ℕ

pub record ReceiptRow : Type 0 where
  pub task_id : String
  pub receipt : MessageReceipt

pub record EventCounter : Type 0 where
  pub task_id : String
  pub value : ℕ

pub record EventIdentity : Type 0 where
  pub task_id : String
  pub source_id : String
  pub source_seq : ℕ
  pub cursor_seq : ℕ

pub record EventCopy : Type 0 where
  pub task_id : String
  pub cursor_seq : ℕ
  pub source_id : String
  pub source_seq : ℕ
  pub event_json : String
  pub created_at : ℕ

pub record SourceCursor : Type 0 where
  pub task_id : String
  pub source_id : String
  pub source_seq : ℕ

-- The members of the JSON text in `remote_effect_json`.
pub record RemoteEffect : Type 0 where
  pub pr_number : Option ℕ
  pub pr_url : Option String
  pub pr_state : Option String
  pub state : PublicationState

pub record RetentionTombstone : Type 0 where
  pub task_id : String
  pub remote_effect : Option RemoteEffect
  pub expires_at : ℕ

pub record IdempotencyRow : Type 0 where
  pub task_id : String
  pub owner_id : Option String
  pub idempotency_key : String
  pub seq : ℕ
  pub terminal_state : TaskState
  pub model : String
  pub created_at : ℕ
  pub updated_at : ℕ

-- `task_seq` is the one row of `ledger_counters`.
pub record Ledger : Type 0 where
  pub task_seq : ℕ
  pub tasks : List TaskRow
  pub reservations : List ReservationRecord
  pub sandbox_creations : List SandboxCreationRecord
  pub supervisions : List SupervisionRecord
  pub publications : List PublicationRecord
  pub receipts : List ReceiptRow
  pub event_counters : List EventCounter
  pub event_identities : List EventIdentity
  pub event_copies : List EventCopy
  pub source_cursors : List SourceCursor
  pub results : List TaskResultArchive
  pub tombstones : List RetentionTombstone
  pub idempotency : List IdempotencyRow

-- `row["repository"] or None`
abbrev pub text_or_none : String → Option String
text_or_none s = if s == "" then none else some s

-- `_row_to_record`; the outcome comes from the join with `task_results`
unfoldable pub row_to_record : TaskRow → Option AgentOutcome → TaskRecord
row_to_record row outcome = record {
  owner_id = row.owner_id;
  id = row.id;
  seq = row.seq;
  state = row.state;
  idempotency_key = row.idempotency_key;
  repository = text_or_none row.repository;
  prompt = row.prompt;
  base_ref = row.base_ref;
  base_sha = row.base_sha;
  retry_of = row.retry_of;
  model = row.model;
  created_at = row.created_at;
  updated_at = row.updated_at;
  agent_outcome = outcome;
  outcome_detail = row.outcome_detail;
  check_status = row.check_status;
  sandbox_cleanup_status = row.sandbox_cleanup_status;
  payload_expired = row.payload_expired;
  workspace_expired = row.workspace_expired;
  workspace_last_activity_at = row.workspace_last_activity_at;
}

-- `_record_from_tombstone`
unfoldable pub record_from_tombstone : IdempotencyRow → TaskRecord
record_from_tombstone row = record {
  owner_id = row.owner_id;
  id = row.task_id;
  seq = row.seq;
  state = row.terminal_state;
  idempotency_key = row.idempotency_key;
  repository = none;
  prompt = "";
  base_ref = none;
  base_sha = none;
  retry_of = none;
  model = row.model;
  created_at = row.created_at;
  updated_at = row.updated_at;
  agent_outcome = none;
  outcome_detail = none;
  check_status = none;
  sandbox_cleanup_status = none;
  payload_expired = true;
  workspace_expired = false;
  workspace_last_activity_at = none;
}
