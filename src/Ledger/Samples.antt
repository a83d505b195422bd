-- ===== src/Ledger/Samples.antt =====
-- Ledgers for the examples: of one task or two, and with a reservation.
use gg_agent_server.Prelude.{ℕ, String, false, none, [], ◌∷◌}
use gg_agent_server.Sdk.Tasks.{TaskState}
use gg_agent_server.Ledger.Rows.{TaskRow, ReservationPhase, Ledger}

abbrev pub empty_ledger : Ledger
empty_ledger = record {
  task_seq = 0;
  tasks = [];
  reservations = [];
  sandbox_creations = [];
  supervisions = [];
  publications = [];
  receipts = [];
  event_counters = [];
  event_identities = [];
  event_copies = [];
  source_cursors = [];
  results = [];
  tombstones = [];
  idempotency = [];
}

abbrev pub task_in : TaskState → String → ℕ → TaskRow
task_in state id seq = record {
  id = id;
  seq = seq;
  state = state;
  idempotency_key = id;
  owner_id = none;
  repository = "owner/repo";
  prompt = "fix it";
  base_ref = none;
  base_sha = none;
  retry_of = none;
  model = "model";
  created_at = 1;
  updated_at = 1;
  outcome_detail = none;
  check_status = none;
  sandbox_cleanup_status = none;
  payload_expired = false;
  workspace_expired = false;
  workspace_last_activity_at = none;
}

abbrev pub ledger_of : TaskState → Ledger
ledger_of state = record empty_ledger { task_seq = 1; tasks = task_in state "a" 1 ∷ [] }

-- The second task in the table has the lesser number.
abbrev pub two_queued : Ledger
two_queued = record empty_ledger {
  task_seq = 2;
  tasks = task_in TaskState.queued "b" 2 ∷ task_in TaskState.queued "a" 1 ∷ [];
}

abbrev pub reserved_in : TaskState → Ledger
reserved_in state = record (ledger_of state) {
  reservations =
      record {
        task_id = "a";
        phase = ReservationPhase.running;
        condition = none;
        reserved_at = 1;
        updated_at = 1;
      }
      ∷ [];
}
