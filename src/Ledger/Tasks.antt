-- ===== src/Ledger/Tasks.antt =====
-- `TaskLedger`: admission of tasks and the queries on them. A method that writes is the body of its
-- transaction: a new ledger beside the result, or an error. `now` is the time that `_utcnow_iso`
-- reads, and `task_id` the text that `uuid4` draws.
pub mod Soundness
pub mod Idempotency
pub mod Examples
use gg_agent_server.Prelude.{
  ℕ, suc, String, Bool, true, false, not, ◌&&◌, ◌||◌, Option, none, some, List, map, ltb, leb,
  nat_eq, ◌==◌, or_default, map_option,
}
use gg_agent_server.Result.{
  Result, ok, key_error, value_error, assertion_error, require, fetched, ◌>>=◌, ◌>>◌,
}
use gg_agent_server.Table.{
  find_where, select_where, update_where, count_where, order_by, take, insert_unique,
}
use gg_agent_server.Sdk.Tasks.{TaskState, same_state, TaskRecord}
use gg_agent_server.Sdk.Execution.{AgentOutcome}
use gg_agent_server.Ledger.Rows.{
  TaskRow, IdempotencyRow, TaskResultArchive, Ledger, row_to_record, record_from_tombstone,
}

-- The body of a write transaction.
abbrev pub Tx : Type 0 → Type 0
Tx A = Ledger → Result (A × Ledger)

-- WHERE id = ?
abbrev pub has_id : String → TaskRow → Bool
has_id task_id row = row.id == task_id

abbrev pub find_task : String → Ledger → Option TaskRow
find_task task_id l = find_where (has_id task_id) l.tasks

-- UPDATE tasks SET … WHERE id = ?
abbrev pub update_task : String → (TaskRow → TaskRow) → Ledger → Ledger
update_task task_id change l = record l { tasks = update_where (has_id task_id) change l.tasks }

-- `_owner_scope`: owner_id IS NULL, or owner_id = ?
abbrev pub in_scope : Option String → Option String → Bool
in_scope none none = true
in_scope (some a) (some b) = b == a
in_scope _ _ = false

-- The arguments of `submit`.
pub record Submission : Type 0 where
  pub idempotency_key : String
  pub repository : Option String
  pub prompt : String
  pub base_ref : Option String
  pub retry_of : Option String
  pub model : String
  pub owner_id : Option String

abbrev pub is_submitted : Submission → TaskRow → Bool
is_submitted s row = row.idempotency_key == s.idempotency_key && in_scope s.owner_id row.owner_id

abbrev pub is_retired : Submission → IdempotencyRow → Bool
is_retired s row = row.idempotency_key == s.idempotency_key && in_scope s.owner_id row.owner_id

abbrev pub submitted_row : Submission → ℕ → String → ℕ → TaskRow
submitted_row s now task_id seq = record {
  id = task_id;
  seq = seq;
  state = TaskState.queued;
  idempotency_key = s.idempotency_key;
  owner_id = s.owner_id;
  repository = or_default s.repository "";
  prompt = s.prompt;
  base_ref = s.base_ref;
  base_sha = none;
  retry_of = s.retry_of;
  model = s.model;
  created_at = now;
  updated_at = now;
  outcome_detail = none;
  check_status = none;
  sandbox_cleanup_status = none;
  payload_expired = false;
  workspace_expired = false;
  workspace_last_activity_at = none;
}

-- The record is built from the arguments, not read back.
abbrev pub submitted_record : Submission → ℕ → String → ℕ → TaskRecord
submitted_record s now task_id seq = record {
  owner_id = s.owner_id;
  id = task_id;
  seq = seq;
  state = TaskState.queued;
  idempotency_key = s.idempotency_key;
  repository = s.repository;
  prompt = s.prompt;
  base_ref = s.base_ref;
  base_sha = none;
  retry_of = s.retry_of;
  model = s.model;
  created_at = now;
  updated_at = now;
  agent_outcome = none;
  outcome_detail = none;
  check_status = none;
  sandbox_cleanup_status = none;
  payload_expired = false;
  workspace_expired = false;
  workspace_last_activity_at = none;
}

-- The keys of `tasks`: the primary key, `seq`, and the two unique indexes on owner and key.
abbrev pub same_task_key : TaskRow → TaskRow → Bool
same_task_key a b =
    a.id == b.id
    || nat_eq a.seq b.seq
    || a.idempotency_key == b.idempotency_key && in_scope b.owner_id a.owner_id

pub admit : Submission → ℕ → String → Tx (TaskRecord × Bool)
admit s now task_id l =
    let seq = suc l.task_seq in
    let row = submitted_row s now task_id seq in
    do
      tasks ← insert_unique (λ old. same_task_key old row) row l.tasks
      ok ((submitted_record s now task_id seq, true), record l { task_seq = seq; tasks = tasks })

pub submit : Submission → ℕ → String → Tx (TaskRecord × Bool)
submit s now task_id l = elim (find_where (is_submitted s) l.tasks) [
  | some existing ↦ ok ((row_to_record existing none, false), l)
  | none ↦ elim (find_where (is_retired s) l.idempotency) [
    | some retired ↦ ok ((record_from_tombstone retired, false), l)
    | none ↦ admit s now task_id l
  ]
]

-- `rowcount != 1` is zero here, since `id` is the primary key; the row is then read back.
pub record_base_sha : String → String → ℕ → Tx TaskRecord
record_base_sha task_id base_sha now l =
    let l' =
      update_task task_id (λ row. record row { base_sha = some base_sha; updated_at = now }) l in
    do
      require (nat_eq (count_where (has_id task_id) l.tasks) 1) key_error
      row ← fetched assertion_error (find_task task_id l')
      ok (row_to_record row none, l')

-- The LEFT JOIN with `task_results`, and `json_extract` of `agent_outcome`.
pub joined_outcome : Ledger → String → Option AgentOutcome
joined_outcome l task_id =
    elim (find_where (λ (r : TaskResultArchive). r.task_id == task_id) l.results) [
      | none ↦ none
      | some result ↦ map_option (λ m. m.agent_outcome) result.manifest
    ]

-- AND tasks.owner_id = ?, where an owner is given
abbrev pub owned_by : Option String → TaskRow → Bool
owned_by none row = true
owned_by (some owner) row = in_scope (some owner) row.owner_id

unfoldable pub get : String → Option String → Ledger → Option TaskRecord
get task_id owner l =
    map_option (λ row. row_to_record row (joined_outcome l row.id))
      (find_where (λ row. has_id task_id row && owned_by owner row) l.tasks)

abbrev pub seq_before : TaskRow → TaskRow → Bool
seq_before a b = leb a.seq b.seq

pub list : Option String → Ledger → List TaskRecord
list owner l =
    map (λ row. row_to_record row (joined_outcome l row.id))
      (order_by seq_before (select_where (owned_by owner) l.tasks))

abbrev pub in_state : TaskState → TaskRow → Bool
in_state s row = same_state row.state s

pub count_queued : Ledger → ℕ
count_queued l = count_where (in_state TaskState.queued) l.tasks

-- A sleeping workspace that is due.
abbrev pub is_due : ℕ → ℕ → TaskRow → Bool
is_due before after_seq row =
    in_state TaskState.sleeping row
    && not row.workspace_expired
    && leb (or_default row.workspace_last_activity_at row.updated_at) before
    && ltb after_seq row.seq

pub sleeping_workspace_candidates : ℕ → ℕ → ℕ → Ledger → Result (List TaskRecord)
sleeping_workspace_candidates before after_seq limit l = do
  require (leb 1 limit && leb limit 200) value_error
  ok (
      map (λ row. row_to_record row none)
        (take limit (order_by seq_before (select_where (is_due before after_seq) l.tasks))))
