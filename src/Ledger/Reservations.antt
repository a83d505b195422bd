-- ===== src/Ledger/Reservations.antt =====
-- `TaskLedger`: the reservations, which hold the capacity of the control plane.
pub mod Soundness
pub mod Capacity
mod Examples
pub mod Terminal
use gg_agent_server.Prelude.{
  ℕ, String, Bool, true, false, not, ◌&&◌, ◌||◌, ltb, text_leb, Option, none, some, List, map,
  length, leb, nat_eq, ◌==◌, if◌then◌else◌, is_some,
}
use gg_agent_server.Result.{
  ok, key_error, value_error, assertion_error, require, fetched, ◌>>=◌, ◌>>◌,
}
use gg_agent_server.Table.{
  find_where, select_where, delete_where, update_where, count_where, order_by, insert_unique,
}
use gg_agent_server.Sdk.Tasks.{TaskState, TaskRecord}
use gg_agent_server.Ledger.Rows.{
  TaskRow, ReservationPhase, ReservationRecord, Ledger, row_to_record,
}
use gg_agent_server.Ledger.Tasks.{Tx, find_task, update_task, in_state, seq_before}

-- WHERE task_id = ?
abbrev pub reserves : String → ReservationRecord → Bool
reserves task_id r = r.task_id == task_id

abbrev pub is_reserved : Ledger → String → Bool
is_reserved l task_id = is_some (find_where (reserves task_id) l.reservations)

abbrev pub update_reservations : String → (ReservationRecord → ReservationRecord) → Ledger → Ledger
update_reservations task_id change l = record l {
  reservations = update_where (reserves task_id) change l.reservations;
}

-- A queued task with no reservation: the LEFT JOIN … IS NULL.
abbrev pub is_waiting : Ledger → TaskRow → Bool
is_waiting l row = in_state TaskState.queued row && not (is_reserved l row.id)

-- ORDER BY tasks.seq ASC LIMIT 1
pub next_waiting : Ledger → Option TaskRow
next_waiting l =
    find_where (λ row. true) (order_by seq_before (select_where (is_waiting l) l.tasks))

abbrev pub new_reservation : String → ℕ → ReservationRecord
new_reservation task_id now = record {
  task_id = task_id;
  phase = ReservationPhase.starting;
  condition = none;
  reserved_at = now;
  updated_at = now;
}

-- The two writes of `reserve_next`, once the reservation is inserted.
abbrev pub claimed_ledger : TaskRow → ℕ → List ReservationRecord → Ledger → Ledger
claimed_ledger row now reservations l =
    update_task row.id (λ task. record task { state = TaskState.starting; updated_at = now })
      (record l { reservations = reservations })

-- The task exists, since its row was selected.
pub claim : TaskRow → ℕ → Tx (Option TaskRecord)
claim row now l = do
  reservations ← insert_unique (reserves row.id) (new_reservation row.id now) l.reservations
  claimed ← fetched assertion_error (find_task row.id (claimed_ledger row now reservations l))
  ok (some (row_to_record claimed none), claimed_ledger row now reservations l)

pub claim_next : ℕ → Tx (Option TaskRecord)
claim_next now l = elim (next_waiting l) [ none ↦ ok (none, l) | some row ↦ claim row now l ]

pub reserve_next : ℕ → ℕ → Tx (Option TaskRecord)
reserve_next capacity now l = do
  require (leb 1 capacity && leb capacity 10) value_error
  if leb capacity (length l.reservations) then ok (none, l) else claim_next now l

pub get_reservation : String → Ledger → Option ReservationRecord
get_reservation task_id l = find_where (reserves task_id) l.reservations

-- ORDER BY reserved_at, task_id
abbrev pub reserved_before : ReservationRecord → ReservationRecord → Bool
reserved_before a b =
    ltb a.reserved_at b.reserved_at
    || nat_eq a.reserved_at b.reserved_at && text_leb a.task_id b.task_id

pub list_reservations : Ledger → List ReservationRecord
list_reservations l = order_by reserved_before l.reservations

abbrev pub is_terminal : TaskState → Bool
is_terminal TaskState.completed = true
is_terminal TaskState.failed = true
is_terminal TaskState.cancelled = true
is_terminal _ = false

-- `_task_state_is_terminal`
pub task_state_is_terminal : String → Ledger → Bool
task_state_is_terminal task_id l = elim (find_task task_id l) [
  | none ↦ false
  | some row ↦ is_terminal row.state
]

-- The UPDATE of the public state, where one is given and the task is not terminal.
pub publish_state : Option TaskState → String → ℕ → Ledger → Ledger
publish_state none task_id now l = l
publish_state (some state) task_id now l =
    if task_state_is_terminal task_id l
    then l
    else update_task task_id (λ row. record row { state = state; updated_at = now }) l

pub update_reservation :
    String → ReservationPhase → Option String → Option TaskState → ℕ → Tx ReservationRecord
update_reservation task_id phase condition task_state now l =
    let l' = publish_state task_state task_id now (
      update_reservations task_id
        (λ r. record r { phase = phase; condition = condition; updated_at = now }) l) in
    do
      require (nat_eq (count_where (reserves task_id) l.reservations) 1) key_error
      row ← fetched assertion_error (get_reservation task_id l')
      ok (row, l')

pub release_reservation : String → String → ℕ → Tx (Unit {0})
release_reservation task_id cleanup_status now l = ok (
  tt,
  update_task task_id
      (λ row. record row { sandbox_cleanup_status = some cleanup_status; updated_at = now })
      (record l { reservations = delete_where (reserves task_id) l.reservations }),
)

-- `protected_task_ids`
pub protected_task_ids : Ledger → List String
protected_task_ids l = map (λ (r : ReservationRecord). r.task_id) l.reservations
