-- ===== src/Ledger/Lifecycle.antt =====
-- `TaskLedger`: the transitions of a task that is admitted.
pub mod Soundness
pub mod Transitions
mod Examples
use gg_agent_server.Prelude.{
  ℕ, String, Bool, true, false, not, ◌&&◌, ◌||◌, Option, none, some, nat_eq, ◌==◌, if◌then◌else◌,
  coalesce, same_text,
}
use gg_agent_server.Result.{Result, ok, key_error, assertion_error, fetched, ◌>>=◌}
use gg_agent_server.Table.{find_where, delete_where, update_where, count_where}
use gg_agent_server.Sdk.Tasks.{TaskState, same_state, TaskRecord}
use gg_agent_server.Sdk.Domain.{is_accepted}
use gg_agent_server.Ledger.Rows.{TaskRow, ReceiptRow, row_to_record}
use gg_agent_server.Ledger.Tasks.{Tx, has_id, find_task, update_task, in_state}
use gg_agent_server.Ledger.Reservations.{reserves}

-- Membership in `_SETTLED_SUCCESS_OUTCOMES`.
pub is_settled_success : Option String → Bool
is_settled_success none = false
is_settled_success (some outcome) =
    outcome == "published"
    || outcome == "no_changes"
    || outcome == "checks_passed"
    || outcome == "checks_not_run"

-- The state of a task whose sandbox is lost.
pub state_after_loss : TaskRow → TaskState
state_after_loss row =
    if same_state row.state TaskState.cancelled
    then TaskState.cancelled
    else if same_state row.state TaskState.completed || is_settled_success row.outcome_detail
    then TaskState.completed
    else TaskState.failed

pub mark_sandbox_lost : String → String → ℕ → Tx (Unit {0})
mark_sandbox_lost task_id detail now l = elim (find_task task_id l) [
  | none ↦ ok (tt, l)
  | some row ↦ ok (
    tt,
    update_task task_id
        (λ task. record task {
          state = state_after_loss row;
          outcome_detail = coalesce task.outcome_detail (some detail);
          sandbox_cleanup_status = some "confirmed_absent";
          updated_at = now;
        })
        (record l { reservations = delete_where (reserves task_id) l.reservations }),
  )
]

-- A task that is due for settlement: the WHERE clause of `settle_successful_tasks`.
pub is_settled : TaskRow → Bool
is_settled row =
    same_text row.sandbox_cleanup_status (some "confirmed_absent")
    && is_settled_success row.outcome_detail
    && not (in_state TaskState.completed row)
    && not (in_state TaskState.cancelled row)

pub settle_successful_tasks : ℕ → Tx (Unit {0})
settle_successful_tasks now l = ok (
  tt,
  record l {
    tasks =
        update_where is_settled
          (λ row. record row { state = TaskState.completed; updated_at = now }) l.tasks;
  },
)

abbrev pub cancelled_before_allocation : ℕ → TaskRow → TaskRow
cancelled_before_allocation now task = record task {
  state = TaskState.cancelled;
  outcome_detail = some "cancelled_before_allocation";
  updated_at = now;
}

pub cancel_queued_task : String → ℕ → Tx (Option TaskRecord)
cancel_queued_task task_id now l = elim (find_task task_id l) [
  | none ↦ ok (none, l)
  | some row ↦
      if not (in_state TaskState.queued row)
      then ok (some (row_to_record row none), l)
      else let l' = update_task task_id (cancelled_before_allocation now) l in
        do
          updated ← fetched assertion_error (find_task task_id l')
          ok (some (row_to_record updated none), l')
]

-- The columns that `finish_task` sets.
abbrev pub finished : TaskState → Option String → Option String → ℕ → TaskRow → TaskRow
finished state outcome_detail check_status now task = record task {
  state = state;
  outcome_detail = coalesce outcome_detail task.outcome_detail;
  check_status = coalesce check_status task.check_status;
  updated_at = now;
  workspace_last_activity_at =
      if same_state state TaskState.sleeping then task.workspace_last_activity_at else some now;
}

-- Where the task is missing, the KeyError comes after the commit: it is a result of the transaction.
pub finish_task : String → TaskState → Option String → Option String → ℕ → Tx (Result TaskRecord)
finish_task task_id state outcome_detail check_status now l =
    let l' = update_task task_id (finished state outcome_detail check_status now) l in
    let r = (do row ← fetched key_error (find_task task_id l'); ok (row_to_record row none)) in
    ok (r, l')

-- WHERE id = ? AND state = ?
abbrev pub has_id_in : String → TaskState → TaskRow → Bool
has_id_in task_id state row = has_id task_id row && in_state state row

pub queue_workspace_message : String → ℕ → Tx (Unit {0})
queue_workspace_message task_id now l = ok (
  tt,
  record l {
    tasks =
        update_where (has_id_in task_id TaskState.sleeping)
          (λ row. record row { state = TaskState.queued; updated_at = now }) l.tasks;
  },
)

-- `_utcnow_iso` is read twice.
pub touch_workspace : String → ℕ → ℕ → Tx (Unit {0})
touch_workspace task_id now activity l = ok (
  tt,
  update_task task_id
      (λ row. record row { updated_at = now; workspace_last_activity_at = some activity }) l,
)

abbrev pub is_pending_for : String → ReceiptRow → Bool
is_pending_for task_id r = r.task_id == task_id && is_accepted r.receipt.status

-- An accepted message keeps the workspace awake.
pub try_mark_sleeping : String → ℕ → Tx Bool
try_mark_sleeping task_id now l = elim (find_where (is_pending_for task_id) l.receipts) [
  | some pending ↦ ok (false, l)
  | none ↦ ok (
    nat_eq (count_where (has_id_in task_id TaskState.idle) l.tasks) 1,
    record l {
      tasks =
          update_where (has_id_in task_id TaskState.idle)
            (λ row. record row { state = TaskState.sleeping; updated_at = now }) l.tasks;
    },
  )
]

pub expire_workspace : String → Tx (Unit {0})
expire_workspace task_id l = ok (
  tt,
  record l {
    tasks =
        update_where (has_id_in task_id TaskState.sleeping)
          (λ row. record row { workspace_expired = true }) l.tasks;
  },
)
