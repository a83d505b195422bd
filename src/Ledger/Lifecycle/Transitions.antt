-- ===== src/Ledger/Lifecycle/Transitions.antt =====
-- The transitions of backend/gg/runtime/ledger.py that may not undo what a task has come to.
use gg_agent_server.Prelude.{
  ℕ, String, ◌≡◌, refl, ◌∙◌, ◌⊎◌, Bool, true, false, none, some, [], nat_eq, is_some, map_option,
  coalesce, arith, Option-cases, Bool-cases, inl, inr, if◌then◌else◌, All,
}
use gg_agent_server.Result.{ok}
use gg_agent_server.Table.{find_where, delete_where, update_where, count_where}
use gg_agent_server.Table.Find.{find_where_test, find-update, find-delete_self}
use gg_agent_server.Table.Rows.{All-update_none}
use gg_agent_server.Sdk.Tasks.{TaskState, same_state}
use gg_agent_server.Ledger.Rows.{Ledger, TaskRow, row_to_record}
use gg_agent_server.Ledger.Tasks.{find_task, update_task, has_id, in_state}
use gg_agent_server.Ledger.Reservations.{reserves, is_reserved, is_terminal}
use gg_agent_server.Ledger.Messages.{list_accepted_task_messages}
use gg_agent_server.Ledger.Messages.Accepted.{accepted-none}
use gg_agent_server.Ledger.Lifecycle.{
  is_settled_success, state_after_loss, mark_sandbox_lost, cancelled_before_allocation,
  cancel_queued_task, is_pending_for, has_id_in, try_mark_sleeping,
}

-- A task's own change is seen in its row.
find-update_task :
    (id : String) (change : TaskRow → TaskRow) (l : Ledger) {row : TaskRow}
    → ((r : TaskRow) → has_id id (change r) ≡ has_id id r)
    → find_task id l ≡ some row
    → find_task id (update_task id change l) ≡ some (change row)
find-update_task id change l {row} keep e =
    find-update (has_id id) (has_id id) change l.tasks keep
    ∙ rw (e, find_where_test (has_id id) l.tasks e) refl

-- What a task may come to when its sandbox is lost.
pub record IsLoss (old new : TaskRow) : Type 0 where
  pub ended : is_terminal new.state ≡ true
  pub cancelled : old.state ≡ TaskState.cancelled → new.state ≡ TaskState.cancelled
  pub completed : old.state ≡ TaskState.completed → new.state ≡ TaskState.completed
  pub settled :
      is_settled_success old.outcome_detail ≡ true → same_state new.state TaskState.failed ≡ false
  pub explained : is_some new.outcome_detail ≡ true

state_after_loss-IsLoss :
    (row new : TaskRow)
    → new.state ≡ state_after_loss row
    → is_some new.outcome_detail ≡ true
    → IsLoss row new
unfolding state_after_loss
state_after_loss-IsLoss row new e explained = record {
  ended = rw e (ground (arith));
  cancelled = λ h. e ∙ rw (state_after_loss, h) refl;
  completed = λ h. e ∙ rw (state_after_loss, h) refl;
  settled = λ h. rw e (ground (arith, h));
  explained = explained;
}

-- Where `mark_sandbox_lost` is called of a task that exists, it returns, the task holds no
-- reservation afterwards, and it has ended: a cancelled task stays cancelled, a completed one stays
-- completed, one whose outcome is a settled success is not failed, and an outcome is recorded.
pub mark_sandbox_lost-IsLoss :
    (id detail : String) (now : ℕ) (l : Ledger) {row : TaskRow}
    → find_task id l ≡ some row
    → (l' : Ledger) × (mark_sandbox_lost id detail now l ≡ ok (tt, l'))
      × (is_reserved l' id ≡ false)
      × (new : TaskRow) × (find_task id l' ≡ some new)
      × IsLoss row new
unfolding mark_sandbox_lost
mark_sandbox_lost-IsLoss id detail now l {row} e =
    let change : TaskRow → TaskRow = λ task. record task {
      state = state_after_loss row;
      outcome_detail = coalesce task.outcome_detail (some detail);
      sandbox_cleanup_status = some "confirmed_absent";
      updated_at = now;
    } in
    let released = record l { reservations = delete_where (reserves id) l.reservations } in
    (
      update_task id change released,
      rw (e, mark_sandbox_lost) refl,
      rw (find-delete_self (reserves id) (reserves id) l.reservations (λ r h. h)) refl,
      change row,
      find-update_task id change released (λ r. refl) e,
      state_after_loss-IsLoss row (change row) refl (ground arith),
    )

-- `cancel_queued_task` never raises. It cancels the task if it is queued and leaves it as it is
-- otherwise, and it returns the record of the task's row as it is afterwards.
pub cancel_queued_task-queued :
    (id : String) (now : ℕ) (l : Ledger)
    → (l' : Ledger) × (cancel_queued_task id now l
        ≡ ok (map_option (λ row. row_to_record row none) (find_task id l'), l'))
      × (find_task id l'
          ≡ map_option
              (λ row.
                if in_state TaskState.queued row then cancelled_before_allocation now row else row)
              (find_task id l))
unfolding cancel_queued_task
cancel_queued_task-queued id now l = elim (Option-cases (find_task id l)) [
  | inl e ↦ (l, rw (e, cancel_queued_task) refl, rw e refl)
  | inr (row, e) ↦ elim (Bool-cases (in_state TaskState.queued row)) [
    | inr f ↦ (l, rw (e, cancel_queued_task, f) refl, rw (e, f) refl)
    | inl f ↦
        let found = find-update_task id (cancelled_before_allocation now) l (λ r. refl) e in
        (
          update_task id (cancelled_before_allocation now) l,
          rw (e, cancel_queued_task, f, found) refl,
          rw (e, f) found,
        )
  ]
]

-- `try_mark_sleeping` never raises. Either it returns `False` and leaves the ledger as it is, or no
-- message to the task is listed as accepted and the task is not idle afterwards.
pub try_mark_sleeping-accepted :
    (id : String) (now : ℕ) (l : Ledger)
    → (try_mark_sleeping id now l ≡ ok (false, l))
      ⊎ ((list_accepted_task_messages id l ≡ [])
          × (slept : Bool) × (l' : Ledger) × (try_mark_sleeping id now l ≡ ok (slept, l'))
          × All (λ r. has_id_in id TaskState.idle r ≡ false) l'.tasks)
unfolding try_mark_sleeping
try_mark_sleeping-accepted id now l =
    let change : TaskRow → TaskRow =
      λ row. record row { state = TaskState.sleeping; updated_at = now } in
    elim (Option-cases (find_where (is_pending_for id) l.receipts)) [
      | inr (pending, e) ↦ inl (rw (e, try_mark_sleeping) refl)
      | inl e ↦ inr (
        accepted-none id l e,
        nat_eq (count_where (has_id_in id TaskState.idle) l.tasks) 1,
        record l { tasks = update_where (has_id_in id TaskState.idle) change l.tasks },
        rw (e, try_mark_sleeping) refl,
        All-update_none (has_id_in id TaskState.idle) change l.tasks (λ r. ground arith),
      )
    ]
