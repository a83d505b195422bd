-- ===== src/Ledger/Lifecycle/Soundness.antt =====
-- The transitions of a task keep the ledger sound.
use gg_agent_server.Prelude.{ℕ, String, Option, Option-cases, inl, inr}
use gg_agent_server.Result.{after_ok, returned}
use gg_agent_server.Table.{find_where}
use gg_agent_server.Sdk.Tasks.{TaskState}
use gg_agent_server.Ledger.Tasks.{find_task}
use gg_agent_server.Ledger.Lifecycle.{
  cancelled_before_allocation, finished, mark_sandbox_lost, is_settled, settle_successful_tasks,
  cancel_queued_task, finish_task, has_id_in, queue_workspace_message, touch_workspace,
  is_pending_for, try_mark_sleeping, expire_workspace,
}
use gg_agent_server.Ledger.Reservations.Soundness.{delete_reservation-IsSound}
use gg_agent_server.Ledger.Soundness.{KeepsSound}
use gg_agent_server.Ledger.Soundness.Updates.{keep_all, changed-IsSound, update_task-IsSound}

pub mark_sandbox_lost-IsSound :
    (id detail : String) (now : ℕ) → KeepsSound (mark_sandbox_lost id detail now)
unfolding mark_sandbox_lost
mark_sandbox_lost-IsSound id detail now l h = elim (Option-cases (find_task id l)) [
  | inl e ↦ rw (e, mark_sandbox_lost) (returned h)
  | inr (row, e) ↦
      rw (e, mark_sandbox_lost)
        (returned (update_task-IsSound id _ _ keep_all (delete_reservation-IsSound id l h)))
]

pub settle_successful_tasks-IsSound : (now : ℕ) → KeepsSound (settle_successful_tasks now)
unfolding settle_successful_tasks
settle_successful_tasks-IsSound now l h = returned (changed-IsSound is_settled _ keep_all l h)

pub cancel_queued_task-IsSound : (id : String) (now : ℕ) → KeepsSound (cancel_queued_task id now)
unfolding cancel_queued_task
cancel_queued_task-IsSound id now l h = elim (Option-cases (find_task id l)) [
  | inl e ↦ rw (e, cancel_queued_task) (returned h)
  | inr (row, e) ↦
      let sound = update_task-IsSound id (cancelled_before_allocation now) l keep_all h in
      rw (e, cancel_queued_task) (search (after_ok, h, sound))
]

pub finish_task-IsSound :
    (id : String) (state : TaskState) (detail check : Option String) (now : ℕ)
    → KeepsSound (finish_task id state detail check now)
unfolding finish_task
finish_task-IsSound id state detail check now l h =
    returned (update_task-IsSound id (finished state detail check now) l keep_all h)

pub queue_workspace_message-IsSound :
    (id : String) (now : ℕ) → KeepsSound (queue_workspace_message id now)
unfolding queue_workspace_message
queue_workspace_message-IsSound id now l h =
    returned (changed-IsSound (has_id_in id TaskState.sleeping) _ keep_all l h)

pub touch_workspace-IsSound :
    (id : String) (now activity : ℕ) → KeepsSound (touch_workspace id now activity)
unfolding touch_workspace
touch_workspace-IsSound id now activity l h = returned (update_task-IsSound id _ l keep_all h)

pub try_mark_sleeping-IsSound : (id : String) (now : ℕ) → KeepsSound (try_mark_sleeping id now)
unfolding try_mark_sleeping
try_mark_sleeping-IsSound id now l h =
    elim (Option-cases (find_where (is_pending_for id) l.receipts)) [
      | inl e ↦
          rw (e, try_mark_sleeping)
            (returned (changed-IsSound (has_id_in id TaskState.idle) _ keep_all l h))
      | inr (row, e) ↦ rw (e, try_mark_sleeping) (returned h)
    ]

pub expire_workspace-IsSound : (id : String) → KeepsSound (expire_workspace id)
unfolding expire_workspace
expire_workspace-IsSound id l h =
    returned (changed-IsSound (has_id_in id TaskState.sleeping) _ keep_all l h)
