-- ===== src/Ledger/Lifecycle/Examples.antt =====
-- Examples of transitions.
use gg_agent_server.Prelude.{
  ◌≡◌, ◌⊎◌, refl, false, Bool, none, some, [], map_option, All, if◌then◌else◌,
}
use gg_agent_server.Result.{ok}
use gg_agent_server.Table.{find_where}
use gg_agent_server.Sdk.Tasks.{TaskState}
use gg_agent_server.Ledger.Rows.{TaskRow, Ledger, row_to_record}
use gg_agent_server.Ledger.Samples.{task_in, ledger_of, reserved_in}
use gg_agent_server.Ledger.Tasks.{find_task, in_state}
use gg_agent_server.Ledger.Reservations.{is_reserved}
use gg_agent_server.Ledger.Messages.{list_accepted_task_messages}
use gg_agent_server.Ledger.Lifecycle.{
  mark_sandbox_lost, cancelled_before_allocation, cancel_queued_task, try_mark_sleeping, has_id_in,
}
use gg_agent_server.Ledger.Lifecycle.Transitions.{
  IsLoss, mark_sandbox_lost-IsLoss, cancel_queued_task-queued, try_mark_sleeping-accepted,
}

is_running : find_task "a" (reserved_in TaskState.running) ≡ some (task_in TaskState.running "a" 1)
unfolding find_where
is_running = refl

mark_sandbox_lost-IsLoss_example :
    (l' : Ledger) × (mark_sandbox_lost "a" "sandbox_lost" 9 (reserved_in TaskState.running)
      ≡ ok (tt, l'))
    × (is_reserved l' "a" ≡ false)
    × (new : TaskRow) × (find_task "a" l' ≡ some new)
    × IsLoss (task_in TaskState.running "a" 1) new
mark_sandbox_lost-IsLoss_example =
    mark_sandbox_lost-IsLoss "a" "sandbox_lost" 9 (reserved_in TaskState.running) is_running

cancel_queued_task-queued_example :
    (l' : Ledger) × (cancel_queued_task "a" 9 (ledger_of TaskState.queued)
      ≡ ok (map_option (λ row. row_to_record row none) (find_task "a" l'), l'))
    × (find_task "a" l'
        ≡ map_option
            (λ row.
              if in_state TaskState.queued row then cancelled_before_allocation 9 row else row)
            (find_task "a" (ledger_of TaskState.queued)))
cancel_queued_task-queued_example = cancel_queued_task-queued "a" 9 (ledger_of TaskState.queued)

try_mark_sleeping-accepted_example :
    (try_mark_sleeping "a" 9 (ledger_of TaskState.idle) ≡ ok (false, ledger_of TaskState.idle))
    ⊎ ((list_accepted_task_messages "a" (ledger_of TaskState.idle) ≡ [])
        × (slept : Bool) × (l' : Ledger) × (try_mark_sleeping "a" 9 (ledger_of TaskState.idle)
            ≡ ok (slept, l'))
        × All (λ r. has_id_in "a" TaskState.idle r ≡ false) l'.tasks)
try_mark_sleeping-accepted_example = try_mark_sleeping-accepted "a" 9 (ledger_of TaskState.idle)
