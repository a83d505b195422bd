-- ===== src/Ledger/Reservations/Examples.antt =====
-- Examples of reservations.
use gg_agent_server.Prelude.{
  ◌≤◌, ◌≡◌, refl, true, none, some, [], ◌∷◌, length, arith, All, map_option,
}
use gg_agent_server.Result.{ok}
use gg_agent_server.Table.{
  find_where, select_where, order_by, insert_unique, update_where, count_where,
}
use gg_agent_server.Sdk.Tasks.{TaskState}
use gg_agent_server.Ledger.Rows.{
  TaskRow, ReservationPhase, ReservationRecord, Ledger, row_to_record,
}
use gg_agent_server.Ledger.Samples.{two_queued, task_in, reserved_in}
use gg_agent_server.Ledger.Tasks.{find_task}
use gg_agent_server.Ledger.Reservations.{
  is_reserved, is_waiting, next_waiting, new_reservation, claim, claim_next, reserve_next,
  get_reservation, task_state_is_terminal, publish_state, update_reservation,
}
use gg_agent_server.Ledger.Soundness.{IsSound}
use gg_agent_server.Ledger.Reservations.Capacity.{
  starting_row, reserve_next-first, reserve_next-capacity,
}
use gg_agent_server.Ledger.Reservations.Terminal.{published, update_reservation-terminal}

abbrev starting_task : TaskRow
starting_task = record (task_in TaskState.queued "a" 1) {
  state = TaskState.starting;
  updated_at = 5;
}

abbrev claimed : Ledger
claimed = record two_queued {
  tasks = task_in TaskState.queued "b" 2 ∷ starting_task ∷ [];
  reservations = new_reservation "a" 5 ∷ [];
}

claims : reserve_next 3 5 two_queued ≡ ok (some (row_to_record starting_task none), claimed)
unfolding reserve_next claim_next next_waiting claim find_where select_where order_by insert_unique
    update_where
claims = refl

two_queued-IsSound : IsSound two_queued
unfolding find_where
two_queued-IsSound = record {
  tasks_distinct = ((refl, tt), (tt, tt));
  task_seqs = (omega arith, (omega arith, tt));
  retired_seqs = tt;
  unexpired = (λ h. (tt, tt), (λ h. (tt, tt), tt));
  expired = (λ h. cc h, (λ h. cc h, tt));
  reservations_distinct = tt;
  reserved = tt;
  creations = tt;
  supervisions = tt;
  publications = tt;
  receipts = tt;
  copies = tt;
  results = tt;
}

reserve_next-first_example :
    (row : TaskRow) × (find_task row.id two_queued ≡ some row)
    × (row_to_record starting_task none ≡ row_to_record (starting_row 5 row) none)
    × (is_reserved claimed row.id ≡ true)
    × (is_waiting two_queued row ≡ true)
    × All (λ other. is_waiting two_queued other ≡ true → row.seq ≤ other.seq) two_queued.tasks
reserve_next-first_example = reserve_next-first 3 5 two_queued two_queued-IsSound claims

reserve_next-capacity_example : (1 ≤ 3) × (3 ≤ 10) × (length claimed.reservations ≤ 3)
reserve_next-capacity_example = reserve_next-capacity 3 5 two_queued (omega arith) claims

abbrev released : ReservationRecord
released = record {
  task_id = "a";
  phase = ReservationPhase.finalizing;
  condition = some "late";
  reserved_at = 1;
  updated_at = 9;
}

abbrev updated : Ledger
updated = record (reserved_in TaskState.cancelled) { reservations = released ∷ [] }

updates :
    update_reservation "a" ReservationPhase.finalizing
      (some "late")
      (some TaskState.running)
      9
      (reserved_in TaskState.cancelled)
    ≡ ok (released, updated)
unfolding update_reservation publish_state task_state_is_terminal get_reservation find_where
    update_where count_where
updates = refl

update_reservation-terminal_example :
    (find_task "a" updated
      ≡ map_option
          (published (some TaskState.running) 9)
          (find_task "a" (reserved_in TaskState.cancelled)))
    × (get_reservation "a" updated ≡ some released)
    × (released.phase ≡ ReservationPhase.finalizing)
    × (released.condition ≡ some "late")
update_reservation-terminal_example =
    update_reservation-terminal "a" ReservationPhase.finalizing (some "late")
      (some TaskState.running) 9 (reserved_in TaskState.cancelled) updates
