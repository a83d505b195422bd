-- ===== src/Ledger/Retention/Examples.antt =====
-- Examples of expiry and purge.
use gg_agent_server.Prelude.{String, ◌≡◌, true, arith, length, map_option, if◌then◌else◌}
use gg_agent_server.Result.{ok}
use gg_agent_server.Table.{select_where}
use gg_agent_server.Sdk.Tasks.{TaskState}
use gg_agent_server.Ledger.Rows.{Ledger}
use gg_agent_server.Ledger.Samples.{ledger_of}
use gg_agent_server.Ledger.Tasks.{find_task}
use gg_agent_server.Ledger.Sandboxes.{has_payload}
use gg_agent_server.Ledger.Soundness.{IsSound}
use gg_agent_server.Ledger.Retention.{
  is_retirable, emptied, expire_terminal_payloads, is_purgeable, purge_expired_tombstones,
}
use gg_agent_server.Ledger.Retention.Expiry.{expire_terminal_payloads_lem}
use gg_agent_server.Ledger.Retention.Purge.{purge_expired_tombstones_lem}

abbrev pub done : Ledger
done = ledger_of TaskState.completed

pub done-IsSound : IsSound done
done-IsSound = record {
  tasks_distinct = (tt, tt);
  task_seqs = (omega arith, tt);
  retired_seqs = tt;
  unexpired = (λ h. (tt, tt), tt);
  expired = (λ h. cc, tt);
  reservations_distinct = tt;
  reserved = tt;
  creations = tt;
  supervisions = tt;
  publications = tt;
  receipts = tt;
  copies = tt;
  results = tt;
}

expire_terminal_payloads_lem_example :
    (l' : Ledger) × (expire_terminal_payloads 50 100 60 done
      ≡ ok (length (select_where (is_retirable 50 done) done.tasks), l'))
    × IsSound l'
    × ((id : String)
        → find_task id l'
          ≡ map_option (λ r. if is_retirable 50 done r then emptied r else r) (find_task id done))
    × (l'.reservations ≡ done.reservations)
expire_terminal_payloads_lem_example = expire_terminal_payloads_lem 50 100 60 done done-IsSound

purge_expired_tombstones_lem_example :
    (l' : Ledger) × (purge_expired_tombstones 200 done
      ≡ ok (length (select_where (is_purgeable 200 done) done.tombstones), l'))
    × IsSound l'
    × ((id : String) → has_payload id done ≡ true → find_task id l' ≡ find_task id done)
    × (l'.idempotency ≡ done.idempotency)
    × (l'.reservations ≡ done.reservations)
purge_expired_tombstones_lem_example = purge_expired_tombstones_lem 200 done done-IsSound
