-- ===== src/Storage/Retention/Examples.antt =====
-- An example of a retention pass.
use gg_agent_server.Prelude.{ℕ, ◌+◌, ◌≡◌, length}
use gg_agent_server.Result.{ok}
use gg_agent_server.Table.{select_where}
use gg_agent_server.Database.{Database}
use gg_agent_server.Ledger.Retention.{is_retirable}
use gg_agent_server.Ledger.Retention.Examples.{done, done-IsSound}
use gg_agent_server.Ledger.Soundness.{IsSound}
use gg_agent_server.Storage.Retention.{
  StorageLimits, run_retention_pass, run_retention_pass-IsSound,
}

abbrev limits : StorageLimits
limits = record { terminal_retention = 7; tombstone_retention = 30 }

abbrev before_pass : Database
before_pass = record { revision = 3; ledger = done }

run_retention_pass-IsSound_example :
    (purged : ℕ) × (db' : Database) × (run_retention_pass limits 100 101 before_pass
      ≡ (ok (length (select_where (is_retirable 93 done) done.tasks), purged), db'))
    × IsSound db'.ledger
    × (db'.ledger.reservations ≡ done.reservations)
    × (db'.revision ≡ 3 + 2)
run_retention_pass-IsSound_example =
    run_retention_pass-IsSound limits 100 101 before_pass done-IsSound
