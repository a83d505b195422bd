-- ===== src/Database.antt =====
-- `SQLiteDB.write` of backend/gg/runtime/sqlite_db.py: a transaction joins the shared revision or is
-- rolled back.
pub mod Transactions
pub mod Polling
mod Examples
use gg_agent_server.Prelude.{ℕ, suc, nat_eq, if◌then◌else◌}
use gg_agent_server.Result.{Result, ok, err}
use gg_agent_server.Ledger.Rows.{Ledger}
use gg_agent_server.Ledger.Tasks.{Tx}

-- What the file holds: the row of `runtime_metadata`, and the tables of the ledger.
pub record Database : Type 0 where
  pub revision : ℕ
  pub ledger : Ledger

module _ {A : Type 0} where
  -- COMMIT after the revision is advanced; ROLLBACK where the body raises.
  unfoldable pub write : Tx A → Database → Result A × Database
  write body db = elim (body db.ledger) [
    | ok (a, l) ↦ (ok a, record { revision = suc db.revision; ledger = l })
    | err e ↦ (err e, db)
  ]

  -- `skip_unchanged`: the body also reports `total_changes`, and none leaves the revision alone.
  unfoldable pub write_skip_unchanged :
      (Ledger → Result (A × Ledger × ℕ)) → Database → Result A × Database
  write_skip_unchanged body db = elim (body db.ledger) [
    | ok (a, l, total_changes) ↦ (
      ok a,
      record {
        revision = if nat_eq total_changes 0 then db.revision else suc db.revision;
        ledger = l;
      },
    )
    | err e ↦ (err e, db)
  ]
