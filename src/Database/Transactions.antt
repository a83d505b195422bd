-- ===== src/Database/Transactions.antt =====
-- `SQLiteDB.write` of backend/gg/runtime/sqlite_db.py, where the body returns.
use gg_agent_server.Prelude.{suc, ◌≡◌, refl}
use gg_agent_server.Result.{ok}
use gg_agent_server.Ledger.Rows.{Ledger}
use gg_agent_server.Ledger.Tasks.{Tx}
use gg_agent_server.Database.{Database, write}

pub write_ok :
    {A : Type 0} (body : Tx A) (db : Database) {a : A} {l : Ledger}
    → body db.ledger ≡ ok (a, l)
    → write body db ≡ (ok a, record { revision = suc db.revision; ledger = l })
unfolding write
write_ok body db h = rw (h, write) refl
