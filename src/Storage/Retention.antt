-- ===== src/Storage/Retention.antt =====
-- `run_retention_pass` of backend/gg/runtime/storage.py: the two transactions of a retention pass.
mod Examples
use gg_agent_server.Prelude.{ℕ, ◌+◌, ◌-◌, ◌≡◌, refl, ◌∙◌, sym, ap, suc, arith, length}
use gg_agent_server.Result.{Result, ok, err}
use gg_agent_server.Table.{select_where}
use gg_agent_server.Database.{Database, write}
use gg_agent_server.Database.Transactions.{write_ok}
use gg_agent_server.Ledger.Rows.{Ledger}
use gg_agent_server.Ledger.Retention.{
  is_retirable, is_purgeable, expire_terminal_payloads, purge_expired_tombstones,
}
use gg_agent_server.Ledger.Retention.Expiry.{expire_terminal_payloads_lem}
use gg_agent_server.Ledger.Retention.Purge.{purge_expired_tombstones_lem}
use gg_agent_server.Ledger.Soundness.{IsSound}

-- The limits that the pass reads, as numbers of the unit of time.
pub record StorageLimits : Type 0 where
  pub terminal_retention : ℕ
  pub tombstone_retention : ℕ

-- `moment` is the time of the pass, and `now` the time that the first transaction reads itself.
unfoldable pub run_retention_pass : StorageLimits → ℕ → ℕ → Database → Result (ℕ × ℕ) × Database
run_retention_pass limits moment now db =
    let retention = limits.tombstone_retention in
    let (payloads, db') =
      write (expire_terminal_payloads (moment - limits.terminal_retention) retention now) db in
    let (tombstones, db'') = write (purge_expired_tombstones (moment - retention)) db' in
    elim payloads [
      | err e ↦ (err e, db')
      | ok expired ↦ elim tombstones [
        | err e ↦ (err e, db'')
        | ok purged ↦ (ok (expired, purged), db'')
      ]
    ]

-- From a sound ledger a retention pass never raises and leaves the ledger sound: it returns the
-- number of the tasks that it empties, changes no reservation and advances the revision by two.
pub run_retention_pass-IsSound :
    (limits : StorageLimits) (moment now : ℕ) (db : Database)
    → IsSound db.ledger
    → (purged : ℕ) × (db' : Database) × (run_retention_pass limits moment now db ≡ (
      ok (
        length (
            select_where
              (is_retirable (moment - limits.terminal_retention) db.ledger)
              db.ledger.tasks),
        purged,
      ),
      db',
    ))
      × IsSound db'.ledger
      × (db'.ledger.reservations ≡ db.ledger.reservations)
      × (db'.revision ≡ db.revision + 2)
unfolding run_retention_pass
run_retention_pass-IsSound limits moment now db h =
    let retention = limits.tombstone_retention in
    let before = moment - limits.terminal_retention in
    let (l₁, expired, sound₁, _, same₁) =
      expire_terminal_payloads_lem before retention now db.ledger h in
    let (l₂, purged, sound₂, _, _, same₂) =
      purge_expired_tombstones_lem (moment - retention) l₁ sound₁ in
    let first = write_ok (expire_terminal_payloads before retention now) db expired in
    let second =
      write_ok (purge_expired_tombstones (moment - retention))
        (record { revision = suc db.revision; ledger = l₁ }) purged in
    (
      length (select_where (is_purgeable (moment - retention) l₁) l₁.tombstones),
      record { revision = suc (suc db.revision); ledger = l₂ },
      rw (run_retention_pass, first, first, second, first, second) refl,
      sound₂,
      same₂ ∙ same₁,
      omega arith,
    )
