-- ===== src/Database/Polling.antt =====
-- The write of `update_sandbox_creation` with `skip_unchanged`: polling the provider again does not
-- advance the revision.
use gg_agent_server.Prelude.{ℕ, String, ◌≡◌, refl, ap, subst, Option, inl, inr}
use gg_agent_server.Result.{Result, Result-cases, ok, err}
use gg_agent_server.Ledger.Rows.{SandboxProviderState, SandboxCreationRecord, Ledger}
use gg_agent_server.Ledger.Sandboxes.{update_sandbox_creation}
use gg_agent_server.Ledger.Sandboxes.Unchanged.{update_sandbox_creation-again}
use gg_agent_server.Database.{Database, write_skip_unchanged}

abbrev pub poll :
    String
    → Option String
    → SandboxProviderState
    → Option String
    → ℕ
    → Database
    → Result SandboxCreationRecord × Database
poll id provider_id state detail now db =
    write_skip_unchanged (update_sandbox_creation id provider_id state detail now) db

write_skip_unchanged_none :
    {A : Type 0} (body : Ledger → Result (A × Ledger × ℕ)) (db : Database) {a : A}
    → body db.ledger ≡ ok (a, db.ledger, 0)
    → write_skip_unchanged body db ≡ (ok a, db)
unfolding write_skip_unchanged
write_skip_unchanged_none body db h = rw (h, write_skip_unchanged) refl

-- Once the state that the provider reports has been written, the same report at a later time returns
-- the same row and leaves the whole database as it is, its revision included.
pub poll-again :
    (id : String) (provider_id : Option String) (state : SandboxProviderState)
    (detail : Option String) (now later : ℕ) (db : Database) {row : SandboxCreationRecord}
    {db' : Database}
    → poll id provider_id state detail now db ≡ (ok row, db')
    → poll id provider_id state detail later db' ≡ (ok row, db')
unfolding write_skip_unchanged
poll-again id provider_id state detail now later db {row} {db'} h =
    elim (Result-cases (update_sandbox_creation id provider_id state detail now db.ledger)) [
      | inr (e, f) ↦
          let failed = rw (write_skip_unchanged, f) at h in
          let never : err e ≡ ok row = ap (λ p. p.0) failed in cc never
      | inl ((found, l', changes), f) ↦
          let done = rw (write_skip_unchanged, f) at h in
          let found_eq : ok found ≡ ok row = ap (λ p. p.0) done in
          let row_eq : found ≡ row = cc found_eq in
          let ledger_eq : l' ≡ db'.ledger = ap (λ p. p.1.ledger) done in
          let again =
            update_sandbox_creation-again id provider_id state detail now later db.ledger f in
          let same =
            subst
              (λ m. update_sandbox_creation id provider_id state detail later m ≡ ok (found, m, 0))
              ledger_eq again in
          subst
            (λ r.
              write_skip_unchanged (update_sandbox_creation id provider_id state detail later) db'
              ≡ (ok r, db'))
            row_eq
            (write_skip_unchanged_none (update_sandbox_creation id provider_id state detail later)
              db' same)
    ]
