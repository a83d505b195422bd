-- ===== src/Ledger/Sandboxes/Replay.antt =====
-- `begin_sandbox_creation` of backend/gg/runtime/ledger.py: an intent is recorded once, before the
-- provider is asked for the sandbox.
use gg_agent_server.Prelude.{
  ℕ, ◌≡◌, refl, subst, Bool, true, false, none, some, eq_refl, Option-cases, Bool-cases, inl, inr,
  if◌then◌else◌,
}
use gg_agent_server.Result.{ok, err, runtime_error, >>=-eq-ok}
use gg_agent_server.Table.{find_where, insert_row, insert_unique}
use gg_agent_server.Table.Find.{find-insert_new}
use gg_agent_server.Ledger.Rows.{SandboxCreationRecord, Ledger}
use gg_agent_server.Ledger.Sandboxes.{
  has_payload, require_payload, creates, get_sandbox_creation, SandboxIntent, same_intent,
  intended_row, clashes_creation, insert_creation, begin_sandbox_creation,
}
use gg_agent_server.Ledger.Sandboxes.Soundness.{require_payload-eq-ok}

-- What `begin_sandbox_creation` leaves behind.
record IsBegun (i : SandboxIntent) (l : Ledger) (row : SandboxCreationRecord) : Type 0 where
  payload : has_payload i.task_id l ≡ true
  saved : get_sandbox_creation i.task_id l ≡ some row
  same : same_intent i row ≡ true

module _ (i : SandboxIntent) (now : ℕ) (l : Ledger) {row : SandboxCreationRecord} {created : Bool}
    {l' : Ledger} where
  inserted-IsBegun :
      has_payload i.task_id l ≡ true
      → get_sandbox_creation i.task_id l ≡ none
      → insert_creation i now l ≡ ok ((row, created), l')
      → IsBegun i l' row
  unfolding insert_creation get_sandbox_creation insert_unique
  inserted-IsBegun payload fresh h =
      elim (Option-cases (find_where (clashes_creation i) l.sandbox_creations)) [
        | inr (clash, e) ↦ cc (rw e at h)
        | inl e ↦
            let new = intended_row i now in
            let rows = insert_row new l.sandbox_creations in
            let saved : find_where (creates i.task_id) rows ≡ some new =
              find-insert_new (creates i.task_id) new l.sandbox_creations fresh
                (eq_refl i.task_id) in
            let done = rw (e, insert_creation, saved) at h in
            let ledger_eq : record l { sandbox_creations = rows } ≡ l' = cc done in
            let row_eq : new ≡ row = cc done in
            let same : same_intent i new ≡ true =
              rw
                (
                  eq_refl i.deployment,
                  eq_refl i.sandbox_name,
                  eq_refl i.tags_json,
                  eq_refl i.session_api_key,
                )
                refl in
            subst (λ m. IsBegun i m row) ledger_eq
              (subst (λ r. IsBegun i (record l { sandbox_creations = rows }) r) row_eq
                (record { payload = payload; saved = saved; same = same }))
      ]

  begin-IsBegun : begin_sandbox_creation i now l ≡ ok ((row, created), l') → IsBegun i l' row
  unfolding begin_sandbox_creation
  begin-IsBegun h =
      let (_, guard, h') = >>=-eq-ok (require_payload i.task_id l) _ h in
      let payload = require_payload-eq-ok i.task_id l guard in
      elim (Option-cases (get_sandbox_creation i.task_id l)) [
        | inl e ↦ inserted-IsBegun payload e (rw e at h')
        | inr (existing, e) ↦ elim (Bool-cases (same_intent i existing)) [
          | inr f ↦ cc (rw (e, f) at h')
          | inl f ↦
              let done = rw (e, f) at h' in
              let ledger_eq : l ≡ l' = cc done in
              let row_eq : existing ≡ row = cc done in
              subst (λ m. IsBegun i m row) ledger_eq
                (subst (λ r. IsBegun i l r) row_eq
                  (record { payload = payload; saved = e; same = f }))
        ]
      ]

-- Once `begin_sandbox_creation` has returned a row, a later call for the same task returns the same
-- row, reports that it created none and leaves the ledger as it is, where it is for the deployment,
-- the name, the tags and the key of that row; for any others it raises a `RuntimeError`.
pub begin_sandbox_creation-again :
    (i : SandboxIntent) (now : ℕ) (l : Ledger) (again : SandboxIntent) (later : ℕ)
    {row : SandboxCreationRecord} {created : Bool} {l' : Ledger}
    → begin_sandbox_creation i now l ≡ ok ((row, created), l')
    → again.task_id ≡ i.task_id
    → (same_intent i row ≡ true)
      × (begin_sandbox_creation again later l'
          ≡ (if same_intent again row then ok ((row, false), l') else err runtime_error))
unfolding begin_sandbox_creation require_payload
begin_sandbox_creation-again i now l again later {row} {created} {l'} h task =
    let begun = begin-IsBegun i now l h in
    (
      begun.same,
      elim (Bool-cases (same_intent again row)) [
        | inl e ↦
            rw (e, begin_sandbox_creation, require_payload, task, begun.payload, begun.saved, e)
              refl
        | inr e ↦
            rw (e, begin_sandbox_creation, require_payload, task, begun.payload, begun.saved, e)
              refl
      ],
    )
