-- ===== src/Ledger/Supervisions/Replay.antt =====
-- `begin_supervision` of backend/gg/runtime/ledger.py: one execution of a task, under one start key.
use gg_agent_server.Prelude.{
  ℕ, ◌≡◌, refl, subst, Bool, true, false, none, some, eq_refl, arith, Option-cases, Bool-cases, inl,
  inr, if◌then◌else◌,
}
use gg_agent_server.Result.{ok, err, supervision_identity_error, >>=-eq-ok}
use gg_agent_server.Table.{find_where, insert_row, insert_unique}
use gg_agent_server.Table.Find.{find-insert_new}
use gg_agent_server.Table.Rows.{All-of_find_none, All-imp, find-none_of_All}
use gg_agent_server.Ledger.Rows.{SupervisionRecord, Ledger}
use gg_agent_server.Ledger.Sandboxes.{has_payload, require_payload}
use gg_agent_server.Ledger.Sandboxes.Soundness.{require_payload-eq-ok, require_payload-ok}
use gg_agent_server.Ledger.Supervisions.{
  supervises, get_supervision, Startup, is_bound, same_startup, started_row, insert_supervision,
  begin_supervision,
}

-- What `begin_supervision` leaves behind.
record IsBegun (s : Startup) (l : Ledger) (row : SupervisionRecord) : Type 0 where
  payload : has_payload s.task_id l ≡ true
  saved : find_where (is_bound s) l.supervisions ≡ some row
  same : same_startup s row ≡ true

-- Where neither the task nor the key is bound, the task has no row.
unsupervised :
    (s : Startup) (l : Ledger)
    → find_where (is_bound s) l.supervisions ≡ none
    → find_where (supervises s.task_id) l.supervisions ≡ none
unsupervised s l e = find-none_of_All (supervises s.task_id) l.supervisions (
    All-imp _ _ l.supervisions (λ r p. ground (arith, p))
      (All-of_find_none (is_bound s) l.supervisions e))

module _ (s : Startup) (now : ℕ) (l : Ledger) {row : SupervisionRecord} {created : Bool}
    {l' : Ledger} where
  inserted-IsBegun :
      has_payload s.task_id l ≡ true
      → find_where (is_bound s) l.supervisions ≡ none
      → insert_supervision s now l ≡ ok ((row, created), l')
      → IsBegun s l' row
  unfolding insert_supervision get_supervision insert_unique
  inserted-IsBegun payload fresh h =
      let new = started_row s now in
      let rows = insert_row new l.supervisions in
      let read : find_where (supervises s.task_id) rows ≡ some new =
        find-insert_new (supervises s.task_id) new l.supervisions (unsupervised s l fresh)
          (eq_refl s.task_id) in
      let saved : find_where (is_bound s) rows ≡ some new =
        find-insert_new (is_bound s) new l.supervisions fresh (rw (eq_refl s.task_id) refl) in
      let done = rw (insert_supervision, fresh, read) at h in
      let ledger_eq : record l { supervisions = rows } ≡ l' = cc done in
      let row_eq : new ≡ row = cc done in
      let same : same_startup s new ≡ true =
        rw (eq_refl s.task_id, eq_refl s.start_key, eq_refl s.execution_id, eq_refl s.task_branch)
          refl in
      subst (λ m. IsBegun s m row) ledger_eq
        (subst (λ r. IsBegun s (record l { supervisions = rows }) r) row_eq
          (record { payload = payload; saved = saved; same = same }))

  begin-IsBegun : begin_supervision s now l ≡ ok ((row, created), l') → IsBegun s l' row
  unfolding begin_supervision
  begin-IsBegun h =
      let (_, guard, h') = >>=-eq-ok (require_payload s.task_id l) _ h in
      let payload = require_payload-eq-ok s.task_id l guard in
      elim (Option-cases (find_where (is_bound s) l.supervisions)) [
        | inl e ↦ inserted-IsBegun payload e (rw e at h')
        | inr (existing, e) ↦ elim (Bool-cases (same_startup s existing)) [
          | inr f ↦ cc (rw (e, f) at h')
          | inl f ↦
              let done = rw (e, f) at h' in
              let ledger_eq : l ≡ l' = cc done in
              let row_eq : existing ≡ row = cc done in
              subst (λ m. IsBegun s m row) ledger_eq
                (subst (λ r. IsBegun s l r) row_eq
                  (record { payload = payload; saved = e; same = f }))
        ]
      ]

-- Once `begin_supervision` has returned a row, a later call for the same task and start key returns
-- the same row, reports that it created none and leaves the ledger as it is, where it is for the
-- execution and the branch of that row; for any others it raises a `SupervisionIdentityError`.
pub begin_supervision-again :
    (s : Startup) (now : ℕ) (l : Ledger) (again : Startup) (later : ℕ) {row : SupervisionRecord}
    {created : Bool} {l' : Ledger}
    → begin_supervision s now l ≡ ok ((row, created), l')
    → again.task_id ≡ s.task_id
    → again.start_key ≡ s.start_key
    → (same_startup s row ≡ true)
      × (begin_supervision again later l' ≡ (
          if same_startup again row then ok ((row, false), l') else err supervision_identity_error))
unfolding begin_supervision
begin_supervision-again s now l again later {row} {created} {l'} h task key =
    let begun = begin-IsBegun s now l h in
    let guard : require_payload again.task_id l' ≡ ok tt =
      rw task (require_payload-ok s.task_id l' begun.payload) in
    let bound : find_where (is_bound again) l'.supervisions ≡ some row =
      rw (task, key) (begun.saved) in
    (
      begun.same,
      elim (Bool-cases (same_startup again row)) [
        | inl e ↦ rw (e, begin_supervision, guard, bound, e) refl
        | inr e ↦ rw (e, begin_supervision, guard, bound, e) refl
      ],
    )
