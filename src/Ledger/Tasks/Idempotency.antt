-- ===== src/Ledger/Tasks/Idempotency.antt =====
-- `submit` of backend/gg/runtime/ledger.py: a task is admitted once for each owner and key.
use gg_agent_server.Prelude.{
  ℕ, suc, String, ◌≡◌, refl, ◌∙◌, ap, true, false, Option, none, some, eq_refl, Option-cases, inl,
  inr,
}
use gg_agent_server.Result.{ok}
use gg_agent_server.Table.{find_where, insert_row, insert_unique}
use gg_agent_server.Table.Find.{find-insert}
use gg_agent_server.Sdk.Tasks.{TaskRecord}
use gg_agent_server.Ledger.Rows.{Ledger, TaskRow, row_to_record}
use gg_agent_server.Ledger.Tasks.{
  in_scope, Submission, is_submitted, is_retired, submitted_row, submitted_record, same_task_key,
  admit, submit,
}

in_scope_refl : (o : Option String) → in_scope o o ≡ true
in_scope_refl none = refl
in_scope_refl (some a) = eq_refl a

module _ (s : Submission) (now : ℕ) (id : String) (l : Ledger) where
  row : TaskRow
  row = submitted_row s now id (suc l.task_seq)

  -- What `submit` comes to when it creates a task.
  submit-true :
      {r : TaskRecord} {l' : Ledger}
      → submit s now id l ≡ ok ((r, true), l')
      → (find_where (is_submitted s) l.tasks ≡ none) × (admit s now id l ≡ ok ((r, true), l'))
  unfolding submit
  submit-true h = elim (Option-cases (find_where (is_submitted s) l.tasks)) [
    | inr (existing, e) ↦ cc (rw (e, submit) at h)
    | inl e ↦ elim (Option-cases (find_where (is_retired s) l.idempotency)) [
      | inr (retired, f) ↦ cc (rw (e, submit, f) at h)
      | inl f ↦ (e, rw (e, submit, f) at h)
    ]
  ]

  admit-eq-ok :
      {r : TaskRecord} {l' : Ledger}
      → admit s now id l ≡ ok ((r, true), l')
      → (r ≡ submitted_record s now id (suc l.task_seq))
        × (l' ≡ record l { task_seq = suc l.task_seq; tasks = insert_row row l.tasks })
  unfolding admit row insert_unique
  admit-eq-ok h = elim (Option-cases (find_where (λ old. same_task_key old row) l.tasks)) [
    | inl e ↦ (cc (rw e at h), cc (rw e at h))
    | inr (clash, e) ↦ cc (rw e at h)
  ]

  -- The row that was admitted is found by its key.
  found_again :
      (again : Submission)
      → again.idempotency_key ≡ s.idempotency_key
      → again.owner_id ≡ s.owner_id
      → find_where (is_submitted s) l.tasks ≡ none
      → find_where (is_submitted again) (insert_row row l.tasks) ≡ some row
  unfolding row
  found_again again key owner fresh =
      find-insert (is_submitted again) row l.tasks
      ∙ rw (key, owner) (rw (fresh, eq_refl s.idempotency_key, in_scope_refl s.owner_id) refl)

-- Where `submit` has created a task, its record has the drawn identifier and the next number of the
-- ledger, and a `submit` that follows for the same owner and key, whatever else it asks for, returns
-- the task that was created, reports that it created none and leaves the ledger as it is.
pub submit-again :
    (s : Submission) (now : ℕ) (id : String) (l : Ledger) {r : TaskRecord} {l' : Ledger}
    (again : Submission) (later : ℕ) (drawn : String)
    → submit s now id l ≡ ok ((r, true), l')
    → again.idempotency_key ≡ s.idempotency_key
    → again.owner_id ≡ s.owner_id
    → (r.id ≡ id)
      × (r.seq ≡ suc l.task_seq)
      × (submit again later drawn l'
          ≡ ok ((row_to_record (submitted_row s now id (suc l.task_seq)) none, false), l'))
unfolding submit row
submit-again s now id l {r} {l'} again later drawn h key owner =
    let (fresh, admitted) = submit-true s now id l h in
    let (same, e) = admit-eq-ok s now id l admitted in
    (
      ap (λ r. r.id) same,
      ap (λ r. r.seq) same,
      rw (e) (rw (found_again s now id l again key owner fresh, submit) refl),
    )
