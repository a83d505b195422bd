-- ===== src/Ledger/Publications/Replay.antt =====
-- `begin_publication` of backend/gg/runtime/ledger.py: one publication of a task, of one identity.
use gg_agent_server.Prelude.{
  ℕ, String, ◌≡◌, refl, subst, Bool, true, false, Option, none, some, ◌&&◌, eq_refl, Option-cases,
  Bool-cases, inl, inr, if◌then◌else◌,
}
use gg_agent_server.Result.{ok, err, publication_identity_error, >>=-eq-ok}
use gg_agent_server.Table.{find_where, insert_row, insert_unique}
use gg_agent_server.Table.Find.{find-insert_new}
use gg_agent_server.Sdk.Publication.{PublicationRecord}
use gg_agent_server.Ledger.Rows.{Ledger}
use gg_agent_server.Ledger.Sandboxes.{has_payload, require_payload}
use gg_agent_server.Ledger.Sandboxes.Soundness.{require_payload-eq-ok, require_payload-ok}
use gg_agent_server.Ledger.Publications.{
  publishes, get_publication, PublicationIntent, same_publication, same_commit, published_row,
  insert_publication, begin_publication,
}

-- The identity of the publication, and a commit that is not another one.
abbrev pub is_same : PublicationIntent → PublicationRecord → Bool
is_same i r = same_publication i r && same_commit r.commit_sha i.commit_sha

same_commit_refl : (o : Option String) → same_commit o o ≡ true
same_commit_refl none = refl
same_commit_refl (some a) = eq_refl a

-- What `begin_publication` leaves behind.
record IsBegun (i : PublicationIntent) (l : Ledger) (row : PublicationRecord) : Type 0 where
  payload : has_payload i.task_id l ≡ true
  saved : get_publication i.task_id l ≡ some row
  same : is_same i row ≡ true

module _ (i : PublicationIntent) (now : ℕ) (l : Ledger) {row : PublicationRecord} {created : Bool}
    {l' : Ledger} where
  inserted-IsBegun :
      has_payload i.task_id l ≡ true
      → get_publication i.task_id l ≡ none
      → insert_publication i now l ≡ ok ((row, created), l')
      → IsBegun i l' row
  unfolding insert_publication get_publication insert_unique
  inserted-IsBegun payload fresh h =
      let new = published_row i now in
      let rows = insert_row new l.publications in
      let saved : find_where (publishes i.task_id) rows ≡ some new =
        find-insert_new (publishes i.task_id) new l.publications fresh (eq_refl i.task_id) in
      let done = rw (insert_publication, fresh, saved) at h in
      let ledger_eq : record l { publications = rows } ≡ l' = cc done in
      let row_eq : new ≡ row = cc done in
      let same : is_same i new ≡ true =
        rw
          (
            eq_refl i.repository,
            eq_refl i.task_branch,
            eq_refl i.base_ref,
            eq_refl i.task_marker,
            same_commit_refl i.commit_sha,
          )
          refl in
      subst (λ m. IsBegun i m row) ledger_eq
        (subst (λ r. IsBegun i (record l { publications = rows }) r) row_eq
          (record { payload = payload; saved = saved; same = same }))

  begin-IsBegun : begin_publication i now l ≡ ok ((row, created), l') → IsBegun i l' row
  unfolding begin_publication
  begin-IsBegun h =
      let (_, guard, h') = >>=-eq-ok (require_payload i.task_id l) _ h in
      let payload = require_payload-eq-ok i.task_id l guard in
      elim (Option-cases (get_publication i.task_id l)) [
        | inl e ↦ inserted-IsBegun payload e (rw e at h')
        | inr (existing, e) ↦ elim (Bool-cases (same_publication i existing)) [
          | inr f ↦ cc (rw (e, f) at h')
          | inl f ↦ elim (Bool-cases (same_commit existing.commit_sha i.commit_sha)) [
            | inr g ↦ cc (rw (e, f, g) at h')
            | inl g ↦
                let done = rw (e, f, g) at h' in
                let ledger_eq : l ≡ l' = cc done in
                let row_eq : existing ≡ row = cc done in
                subst (λ m. IsBegun i m row) ledger_eq
                  (subst (λ r. IsBegun i l r) row_eq
                    (record { payload = payload; saved = e; same = rw (f, g) refl }))
          ]
        ]
      ]

-- Once `begin_publication` has returned a record, a later call for the same task returns the same
-- record, reports that it created none and leaves the ledger as it is, where it is for the
-- repository, branches and marker of that record and not for another commit; for any others it
-- raises a `PublicationIdentityError`.
pub begin_publication-again :
    (i : PublicationIntent) (now : ℕ) (l : Ledger) (again : PublicationIntent) (later : ℕ)
    {row : PublicationRecord} {created : Bool} {l' : Ledger}
    → begin_publication i now l ≡ ok ((row, created), l')
    → again.task_id ≡ i.task_id
    → (is_same i row ≡ true)
      × (begin_publication again later l'
          ≡ (if is_same again row then ok ((row, false), l') else err publication_identity_error))
unfolding begin_publication
begin_publication-again i now l again later {row} {created} {l'} h task =
    let begun = begin-IsBegun i now l h in
    let guard = require_payload-ok i.task_id l' begun.payload in
    (
      begun.same,
      elim (Bool-cases (same_publication again row)) [
        | inr e ↦ rw (e, begin_publication, task, guard, begun.saved, e) refl
        | inl e ↦ elim (Bool-cases (same_commit row.commit_sha again.commit_sha)) [
          | inr f ↦ rw (e, f, begin_publication, task, guard, begun.saved, e, f) refl
          | inl f ↦ rw (e, f, begin_publication, task, guard, begun.saved, e, f) refl
        ]
      ],
    )
