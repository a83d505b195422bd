-- ===== src/Table/Find.antt =====
-- What `find_where` sees after an insertion, an update and a deletion.
use gg_agent_server.Prelude.{
  ◌≡◌, refl, Bool, true, false, none, some, List, [], ◌∷◌, arith, if◌then◌else◌, coalesce,
  map_option, All, subst, inl, inr, Bool-cases, Option-cases, sym, ◌∙◌,
}
use gg_agent_server.Table.{find_where, delete_where, update_where, insert_row}

module _ {ℓ} {R : Type ℓ} where
  -- What is found passes the test.
  pub find_where_test :
      (test : R → Bool) (rows : List R) {r : R} → find_where test rows ≡ some r → test r ≡ true
  unfolding find_where
  find_where_test test [] h = cc
  find_where_test test (s ∷ rows) {r} h = ground (arith, find_where_test test rows {r = r})

  pub find_where_All {κ} :
      (P : R → Type κ) (test : R → Bool) (rows : List R) {r : R}
      → All P rows
      → find_where test rows ≡ some r
      → P r
  unfolding find_where
  find_where_All P test [] a h = cc
  find_where_All P test (s ∷ rows) {r} a h = elim (Bool-cases (test s)) [
    | inl e ↦
        let found : some s ≡ some r = rw (e, find_where) at h in
        let same : s ≡ r = cc found in subst P same a.0
    | inr e ↦ find_where_All P test rows a.1 (rw (e, find_where) at h)
  ]

  -- A change that the test does not see is made in place.
  pub find-update :
      (test seen : R → Bool) (change : R → R) (rows : List R)
      → ((r : R) → seen (change r) ≡ seen r)
      → find_where seen (update_where test change rows)
        ≡ map_option (λ r. if test r then change r else r) (find_where seen rows)
  unfolding find_where update_where
  find-update test seen change [] keep = refl
  find-update test seen change (r ∷ rows) keep =
      ground (arith, keep r, find-update test seen change rows keep)

  pub find-insert :
      (seen : R → Bool) (r : R) (rows : List R)
      → find_where seen (insert_row r rows)
        ≡ coalesce (find_where seen rows) (if seen r then some r else none)
  unfolding find_where
  find-insert seen r [] = refl
  find-insert seen r (s ∷ rows) = ground (arith, find-insert seen r rows)

  -- A deletion of other rows is not seen.
  pub find-delete_other :
      (test seen : R → Bool) (rows : List R)
      → ((r : R) → seen r ≡ true → test r ≡ false)
      → find_where seen (delete_where test rows) ≡ find_where seen rows
  unfolding find_where delete_where
  find-delete_other test seen [] other = refl
  find-delete_other test seen (r ∷ rows) other =
      ground (arith, other r, find-delete_other test seen rows other)

  -- Rows that are deleted are gone.
  pub find-delete_self :
      (test seen : R → Bool) (rows : List R)
      → ((r : R) → seen r ≡ true → test r ≡ true)
      → find_where seen (delete_where test rows) ≡ none
  unfolding find_where delete_where
  find-delete_self test seen [] all = refl
  find-delete_self test seen (r ∷ rows) all =
      ground (arith, all r, find-delete_self test seen rows all)

  -- The row that is found once it is changed.
  pub find-updated :
      (test : R → Bool) (change : R → R) (rows : List R) {r : R}
      → ((r : R) → test (change r) ≡ test r)
      → find_where test (update_where test change rows) ≡ some r
      → (old : R) × (find_where test rows ≡ some old) × (r ≡ change old)
  find-updated test change rows {r} keep e =
      let updated = sym (find-update test test change rows keep) ∙ e in
      elim (Option-cases (find_where test rows)) [
        | inl f ↦ cc (rw f at updated)
        | inr (old, f) ↦
            let same : some (change old) ≡ some r =
              rw (f, find_where_test test rows f) at updated in
            let same_row : change old ≡ r = cc same in (old, f, sym same_row)
      ]

  -- A row that is inserted, and that none before it hides.
  pub find-insert_new :
      (seen : R → Bool) (r : R) (rows : List R)
      → find_where seen rows ≡ none
      → seen r ≡ true
      → find_where seen (insert_row r rows) ≡ some r
  find-insert_new seen r rows fresh e = rw (find-insert seen r rows, fresh, e) refl
