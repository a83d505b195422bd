-- ===== src/Table/Rows.antt =====
-- Properties of all rows, and of all pairs of rows.
use gg_agent_server.Prelude.{
  none, ◌∙◌, ap, suc, ◌≤◌, ◌≡◌, refl, Bool, true, false, not, List, [], ◌∷◌, arith, length, All,
  inl, inr, Bool-cases, Option-cases,
}
use gg_agent_server.Result.{ok}
use gg_agent_server.Table.{
  find_where, select_where, delete_where, update_where, insert_row, insert_unique,
}

module _ {ℓ} {R : Type ℓ} where
  pub length-insert : (r : R) (rows : List R) → length (insert_row r rows) ≡ suc (length rows)
  length-insert r [] = refl
  length-insert r (s ∷ rows) = omega (arith, length-insert r rows)

  pub length-delete-le :
      (test : R → Bool) (rows : List R) → length (delete_where test rows) ≤ length rows
  unfolding delete_where
  length-delete-le test [] = omega arith
  length-delete-le test (r ∷ rows) = ground (arith, length-delete-le test rows)

  pub length-update :
      (test : R → Bool) (change : R → R) (rows : List R)
      → length (update_where test change rows) ≡ length rows
  unfolding update_where
  length-update test change [] = refl
  length-update test change (r ∷ rows) = omega (arith, length-update test change rows)

  module _ {κ} (P : R → Type κ) where
    pub All-insert : (r : R) (rows : List R) → P r → All P rows → All P (insert_row r rows)
    All-insert r [] p a = (p, tt)
    All-insert r (s ∷ rows) p a = (a.0, All-insert r rows p a.1)

    pub All-select : (test : R → Bool) (rows : List R) → All P rows → All P (select_where test rows)
    unfolding select_where
    All-select test [] a = tt
    All-select test (r ∷ rows) a = elim (Bool-cases (test r)) [
      | inl e ↦ rw e (a.0, All-select test rows a.1)
      | inr e ↦ rw e (All-select test rows a.1)
    ]

    pub All-delete : (test : R → Bool) (rows : List R) → All P rows → All P (delete_where test rows)
    unfolding delete_where
    All-delete test rows a = All-select (λ r. not (test r)) rows a

    pub All-update :
        (test : R → Bool) (change : R → R) (rows : List R)
        → ((r : R) → test r ≡ true → P r → P (change r))
        → All P rows
        → All P (update_where test change rows)
    unfolding update_where
    All-update test change [] keep a = tt
    All-update test change (r ∷ rows) keep a = elim (Bool-cases (test r)) [
      | inl e ↦ rw e (keep r e a.0, All-update test change rows keep a.1)
      | inr e ↦ rw e (a.0, All-update test change rows keep a.1)
    ]

  pub All-imp {κ μ} :
      (P : R → Type κ) (Q : R → Type μ) (rows : List R)
      → ((r : R) → P r → Q r)
      → All P rows
      → All Q rows
  All-imp P Q [] f a = tt
  All-imp P Q (r ∷ rows) f a = (f r a.0, All-imp P Q rows f a.1)

  pub All-both {κ μ} :
      (P : R → Type κ) (Q : R → Type μ) (rows : List R)
      → All P rows
      → All Q rows
      → All (λ r. P r × Q r) rows
  All-both P Q [] a b = tt
  All-both P Q (r ∷ rows) a b = ((a.0, b.0), All-both P Q rows a.1 b.1)

  -- What holds of the rows that are changed, and of those that are not.
  pub All-update_cases {κ μ} :
      (P : R → Type κ) (Q : R → Type μ) (test : R → Bool) (change : R → R) (rows : List R)
      → ((r : R) → test r ≡ true → P r → Q (change r))
      → ((r : R) → test r ≡ false → P r → Q r)
      → All P rows
      → All Q (update_where test change rows)
  unfolding update_where
  All-update_cases P Q test change [] hit miss a = tt
  All-update_cases P Q test change (r ∷ rows) hit miss a = elim (Bool-cases (test r)) [
    | inl e ↦ rw e (hit r e a.0, All-update_cases P Q test change rows hit miss a.1)
    | inr e ↦ rw e (miss r e a.0, All-update_cases P Q test change rows hit miss a.1)
  ]

  -- No row that passes the test is left.
  pub All-delete_test :
      (test : R → Bool) (rows : List R) → All (λ r. test r ≡ false) (delete_where test rows)
  unfolding delete_where
  All-delete_test test [] = tt
  All-delete_test test (r ∷ rows) = elim (Bool-cases (test r)) [
    | inl e ↦ rw e (All-delete_test test rows)
    | inr e ↦ rw e (e, All-delete_test test rows)
  ]

  -- A deletion that fits no row changes nothing.
  pub delete-none :
      (test : R → Bool) (rows : List R)
      → All (λ r. test r ≡ false) rows
      → delete_where test rows ≡ rows
  unfolding delete_where
  delete-none test [] a = refl
  delete-none test (r ∷ rows) a = rw (a.0) (ap (λ rs. r ∷ rs) (delete-none test rows a.1))

  -- All selected rows pass the test.
  pub All-select_test :
      (test : R → Bool) (rows : List R) → All (λ r. test r ≡ true) (select_where test rows)
  unfolding select_where
  All-select_test test [] = tt
  All-select_test test (r ∷ rows) = elim (Bool-cases (test r)) [
    | inl e ↦ rw e (e, All-select_test test rows)
    | inr e ↦ rw e (All-select_test test rows)
  ]

  -- No row passes the test any more.
  pub All-update_none :
      (test : R → Bool) (change : R → R) (rows : List R)
      → ((r : R) → test (change r) ≡ false)
      → All (λ r. test r ≡ false) (update_where test change rows)
  unfolding update_where
  All-update_none test change [] gone = tt
  All-update_none test change (r ∷ rows) gone = elim (Bool-cases (test r)) [
    | inl e ↦ (rw e (gone r), All-update_none test change rows gone)
    | inr e ↦ (rw (e, e) refl, All-update_none test change rows gone)
  ]

  -- Nothing found is a test that fails at every row.
  pub All-of_find_none :
      (test : R → Bool) (rows : List R)
      → find_where test rows ≡ none
      → All (λ r. test r ≡ false) rows
  unfolding find_where
  All-of_find_none test [] h = tt
  All-of_find_none test (r ∷ rows) h = elim (Bool-cases (test r)) [
    | inl e ↦ cc (rw (e, find_where) at h)
    | inr e ↦ (e, All-of_find_none test rows (rw (e, find_where) at h))
  ]

  pub find-none_of_All :
      (test : R → Bool) (rows : List R)
      → All (λ r. test r ≡ false) rows
      → find_where test rows ≡ none
  unfolding find_where
  find-none_of_All test [] a = refl
  find-none_of_All test (r ∷ rows) a = rw (a.0, find_where) (find-none_of_All test rows a.1)

  -- No two rows are the same in the sense of a unique key.
  abbrev pub Distinct : (R → R → Bool) → List R → Type 0
  Distinct same [] = Unit
  Distinct same (r ∷ rows) = All (λ s. same r s ≡ false) rows × Distinct same rows

  module _ (same : R → R → Bool) where
    pub Distinct-insert :
        (r : R) (rows : List R)
        → All (λ s. same s r ≡ false) rows
        → Distinct same rows
        → Distinct same (insert_row r rows)
    Distinct-insert r [] new d = (tt, tt)
    Distinct-insert r (s ∷ rows) new d =
        (All-insert (λ t. same s t ≡ false) r rows new.0 d.0, Distinct-insert r rows new.1 d.1)

    pub Distinct-select :
        (test : R → Bool) (rows : List R)
        → Distinct same rows
        → Distinct same (select_where test rows)
    unfolding select_where
    Distinct-select test [] d = tt
    Distinct-select test (r ∷ rows) d = elim (Bool-cases (test r)) [
      | inl e ↦
          rw e (All-select (λ s. same r s ≡ false) test rows d.0, Distinct-select test rows d.1)
      | inr e ↦ rw e (Distinct-select test rows d.1)
    ]

    pub Distinct-delete :
        (test : R → Bool) (rows : List R)
        → Distinct same rows
        → Distinct same (delete_where test rows)
    unfolding delete_where
    Distinct-delete test rows d = Distinct-select (λ r. not (test r)) rows d

    module _ (test : R → Bool) (change : R → R)
        (keep_left : (r s : R) → same (change r) s ≡ same r s)
        (keep_right : (r s : R) → same r (change s) ≡ same r s) where
      Fresh-update :
          (r r' : R) (rows : List R)
          → ((s : R) → same r' s ≡ same r s)
          → All (λ s. same r s ≡ false) rows
          → All (λ s. same r' s ≡ false) (update_where test change rows)
      unfolding update_where
      Fresh-update r r' [] e a = tt
      Fresh-update r r' (s ∷ rows) e a = elim (Bool-cases (test s)) [
        | inl t ↦ rw t (e (change s) ∙ keep_right r s ∙ a.0, Fresh-update r r' rows e a.1)
        | inr t ↦ rw t (e s ∙ a.0, Fresh-update r r' rows e a.1)
      ]

      pub Distinct-update :
          (rows : List R) → Distinct same rows → Distinct same (update_where test change rows)
      unfolding update_where
      Distinct-update [] d = tt
      Distinct-update (r ∷ rows) d = elim (Bool-cases (test r)) [
        | inl t ↦ rw t (Fresh-update r (change r) rows (keep_left r) d.0, Distinct-update rows d.1)
        | inr t ↦ rw t (Fresh-update r r rows (λ s. refl) d.0, Distinct-update rows d.1)
      ]

  -- An insertion that went through met no row of the key.
  pub insert_unique-eq-ok :
      (clash : R → Bool) (r : R) (rows : List R) {rows' : List R}
      → insert_unique clash r rows ≡ ok rows'
      → (find_where clash rows ≡ none) × (insert_row r rows ≡ rows')
  unfolding insert_unique
  insert_unique-eq-ok clash r rows {rows'} h = elim (Option-cases (find_where clash rows)) [
    | inl e ↦ (e, cc (rw (e, insert_unique) at h))
    | inr (s, e) ↦ cc (rw (e, insert_unique) at h)
  ]
