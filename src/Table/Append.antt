-- ===== src/Table/Append.antt =====
-- A row that is inserted after the others, as selections and ORDER BY see it.
use gg_agent_server.Prelude.{
  ◌≡◌, refl, ap, ◌∙◌, Bool, true, List, [], ◌∷◌, map, arith, All, if◌then◌else◌, Bool-cases, inl,
  inr,
}
use gg_agent_server.Table.{select_where, insert_ordered, order_by, insert_row}

module _ {ℓ} {R : Type ℓ} where
  pub select-insert :
      (test : R → Bool) (r : R) (rows : List R)
      → select_where test (insert_row r rows)
        ≡ (if test r then insert_row r (select_where test rows) else select_where test rows)
  unfolding select_where
  select-insert test r [] = refl
  select-insert test r (s ∷ rows) = ground (arith, select-insert test r rows)

  module _ (before : R → R → Bool) (last : R) where
    insert_ordered-insert :
        (r : R) (rows : List R)
        → before r last ≡ true
        → insert_ordered before r (insert_row last rows)
          ≡ insert_row last (insert_ordered before r rows)
    unfolding insert_ordered
    insert_ordered-insert r [] e = rw e refl
    insert_ordered-insert r (s ∷ rows) e = elim (Bool-cases (before r s)) [
      | inl f ↦ rw (f, insert_ordered) refl
      | inr f ↦ rw (f, insert_ordered) (ap (λ xs. s ∷ xs) (insert_ordered-insert r rows e))
    ]

    -- A row that no other comes after stays the last.
    pub order_by-insert :
        (rows : List R)
        → All (λ r. before r last ≡ true) rows
        → order_by before (insert_row last rows) ≡ insert_row last (order_by before rows)
    unfolding order_by insert_ordered
    order_by-insert [] a = refl
    order_by-insert (r ∷ rows) a =
        ap (λ xs. insert_ordered before r xs) (order_by-insert rows a.1)
        ∙ insert_ordered-insert r (order_by before rows) a.0

  pub map-insert {κ} :
      {S : Type κ} (f : R → S) (r : R) (rows : List R)
      → map f (insert_row r rows) ≡ insert_row (f r) (map f rows)
  map-insert f r [] = refl
  map-insert f r (s ∷ rows) = ap (λ xs. f s ∷ xs) (map-insert f r rows)
