-- ===== src/Table/Order.antt =====
-- What ORDER BY a number puts first.
use gg_agent_server.Prelude.{
  ℕ, ◌≤◌, ◌≡◌, refl, subst, Bool, true, false, Option, none, some, List, [], ◌∷◌, arith, leb, All,
  if◌then◌else◌, Bool-cases, inl, inr,
}
use gg_agent_server.Table.Rows.{All-imp, Distinct}
use gg_agent_server.Table.{find_where, select_where, insert_ordered, order_by}

abbrev pub first {ℓ} : {R : Type ℓ} → List R → Option R
first [] = none
first (r ∷ rows) = some r

module _ {ℓ} {R : Type ℓ} where
  pub find-all : (rows : List R) → find_where (λ r. true) rows ≡ first rows
  unfolding find_where
  find-all [] = refl
  find-all (r ∷ rows) = refl

  module _ {κ} (P : R → Type κ) (before : R → R → Bool) where
    All-insert_ordered :
        (r : R) (rows : List R) → P r → All P rows → All P (insert_ordered before r rows)
    unfolding insert_ordered
    All-insert_ordered r [] p a = (p, tt)
    All-insert_ordered r (s ∷ rows) p a = elim (Bool-cases (before r s)) [
      | inl e ↦ rw (e, insert_ordered) (p, a)
      | inr e ↦ rw (e, insert_ordered) (a.0, All-insert_ordered r rows p a.1)
    ]

    pub All-order_by : (rows : List R) → All P rows → All P (order_by before rows)
    unfolding order_by
    All-order_by [] a = tt
    All-order_by (r ∷ rows) a =
        All-insert_ordered r (order_by before rows) a.0 (All-order_by rows a.1)

  module _ (same : R → R → Bool) (symmetric : (r s : R) → same r s ≡ false → same s r ≡ false)
      (before : R → R → Bool) where
    Distinct-insert_ordered :
        (r : R) (rows : List R)
        → All (λ s. same r s ≡ false) rows
        → Distinct same rows
        → Distinct same (insert_ordered before r rows)
    unfolding insert_ordered
    Distinct-insert_ordered r [] new d = (tt, tt)
    Distinct-insert_ordered r (s ∷ rows) new d = elim (Bool-cases (before r s)) [
      | inl e ↦ rw (e, insert_ordered) (new, d)
      | inr e ↦
          rw (e, insert_ordered)
            (
              All-insert_ordered (λ t. same s t ≡ false) before r rows (symmetric r s (new.0))
                  (d.0),
              Distinct-insert_ordered r rows (new.1) (d.1),
            )
    ]

    pub Distinct-order_by :
        (rows : List R) → Distinct same rows → Distinct same (order_by before rows)
    unfolding order_by
    Distinct-order_by [] d = tt
    Distinct-order_by (r ∷ rows) d =
        Distinct-insert_ordered r (order_by before rows)
          (All-order_by (λ s. same r s ≡ false) before rows (d.0)) (Distinct-order_by rows (d.1))

  -- What holds of all that is selected.
  pub All-of_select {κ} :
      (P : R → Type κ) (test : R → Bool) (rows : List R)
      → All P (select_where test rows)
      → All (λ r. test r ≡ true → P r) rows
  unfolding select_where
  All-of_select P test [] a = tt
  All-of_select P test (r ∷ rows) a = elim (Bool-cases (test r)) [
    | inl e ↦ let b = rw (e, select_where) at a in (λ h. b.0, All-of_select P test rows b.1)
    | inr e ↦ (λ h. cc, All-of_select P test rows (rw (e, select_where) at a))
  ]

  -- The lesser of the new row and the first of the others.
  lesser : (R → ℕ) → R → Option R → R
  lesser key r none = r
  lesser key r (some s) = if leb (key r) (key s) then r else s

  module _ (key : R → ℕ) where
    first-insert_ordered :
        (r : R) (rows : List R)
        → first (insert_ordered (λ a b. leb (key a) (key b)) r rows)
          ≡ some (lesser key r (first rows))
    unfolding insert_ordered lesser
    first-insert_ordered r [] = refl
    first-insert_ordered r (s ∷ rows) = elim (Bool-cases (leb (key r) (key s))) [
      | inl e ↦ rw (e, insert_ordered) refl
      | inr e ↦ rw (e, insert_ordered) refl
    ]

    ordered : List R → List R
    ordered rows = order_by (λ a b. leb (key a) (key b)) rows

    first-ordered :
        (r : R) (rows : List R)
        → first (ordered (r ∷ rows)) ≡ some (lesser key r (first (ordered rows)))
    unfolding ordered order_by
    first-ordered r rows = first-insert_ordered r (ordered rows)

    first-none : (rows : List R) (n : ℕ) → first (ordered rows) ≡ none → All (λ s. n ≤ key s) rows
    first-none [] n h = tt
    first-none (r ∷ rows) n h = cc (first-ordered r rows)

    All-le :
        (m n : ℕ) (rows : List R) → m ≤ n → All (λ s. n ≤ key s) rows → All (λ s. m ≤ key s) rows
    All-le m n rows h a = All-imp _ _ rows (λ s p. ground (arith, h, p)) a

    least-cons :
        (r : R) (rows : List R) (o : Option R) {s : R}
        → first (ordered rows) ≡ o
        → ((t : R) → o ≡ some t → All (λ u. key t ≤ key u) rows)
        → lesser key r o ≡ s
        → All (λ u. key s ≤ key u) (r ∷ rows)
    unfolding lesser
    least-cons r rows none e least h =
        subst (λ s. All (λ u. key s ≤ key u) (r ∷ rows)) h (omega arith, first-none rows (key r) e)
    least-cons r rows (some t) {s} e least h = elim (Bool-cases (leb (key r) (key t))) [
      | inl f ↦
          subst (λ s. All (λ u. key s ≤ key u) (r ∷ rows)) (rw f at h)
            (omega arith, All-le (key r) (key t) rows (ground (arith, f)) (least t refl))
      | inr f ↦
          subst (λ s. All (λ u. key s ≤ key u) (r ∷ rows)) (rw f at h)
            (ground (arith, f), least t refl)
    ]

    pub first-least :
        (rows : List R) {r : R}
        → first (order_by (λ a b. leb (key a) (key b)) rows) ≡ some r
        → All (λ s. key r ≤ key s) rows
    unfolding ordered
    first-least [] h = tt
    first-least (t ∷ rows) {r} h =
        let same : lesser key t (first (ordered rows)) ≡ r = cc (first-ordered t rows, h) in
        least-cons t rows (first (ordered rows)) refl (λ u. first-least rows {r = u}) same
