-- ===== src/Ledger/Retention/Keys.antt =====
-- Two tasks of one ledger share all of their keys or none.
use gg_agent_server.Prelude.{
  ℕ, String, ◌≡◌, refl, ◌∙◌, true, false, ◌⊎◌, inl, inr, Option, none, some, List, [], ◌∷◌, arith,
  ◌==◌, eq_iff, eq_refl, nat_eq, All,
}
use gg_agent_server.Table.Rows.{All-imp, Distinct}
use gg_agent_server.Ledger.Rows.{TaskRow}
use gg_agent_server.Ledger.Tasks.{same_task_key, in_scope}

pub eq_sym : (s t : String) → (s == t) ≡ (t == s)
eq_sym s t = ground (arith, eq_iff s t, eq_iff t s)

in_scope_sym : (a b : Option String) → in_scope a b ≡ in_scope b a
in_scope_sym none none = refl
in_scope_sym none (some b) = refl
in_scope_sym (some a) none = refl
in_scope_sym (some a) (some b) = eq_sym b a

pub in_scope_refl : (a : Option String) → in_scope a a ≡ true
in_scope_refl none = refl
in_scope_refl (some a) = eq_refl a

nat_eq_sym : (a b : ℕ) → nat_eq a b ≡ nat_eq b a
nat_eq_sym a b = ground arith

pub same_task_key_sym : (a b : TaskRow) → same_task_key a b ≡ same_task_key b a
same_task_key_sym a b = cc (
  eq_sym a.id b.id,
  nat_eq_sym a.seq b.seq,
  eq_sym a.idempotency_key b.idempotency_key,
  in_scope_sym b.owner_id a.owner_id,
)

pub same_task_key_refl : (a : TaskRow) → same_task_key a a ≡ true
same_task_key_refl a = rw eq_refl

-- The keys of the row, or none of them.
abbrev pub Matches : TaskRow → TaskRow → Type 0
Matches row r =
    (r.id ≡ row.id)
      × (r.seq ≡ row.seq)
      × (r.idempotency_key ≡ row.idempotency_key)
      × (r.owner_id ≡ row.owner_id)
    ⊎ (same_task_key row r ≡ false)

Matches-self : (row : TaskRow) → Matches row row
Matches-self row = inl (refl, refl, refl, refl)

-- Every row of a table with distinct keys matches every other.
pub Matches-All :
    (rows : List TaskRow) → Distinct same_task_key rows → All (λ row. All (Matches row) rows) rows
Matches-All [] d = tt
Matches-All (r ∷ rows) d = (
  (Matches-self r, All-imp _ (Matches r) rows (λ s e. inr e) d.0),
  add_head rows d.0 (Matches-All rows d.1),
)
  where
    add_head :
        (tail : List TaskRow)
        → All (λ s. same_task_key r s ≡ false) tail
        → All (λ row. All (Matches row) rows) tail
        → All (λ row. Matches row r × All (Matches row) rows) tail
    add_head [] a b = tt
    add_head (s ∷ tail) a b = ((inr (same_task_key_sym s r ∙ a.0), b.0), add_head tail a.1 b.1)
