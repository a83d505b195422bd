-- ===== src/Table.antt =====
-- A table of the database: its rows in the order of insertion, and the SQL statements that the
-- ledger runs on it. The laws are in the child modules.
pub mod Find
pub mod Rows
pub mod Order
pub mod Append
use gg_agent_server.Prelude.{
  ℕ, zero, suc, Bool, not, Option, none, some, List, [], ◌∷◌, ◌++◌, if◌then◌else◌, is_some,
}
use gg_agent_server.Result.{Result, ok, err, integrity_error}

module _ {ℓ} {R : Type ℓ} where
  -- SELECT … WHERE test, and `fetchone`
  unfoldable pub find_where : (R → Bool) → List R → Option R
  find_where test [] = none
  find_where test (r ∷ rows) = if test r then some r else find_where test rows

  -- SELECT … WHERE test, and `fetchall`
  unfoldable pub select_where : (R → Bool) → List R → List R
  select_where test [] = []
  select_where test (r ∷ rows) =
      let rest = select_where test rows in if test r then r ∷ rest else rest

  -- DELETE … WHERE test
  unfoldable pub delete_where : (R → Bool) → List R → List R
  unfolding select_where
  delete_where test rows = select_where (λ r. not (test r)) rows

  -- UPDATE … SET change WHERE test
  unfoldable pub update_where : (R → Bool) → (R → R) → List R → List R
  update_where test change [] = []
  update_where test change (r ∷ rows) =
      (if test r then change r else r) ∷ update_where test change rows

  -- SELECT COUNT(*) … WHERE test; also the `rowcount` of an UPDATE
  unfoldable pub count_where : (R → Bool) → List R → ℕ
  count_where test [] = 0
  count_where test (r ∷ rows) =
      let rest = count_where test rows in if test r then suc rest else rest

  -- ORDER BY, with `before` the order of the terms; LIMIT is `take`
  unfoldable pub insert_ordered : (R → R → Bool) → R → List R → List R
  insert_ordered before r [] = r ∷ []
  insert_ordered before r (s ∷ rows) =
      let rest = insert_ordered before r rows in if before r s then r ∷ s ∷ rows else s ∷ rest

  unfoldable pub order_by : (R → R → Bool) → List R → List R
  unfolding insert_ordered
  order_by before [] = []
  order_by before (r ∷ rows) = insert_ordered before r (order_by before rows)

  unfoldable pub take : ℕ → List R → List R
  take zero rows = []
  take (suc n) [] = []
  take (suc n) (r ∷ rows) = r ∷ take n rows

  -- INSERT, once the constraints hold
  abbrev pub insert_row : R → List R → List R
  insert_row r rows = rows ++ r ∷ []

  -- INSERT into a table with a unique key; `clash` tells the rows with the key of the new one
  unfoldable pub insert_unique : (R → Bool) → R → List R → Result (List R)
  insert_unique clash r rows =
      if is_some (find_where clash rows) then err integrity_error else ok (insert_row r rows)
