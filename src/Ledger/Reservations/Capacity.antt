-- ===== src/Ledger/Reservations/Capacity.antt =====
-- `reserve_next` and `update_reservation` of backend/gg/runtime/ledger.py: the capacity, the order
-- in which tasks are claimed, and the states that a reservation may not change.
use gg_agent_server.Prelude.{
  ℕ, suc, ◌≤◌, ◌≡◌, refl, sym, ap, subst, ◌∙◌, is_some, eq_refl, true, Option, none, some, List, [],
  ◌∷◌, false, ◌==◌, ◌&&◌, length, leb, arith, Option-cases, Bool-cases, inl, inr, All,
}
use gg_agent_server.Result.{
  ok, >>=-eq-ok, err, AfterOk, AfterOk-elim, AfterOk-bind, AfterOk-imp, returned, raised, fetched,
  fetched-eq-ok, assertion_error,
}
use gg_agent_server.Table.{find_where, select_where, insert_unique, order_by}
use gg_agent_server.Table.Rows.{
  All-select_test, All-imp, All-both, All-select, Distinct, insert_unique-eq-ok, length-insert,
}
use gg_agent_server.Table.Find.{find-updated, find-insert}
use gg_agent_server.Table.Find.{find_where_All}
use gg_agent_server.Table.Order.{find-all, All-order_by, first-least, All-of_select}
use gg_agent_server.Sdk.Tasks.{TaskState, TaskRecord}
use gg_agent_server.Ledger.Rows.{row_to_record, Ledger, TaskRow, ReservationRecord}
use gg_agent_server.Ledger.Tasks.{find_task, has_id, seq_before, same_task_key}
use gg_agent_server.Ledger.Soundness.{IsSound}
use gg_agent_server.Ledger.Reservations.{
  reserves, is_reserved, next_waiting, is_waiting, new_reservation, claimed_ledger, claim,
  claim_next, reserve_next,
}

-- A claim takes one reservation.
claim-length :
    (row : TaskRow) (now : ℕ) (l : Ledger)
    → AfterOk (λ l'. length l'.reservations ≡ suc (length l.reservations)) (claim row now l)
unfolding claim
claim-length row now l =
    let new = new_reservation row.id now in
    AfterOk-bind (insert_unique (reserves row.id) new l.reservations) _ λ rows inserted.
      AfterOk-bind (fetched assertion_error (find_task row.id (claimed_ledger row now rows l))) _
        λ claimed found.
          let (_, e) = insert_unique-eq-ok (reserves row.id) new l.reservations inserted in
          returned (
            subst (λ rs. length rs ≡ suc (length l.reservations)) e
              (length-insert new l.reservations))

-- Where there is room, a claim keeps to the capacity.
claim_next-capacity :
    (capacity now : ℕ) (l : Ledger)
    → suc (length l.reservations) ≤ capacity
    → AfterOk (λ l'. length l'.reservations ≤ capacity) (claim_next now l)
unfolding claim_next
claim_next-capacity capacity now l h = elim (Option-cases (next_waiting l)) [
  | inl e ↦ rw (e, claim_next) (returned (ground arith))
  | inr (row, e) ↦
      rw (e, claim_next) (AfterOk-imp (λ l' p. ground (arith, p, h)) (claim-length row now l))
]

reserve_next-AfterOk :
    (capacity now : ℕ) (l : Ledger)
    → length l.reservations ≤ capacity
    → AfterOk
        (λ l'. (1 ≤ capacity) × (capacity ≤ 10) × (length l'.reservations ≤ capacity))
        (reserve_next capacity now l)
unfolding reserve_next
reserve_next-AfterOk capacity now l h = elim (Bool-cases (leb 1 capacity && leb capacity 10)) [
  | inr e ↦ rw (e, reserve_next) raised
  | inl e ↦ elim (Bool-cases (leb capacity (length l.reservations))) [
    | inl f ↦ rw (e, reserve_next, f) (returned (ground arith, ground arith, h))
    | inr f ↦
        rw (e, reserve_next, f)
          (AfterOk-imp (λ l' p. (ground arith, ground arith, p))
            (claim_next-capacity capacity now l (ground arith)))
  ]
]

-- A `reserve_next` that returns was given a capacity from 1 to 10, and where the reservations were
-- within the capacity before, they are after it.
pub reserve_next-capacity :
    (capacity now : ℕ) (l : Ledger) {claimed : Option TaskRecord} {l' : Ledger}
    → length l.reservations ≤ capacity
    → reserve_next capacity now l ≡ ok (claimed, l')
    → (1 ≤ capacity) × (capacity ≤ 10) × (length l'.reservations ≤ capacity)
reserve_next-capacity capacity now l h e = AfterOk-elim (reserve_next-AfterOk capacity now l h) e

-- A task is found by its identifier.
found_tasks :
    (rows : List TaskRow)
    → Distinct same_task_key rows
    → All (λ r. find_where (has_id r.id) rows ≡ some r) rows
unfolding find_where
found_tasks [] distinct = tt
found_tasks (r ∷ rows) distinct = (
  rw (eq_refl r.id) refl,
  All-imp _ _ rows
      (λ q (h : (same_task_key r q ≡ false) × (find_where (has_id q.id) rows ≡ some q)).
        let other : (r.id == q.id) ≡ false = ground (arith, h.0) in rw other (h.1))
      (All-both _ _ rows (distinct.0) (found_tasks rows distinct.1)),
)

-- The next task is one of the table, has no reservation, is queued, and has the least number of all
-- such tasks.
next_waiting-least :
    (l : Ledger) {row : TaskRow}
    → Distinct same_task_key l.tasks
    → next_waiting l ≡ some row
    → (find_task row.id l ≡ some row)
      × (is_waiting l row ≡ true)
      × All (λ other. is_waiting l other ≡ true → row.seq ≤ other.seq) l.tasks
unfolding next_waiting
next_waiting-least l distinct e =
    let waiting = select_where (is_waiting l) l.tasks in
    let found : TaskRow → Type 0 = λ r. find_task r.id l ≡ some r in
    let all =
      All-order_by (λ r. is_waiting l r ≡ true) seq_before waiting (All-select_test _ l.tasks) in
    let stored =
      All-order_by found seq_before waiting
        (All-select found (is_waiting l) l.tasks (found_tasks l.tasks distinct)) in
    let head = sym (find-all (order_by seq_before waiting)) ∙ e in
    (
      find_where_All found (λ r. true) (order_by seq_before waiting) stored e,
      find_where_All (λ r. is_waiting l r ≡ true) (λ r. true) (order_by seq_before waiting) all e,
      All-of_select _ (is_waiting l) l.tasks (first-least (λ r. r.seq) waiting head),
    )

-- What a claim makes of the task's row.
abbrev pub starting_row : ℕ → TaskRow → TaskRow
starting_row now row = record row { state = TaskState.starting; updated_at = now }

-- The row that is read back after a claim.
claimed-starting :
    (row : TaskRow) (now : ℕ) (rows : List ReservationRecord) (l : Ledger) {claimed : TaskRow}
    → find_task row.id l ≡ some row
    → find_task row.id (claimed_ledger row now rows l) ≡ some claimed
    → claimed ≡ starting_row now row
claimed-starting row now rows l {claimed} stored e =
    let (old, before, same) =
      find-updated (has_id row.id) (starting_row now) l.tasks (λ r. refl) e in
    let there : some old ≡ some row = sym before ∙ stored in
    let old_eq : old ≡ row = cc there in same ∙ ap (starting_row now) old_eq

claim-record :
    (row : TaskRow) (now : ℕ) (l : Ledger) {r : TaskRecord} {l' : Ledger}
    → find_task row.id l ≡ some row
    → claim row now l ≡ ok (some r, l')
    → (r ≡ row_to_record (starting_row now row) none) × (is_reserved l' row.id ≡ true)
unfolding claim
claim-record row now l {r} {l'} stored h =
    let new = new_reservation row.id now in
    let (rows, inserted, h') = >>=-eq-ok (insert_unique (reserves row.id) new l.reservations) _ h in
    let (claimed, found, h'') =
      >>=-eq-ok (fetched assertion_error (find_task row.id (claimed_ledger row now rows l))) _ h' in
    let (unique, e) = insert_unique-eq-ok (reserves row.id) new l.reservations inserted in
    let same = claimed-starting row now rows l stored (fetched-eq-ok assertion_error _ found) in
    let record_eq : row_to_record claimed none ≡ r = cc h'' in
    let table_eq : rows ≡ l'.reservations =
      ap (λ m. elim m [ ok (_, x) ↦ x.reservations | err _ ↦ [] ]) h'' in
    (
      sym record_eq ∙ ap (λ row. row_to_record row none) same,
      subst (λ rs. is_some (find_where (reserves row.id) rs) ≡ true) (e ∙ table_eq)
          (rw (find-insert (reserves row.id) new l.reservations, unique, eq_refl row.id) refl),
    )

claim_next-claim :
    (now : ℕ) (l : Ledger) {r : TaskRecord} {l' : Ledger}
    → claim_next now l ≡ ok (some r, l')
    → (row : TaskRow) × (next_waiting l ≡ some row) × (claim row now l ≡ ok (some r, l'))
unfolding claim_next
claim_next-claim now l h = elim (Option-cases (next_waiting l)) [
  | inl g ↦ cc (rw (claim_next, g) at h)
  | inr (row, g) ↦ (row, g, rw (claim_next, g) at h)
]

reserve_next-claim_next :
    (capacity now : ℕ) (l : Ledger) {r : TaskRecord} {l' : Ledger}
    → reserve_next capacity now l ≡ ok (some r, l')
    → claim_next now l ≡ ok (some r, l')
unfolding reserve_next
reserve_next-claim_next capacity now l h = elim (Bool-cases (leb 1 capacity && leb capacity 10)) [
  | inr e ↦ cc (rw (e, reserve_next) at h)
  | inl e ↦ elim (Bool-cases (leb capacity (length l.reservations))) [
    | inl f ↦ cc (rw (e, reserve_next, f) at h)
    | inr f ↦ rw (e, reserve_next, f) at h
  ]
]

-- Where `reserve_next` on a sound ledger returns a task, this is the record of a task of the table, but
-- starting now: of all queued tasks that hold no reservation the one with the least number. It holds a
-- reservation.
pub reserve_next-first :
    (capacity now : ℕ) (l : Ledger) {r : TaskRecord} {l' : Ledger}
    → IsSound l
    → reserve_next capacity now l ≡ ok (some r, l')
    → (row : TaskRow) × (find_task row.id l ≡ some row)
      × (r ≡ row_to_record (starting_row now row) none)
      × (is_reserved l' row.id ≡ true)
      × (is_waiting l row ≡ true)
      × All (λ other. is_waiting l other ≡ true → row.seq ≤ other.seq) l.tasks
reserve_next-first capacity now l sound h =
    let claimed = reserve_next-claim_next capacity now l h in
    let (row, next, done) = claim_next-claim now l claimed in
    let (stored, waiting, least) = next_waiting-least l sound.tasks_distinct next in
    let (same, held) = claim-record row now l stored done in
    (row, stored, same, held, waiting, least)
