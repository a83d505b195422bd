-- ===== src/Ledger/Retention/Expiry.antt =====
-- `expire_terminal_payloads` as a whole: no INSERT of its loop clashes, and it empties exactly the
-- tasks that its query selects.
use gg_agent_server.Prelude.{
  ℕ, ◌+◌, ◌≤◌, String, ◌≡◌, refl, ap, subst, ◌∙◌, Bool, false, inl, inr, Option, none, some, List,
  [], ◌∷◌, arith, ◌==◌, eq_iff, eq_refl, is_some, map_option, if◌then◌else◌, length, Bool-cases,
  Option-cases, All,
}
use gg_agent_server.Result.{ok}
use gg_agent_server.Table.{find_where, select_where}
use gg_agent_server.Table.Find.{find_where_test}
use gg_agent_server.Table.Rows.{
  All-imp, All-insert, All-both, All-update, All-select, All-select_test, Distinct, Distinct-select,
  find-none_of_All,
}
use gg_agent_server.Ledger.Rows.{TaskRow, Ledger}
use gg_agent_server.Ledger.Tasks.{has_id, find_task, same_task_key}
use gg_agent_server.Ledger.Retention.{
  is_retirable, tombstone, retired_row, delete_payload, emptied, retire_all,
  expire_terminal_payloads,
}
use gg_agent_server.Ledger.Retention.Keys.{eq_sym, Matches, Matches-All}
use gg_agent_server.Ledger.Retention.Retire.{
  retired_ledger, retire_lem, find-retired, retired-IsSound,
}
use gg_agent_server.Ledger.Soundness.{IsUnretired, IsSound}

-- The row can be retired, now or later in the loop.
abbrev Ready : Ledger → TaskRow → Type 0
Ready l row = IsUnretired l row × (row.seq ≤ l.task_seq) × All (Matches row) l.tasks

Ready-retired :
    (expires : ℕ) (row s : TaskRow) (l : Ledger)
    → same_task_key row s ≡ false
    → Ready l s
    → Ready (retired_ledger expires row l) s
unfolding retired_ledger delete_payload
Ready-retired expires row s l apart (u, bound, matches) = (
  (
    All-insert _ (retired_row row) l.idempotency apart (u.0),
    All-insert _ (tombstone row expires l) l.tombstones (ground arith) (u.1),
  ),
  bound,
  All-update (Matches s) (has_id row.id) emptied l.tasks (λ r _ m. m) matches,
)

retired_all : ℕ → List TaskRow → Ledger → Ledger
retired_all expires [] l = l
retired_all expires (row ∷ rows) l = retired_all expires rows (retired_ledger expires row l)

Ready-rest :
    (expires : ℕ) (row : TaskRow) (rows : List TaskRow) (l : Ledger)
    → All (λ s. same_task_key row s ≡ false) rows
    → All (Ready l) rows
    → All (Ready (retired_ledger expires row l)) rows
Ready-rest expires row rows l apart ready =
    All-imp _ _ rows (λ s p. Ready-retired expires row s l p.0 p.1) (All-both _ _ rows apart ready)

retire_all_lem :
    (expires : ℕ) (rows : List TaskRow) (l : Ledger)
    → Distinct same_task_key rows
    → All (Ready l) rows
    → retire_all expires rows l ≡ ok (retired_all expires rows l)
unfolding retire_all retired_all
retire_all_lem expires [] l d ready = refl
retire_all_lem expires (row ∷ rows) l d ready = rw (retire_lem expires row l ready.0.0) (
    retire_all_lem expires rows (retired_ledger expires row l) d.1
      (Ready-rest expires row rows l d.0 ready.1))

retired_all-IsSound :
    (expires : ℕ) (rows : List TaskRow) (l : Ledger)
    → Distinct same_task_key rows
    → All (Ready l) rows
    → IsSound l
    → IsSound (retired_all expires rows l)
unfolding retired_all
retired_all-IsSound expires [] l d ready h = h
retired_all-IsSound expires (row ∷ rows) l d ready h =
    retired_all-IsSound expires rows (retired_ledger expires row l) d.1
      (Ready-rest expires row rows l d.0 ready.1)
      (retired-IsSound expires row l ready.0.1 ready.0.2 h)

reservations-retired_all :
    (expires : ℕ) (rows : List TaskRow) (l : Ledger)
    → (retired_all expires rows l).reservations ≡ l.reservations
unfolding retired_all retired_ledger delete_payload
reservations-retired_all expires [] l = refl
reservations-retired_all expires (row ∷ rows) l =
    reservations-retired_all expires rows (retired_ledger expires row l)

-- A task is emptied if the loop meets its identifier.
abbrev emptied_in : List TaskRow → TaskRow → TaskRow
emptied_in rows r = if is_some (find_where (has_id r.id) rows) then emptied r else r

emptied_in-nil : (o : Option TaskRow) → o ≡ map_option (emptied_in []) o
unfolding find_where
emptied_in-nil none = refl
emptied_in-nil (some r) = refl

emptied_in-cons :
    (row : TaskRow) (rows : List TaskRow) (o : Option TaskRow)
    → map_option (emptied_in rows) (map_option (λ r. if has_id row.id r then emptied r else r) o)
      ≡ map_option (emptied_in (row ∷ rows)) o
unfolding find_where
emptied_in-cons row rows none = refl
emptied_in-cons row rows (some r) = elim (Bool-cases (r.id == row.id)) [
  | inl e ↦ rw e (rw (eq_sym row.id r.id ∙ e) (ground arith))
  | inr e ↦ rw e (rw (eq_sym row.id r.id ∙ e) refl)
]

find-retired_all :
    (expires : ℕ) (rows : List TaskRow) (l : Ledger) (id : String)
    → find_task id (retired_all expires rows l) ≡ map_option (emptied_in rows) (find_task id l)
unfolding retired_all find_where
find-retired_all expires [] l id = emptied_in-nil (find_task id l)
find-retired_all expires (row ∷ rows) l id =
    find-retired_all expires rows (retired_ledger expires row l) id
    ∙ ap (map_option (emptied_in rows)) (find-retired expires row l id)
    ∙ emptied_in-cons row rows (find_task id l)

find-select_apart :
    (test : TaskRow → Bool) (r : TaskRow) (rows : List TaskRow)
    → All (λ s. same_task_key r s ≡ false) rows
    → find_where (has_id r.id) (select_where test rows) ≡ none
find-select_apart test r rows apart = find-none_of_All (has_id r.id) _ (
    All-imp _ _ _ (λ s e. eq_sym s.id r.id ∙ ground arith)
      (All-select (λ s. same_task_key r s ≡ false) test rows apart))

find-select_head :
    (test : TaskRow → Bool) (r : TaskRow) (rows : List TaskRow)
    → All (λ s. same_task_key r s ≡ false) rows
    → is_some (find_where (has_id r.id) (select_where test (r ∷ rows))) ≡ test r
unfolding find_where select_where
find-select_head test r rows apart = elim (Bool-cases (test r)) [
  | inl e ↦ rw e (rw (eq_refl r.id))
  | inr e ↦ rw e (ap is_some (find-select_apart test r rows apart))
]

-- With distinct keys, the identifier of a task is selected if the task is.
find-select :
    (test : TaskRow → Bool) (id : String) (rows : List TaskRow) {r : TaskRow}
    → Distinct same_task_key rows
    → find_where (has_id id) rows ≡ some r
    → is_some (find_where (has_id r.id) (select_where test rows)) ≡ test r
unfolding find_where select_where
find-select test id [] d e = cc
find-select test id (s ∷ rows) {r} d e = elim (Bool-cases (s.id == id)) [
  | inl named ↦
      let found : some s ≡ some r = rw (named, find_where) at e in
      let same : s ≡ r = cc found in
      subst (λ x. is_some (find_where (has_id x.id) (select_where test (s ∷ rows))) ≡ test x) same
        (find-select_head test s rows d.0)
  | inr other ↦
      let found : find_where (has_id id) rows ≡ some r = rw (other, find_where) at e in
      let named = (eq_iff r.id id).0 (find_where_test (has_id id) rows found) in
      let later = find-select test id rows d.1 found in
      let apart : (s.id == r.id) ≡ false = rw named other in
      elim (Bool-cases (test s)) [ inl t ↦ rw t (rw apart later) | inr t ↦ rw t later ]
]

emptied_in-select :
    (test : TaskRow → Bool) (id : String) (rows : List TaskRow)
    → Distinct same_task_key rows
    → map_option (emptied_in (select_where test rows)) (find_where (has_id id) rows)
      ≡ map_option (λ r. if test r then emptied r else r) (find_where (has_id id) rows)
emptied_in-select test id rows d = elim (Option-cases (find_where (has_id id) rows)) [
  | inl e ↦ rw e refl
  | inr (r, e) ↦ rw e (rw (find-select test id rows d e))
]

module _ (before : ℕ) (l : Ledger) (h : IsSound l) where
  abbrev due : List TaskRow
  due = select_where (is_retirable before l) l.tasks

  due-Ready : All (Ready l) due
  due-Ready =
      All-imp _ _ due (λ r p. (p.0.0 (ground arith), p.0.1.0, p.0.1.1))
        (All-both _ _ due
          (All-select _ (is_retirable before l) l.tasks (
            All-both _ _ l.tasks h.unexpired
              (All-both _ _ l.tasks h.task_seqs (Matches-All l.tasks h.tasks_distinct))))
          (All-select_test (is_retirable before l) l.tasks))

  due-Distinct : Distinct same_task_key due
  due-Distinct = Distinct-select same_task_key (is_retirable before l) l.tasks h.tasks_distinct

-- From a sound ledger the expiry never raises, returns the number of the tasks that it selects and
-- leaves the ledger sound. The tasks that it selects are emptied, all others stay as they are, and so
-- do all reservations.
pub expire_terminal_payloads_lem :
    (before retention now : ℕ) (l : Ledger)
    → IsSound l
    → (l' : Ledger) × (expire_terminal_payloads before retention now l
        ≡ ok (length (select_where (is_retirable before l) l.tasks), l'))
      × IsSound l'
      × ((id : String)
          → find_task id l'
            ≡ map_option (λ r. if is_retirable before l r then emptied r else r) (find_task id l))
      × (l'.reservations ≡ l.reservations)
unfolding expire_terminal_payloads
expire_terminal_payloads_lem before retention now l h =
    let rows = due before l h in
    let expires = now + retention in
    let ready = due-Ready before l h in
    let distinct = due-Distinct before l h in
    (
      retired_all expires rows l,
      rw (retire_all_lem expires rows l distinct ready),
      retired_all-IsSound expires rows l distinct ready h,
      λ id.
          find-retired_all expires rows l id
          ∙ emptied_in-select (is_retirable before l) id l.tasks h.tasks_distinct,
      reservations-retired_all expires rows l,
    )
