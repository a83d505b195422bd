-- ===== src/Ledger/Retention/Retire.antt =====
-- Retiring one task: it meets no clash, and keeps the ledger sound.
use gg_agent_server.Prelude.{
  ℕ, ◌≤◌, String, ◌≡◌, refl, sym, ap, ◌∙◌, Bool, true, false, inl, inr, Option, none, some, List,
  arith, ◌==◌, eq_iff, eq_refl, is_some, map_option, if◌then◌else◌, Bool-cases, Option-cases, All,
}
use gg_agent_server.Result.{ok}
use gg_agent_server.Table.{find_where, delete_where, insert_row, insert_unique}
use gg_agent_server.Table.Find.{find-update, find-insert, find_where_test}
use gg_agent_server.Table.Rows.{
  All-imp, All-insert, All-both, All-update, All-update_cases, All-delete, All-delete_test,
  find-none_of_All, Distinct-update,
}
use gg_agent_server.Ledger.Rows.{TaskRow, IdempotencyRow, Ledger}
use gg_agent_server.Ledger.Tasks.{has_id, find_task, update_task, same_task_key}
use gg_agent_server.Ledger.Sandboxes.{has_payload}
use gg_agent_server.Ledger.Retention.{
  tombstone, retired_row, same_retired_key, buries, delete_payload, emptied, retire,
}
use gg_agent_server.Ledger.Retention.Keys.{Matches, eq_sym, in_scope_refl}
use gg_agent_server.Ledger.Soundness.{shares_key, IsUnretired, IsKept, IsSound}

-- The ledger after the body of the loop, where no INSERT clashes.
unfoldable pub retired_ledger : ℕ → TaskRow → Ledger → Ledger
unfolding delete_payload
retired_ledger expires row l = update_task row.id emptied (
    delete_payload row.id (record l {
      tombstones = insert_row (tombstone row expires l) l.tombstones;
      idempotency = insert_row (retired_row row) l.idempotency;
    }))

pub retire_lem :
    (expires : ℕ) (row : TaskRow) (l : Ledger)
    → IsUnretired l row
    → retire expires row l ≡ ok (retired_ledger expires row l)
unfolding retire retired_ledger insert_unique
retire_lem expires row l u =
    rw (find-none_of_All (buries row.id) l.tombstones u.1, retire, insert_unique)
      (rw (
        find-none_of_All (λ old. same_retired_key old (retired_row row)) l.idempotency u.0,
        retire,
        insert_unique,
      ))

is_some-map : {A B : Type 0} (f : A → B) (o : Option A) → is_some (map_option f o) ≡ is_some o
is_some-map f none = refl
is_some-map f (some a) = refl

module _ (expires : ℕ) (row : TaskRow) (l : Ledger) where
  abbrev after : Ledger
  after = retired_ledger expires row l

  abbrev swapped : TaskRow → TaskRow
  swapped r = if has_id row.id r then emptied r else r

  pub find-retired : (id : String) → find_task id after ≡ map_option swapped (find_task id l)
  unfolding retired_ledger
  find-retired id = find-update (has_id row.id) (has_id id) emptied l.tasks (λ r. refl)

  -- Another task keeps its payload.
  pub has_payload-other :
      (id : String) → (id == row.id) ≡ false → has_payload id l ≡ true → has_payload id after ≡ true
  unfolding retired_ledger
  has_payload-other id other p = elim (Option-cases (find_task id l)) [
    | inl e ↦ cc (rw e at p)
    | inr (r, e) ↦
        let named = (eq_iff r.id id).0 (find_where_test (has_id id) l.tasks e) in
        let kept : (r.id == row.id) ≡ false = rw named other in
        rw (find-retired id) (rw e (rw kept (rw e at p)))
  ]

  kept_payload :
      {R : Type 0} (key : R → String) (rows : List R)
      → All (λ r. has_payload (key r) l ≡ true) rows
      → All (λ r. has_payload (key r) after ≡ true) (delete_where (λ r. key r == row.id) rows)
  kept_payload {R} key rows a =
      let gone : R → Bool = λ r. key r == row.id in
      All-imp _ _ _ (λ r p. has_payload-other (key r) p.0 p.1)
        (All-both _ _ (delete_where gone rows) (All-delete_test gone rows)
          (All-delete _ gone rows a))

  -- The new row of `task_idempotency` has no key of a task that stays unexpired.
  unexpired_step :
      (r : TaskRow)
      → (r.id == row.id) ≡ false
      → Matches row r × (r.payload_expired ≡ false → IsUnretired l r)
      → r.payload_expired ≡ false
      → IsUnretired after r
  unfolding retired_ledger delete_payload
  unexpired_step r other (inl same, u) e = cc (rw (same.0, eq_refl) at other)
  unexpired_step r other (inr apart, u) e = (
    All-insert _ (retired_row row) l.idempotency apart ((u e).0),
    All-insert _ (tombstone row expires l) l.tombstones (eq_sym row.id r.id ∙ other) ((u e).1),
  )

  shares_key-none :
      (r : TaskRow) (rows : List IdempotencyRow)
      → All (λ i. same_retired_key i (retired_row r) ≡ false) rows
      → find_where (shares_key r) rows ≡ none
  shares_key-none r rows a =
      find-none_of_All (shares_key r) rows (All-imp _ _ rows (λ i e. ground arith) a)

  -- The key that is known stays known.
  IsKept-step : (r : TaskRow) → IsKept l r → IsKept after r
  unfolding retired_ledger delete_payload
  IsKept-step r k = elim (Option-cases (find_where (shares_key r) l.idempotency)) [
    | inl e ↦ cc (rw e at k)
    | inr (i, e) ↦
        rw (find-insert (shares_key r) (retired_row row) l.idempotency) (rw e (rw e at k))
  ]

  shared :
      (r : TaskRow)
      → (r.id ≡ row.id)
        × (r.seq ≡ row.seq)
        × (r.idempotency_key ≡ row.idempotency_key)
        × (r.owner_id ≡ row.owner_id)
      → shares_key r (retired_row row) ≡ true
  shared r same =
      rw (same.2, same.3) (rw (eq_refl row.idempotency_key) (in_scope_refl row.owner_id))

  -- The task that is retired is known by the new row.
  retired_step :
      (r : TaskRow)
      → (r.id == row.id) ≡ true
      → Matches row r
      → (r.payload_expired ≡ false → IsUnretired l r)
      → (r.payload_expired ≡ true → IsKept l r)
      → IsKept after (emptied r)
  unfolding retired_ledger delete_payload
  retired_step r named (inr apart) u k =
      let same : (row.id == r.id) ≡ true = eq_sym row.id r.id ∙ named in cc (rw same at apart)
  retired_step r named (inl same) u k = elim (Bool-cases r.payload_expired) [
    | inl e ↦ IsKept-step r (k e)
    | inr e ↦ rw (find-insert (shares_key r) (retired_row row) l.idempotency) (
        rw (shares_key-none r l.idempotency ((u e).0))
          (rw (shared r same) (ap some (sym (same.0)))))
  ]

  pub retired-IsSound : row.seq ≤ l.task_seq → All (Matches row) l.tasks → IsSound l → IsSound after
  unfolding retired_ledger delete_payload
  retired-IsSound bound matches h = record {
    tasks_distinct =
        Distinct-update same_task_key (has_id row.id) emptied (λ r s. refl) (λ r s. refl) l.tasks
          h.tasks_distinct;
    task_seqs = All-update _ (has_id row.id) emptied l.tasks (λ r _ p. p) h.task_seqs;
    retired_seqs = All-insert _ (retired_row row) l.idempotency bound h.retired_seqs;
    unexpired =
        All-update_cases _ _ (has_id row.id) emptied l.tasks (λ r _ _ e. cc) unexpired_step
          (All-both _ _ l.tasks matches h.unexpired);
    expired =
        All-update_cases _ _ (has_id row.id) emptied l.tasks
          (λ r named p _. retired_step r named p.0 p.1.0 p.1.1) (λ r _ p e. IsKept-step r (p.1.1 e))
          (All-both _ _ l.tasks matches (All-both _ _ l.tasks h.unexpired h.expired));
    reservations_distinct = h.reservations_distinct;
    reserved =
        All-imp _ _ l.reservations
          (λ r e.
            ap is_some (find-retired r.task_id) ∙ is_some-map swapped (find_task r.task_id l) ∙ e)
          h.reserved;
    creations = kept_payload (λ r. r.task_id) l.sandbox_creations h.creations;
    supervisions = kept_payload (λ r. r.task_id) l.supervisions h.supervisions;
    publications = kept_payload (λ r. r.task_id) l.publications h.publications;
    receipts = kept_payload (λ r. r.task_id) l.receipts h.receipts;
    copies = kept_payload (λ r. r.task_id) l.event_copies h.copies;
    results = kept_payload (λ r. r.task_id) l.results h.results;
  }
