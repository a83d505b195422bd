-- ===== src/Ledger/Retention/Purge.antt =====
-- `purge_expired_tombstones`: no foreign key stands in its way, and the ledger stays sound.
use gg_agent_server.Prelude.{
  ℕ, String, ◌≡◌, refl, ap, ◌∙◌, true, false, inl, inr, Option, none, some, List, [], ◌∷◌, arith,
  ◌==◌, eq_iff, is_some, length, Bool-cases, Option-cases, All,
}
use gg_agent_server.Result.{ok}
use gg_agent_server.Table.{find_where, select_where, delete_where}
use gg_agent_server.Table.Find.{find_where_test, find_where_All, find-delete_other}
use gg_agent_server.Table.Rows.{
  All-imp, All-both, All-delete, All-select_test, All-of_find_none, find-none_of_All, Distinct,
  Distinct-delete, delete-none,
}
use gg_agent_server.Ledger.Rows.{TaskRow, RetentionTombstone, Ledger}
use gg_agent_server.Ledger.Tasks.{has_id, find_task, same_task_key}
use gg_agent_server.Ledger.Reservations.{reserves, is_reserved}
use gg_agent_server.Ledger.Sandboxes.{payload_of, has_payload}
use gg_agent_server.Ledger.Retention.{
  buries, is_referenced, has_id_expired, delete_expired_task, is_purgeable, purge, purge_all,
  purge_expired_tombstones,
}
use gg_agent_server.Ledger.Soundness.{IsUnretired, IsSound}

-- With distinct keys, the task of the identifier is the expired one.
expired_unique :
    (id : String) (rows : List TaskRow) {r : TaskRow}
    → Distinct same_task_key rows
    → find_where (has_id_expired id) rows ≡ some r
    → payload_of (find_where (has_id id) rows) ≡ false
unfolding find_where
expired_unique id [] d e = cc
expired_unique id (s ∷ rows) {r} d e = elim (Bool-cases (s.id == id)) [
  | inl named ↦ elim (Bool-cases s.payload_expired) [
    | inl gone ↦ rw named (rw gone refl)
    | inr kept ↦
        let found : find_where (has_id_expired id) rows ≡ some r =
          rw (named, kept, find_where) at e in
        let apart =
          find_where_All (λ t. same_task_key s t ≡ false) (has_id_expired id) rows d.0 found in
        let test = find_where_test (has_id_expired id) rows found in
        ground (arith, eq_iff r.id id, eq_iff s.id id, eq_iff s.id r.id)
  ]
  | inr other ↦
      let found : find_where (has_id_expired id) rows ≡ some r = rw (other, find_where) at e in
      rw other (expired_unique id rows d.1 found)
]

is_some-false : {A : Type 0} (o : Option A) → is_some o ≡ false → o ≡ none
is_some-false none h = refl
is_some-false (some a) h = cc

-- No row of a table of payloads refers to a task without one.
unreferenced :
    {R : Type 0} (key : R → String) (id : String) (l : Ledger) (rows : List R)
    → has_payload id l ≡ false
    → All (λ r. has_payload (key r) l ≡ true) rows
    → find_where (λ r. key r == id) rows ≡ none
unreferenced key id l rows gone a =
    find-none_of_All (λ r. key r == id) rows
      (All-imp _ (λ r. (key r == id) ≡ false) rows
        (λ r p. elim (Bool-cases (key r == id)) [
          | inl e ↦ cc (rw ((eq_iff (key r) id).0 e) at p)
          | inr e ↦ e
        ])
        a)

module _ (id : String) (l : Ledger) (h : IsSound l) (free : is_reserved l id ≡ false) where
  not-referenced : has_payload id l ≡ false → is_referenced id l ≡ false
  unfolding is_referenced
  not-referenced gone =
      rw
        (
          unreferenced (λ r. r.task_id) id l l.sandbox_creations gone h.creations,
          unreferenced (λ r. r.task_id) id l l.supervisions gone h.supervisions,
          unreferenced (λ r. r.task_id) id l l.publications gone h.publications,
          unreferenced (λ r. r.task_id) id l l.receipts gone h.receipts,
          unreferenced (λ r. r.task_id) id l l.event_copies gone h.copies,
          unreferenced (λ r. r.task_id) id l l.results gone h.results,
        )
        (rw free)

  -- Without the expired task the other tables refer to the same tasks.
  module _ (gone : has_payload id l ≡ false) where
    abbrev deleted : Ledger
    deleted = record l { tasks = delete_where (has_id_expired id) l.tasks }

    find-deleted : (j : String) → (j == id) ≡ false → find_task j deleted ≡ find_task j l
    find-deleted j other =
        find-delete_other (has_id_expired id) (has_id j) l.tasks
          λ r named. let kept : (r.id == id) ≡ false = rw ((eq_iff r.id j).0 named) other in rw kept

    not-payload : (j : String) → has_payload j l ≡ true → (j == id) ≡ false
    not-payload j p = elim (Bool-cases (j == id)) [
      | inl e ↦ cc (rw ((eq_iff j id).0 e) at p)
      | inr e ↦ e
    ]

    still_payload :
        {R : Type 0} (key : R → String) (rows : List R)
        → All (λ r. has_payload (key r) l ≡ true) rows
        → All (λ r. has_payload (key r) deleted ≡ true) rows
    still_payload key rows a =
        All-imp _ _ rows (λ r p. ap payload_of (find-deleted (key r) (not-payload (key r) p)) ∙ p) a

    deleted-IsSound : IsSound deleted
    deleted-IsSound = record {
      tasks_distinct = Distinct-delete same_task_key (has_id_expired id) l.tasks h.tasks_distinct;
      task_seqs = All-delete _ (has_id_expired id) l.tasks h.task_seqs;
      retired_seqs = h.retired_seqs;
      unexpired = All-delete _ (has_id_expired id) l.tasks h.unexpired;
      expired = All-delete _ (has_id_expired id) l.tasks h.expired;
      reservations_distinct = h.reservations_distinct;
      reserved =
          All-imp _ _ l.reservations (λ r p. ap is_some (find-deleted r.task_id p.0) ∙ p.1)
            (All-both _ _ l.reservations
              (All-of_find_none (reserves id) l.reservations (is_some-false _ free)) h.reserved);
      creations = still_payload (λ r. r.task_id) l.sandbox_creations h.creations;
      supervisions = still_payload (λ r. r.task_id) l.supervisions h.supervisions;
      publications = still_payload (λ r. r.task_id) l.publications h.publications;
      receipts = still_payload (λ r. r.task_id) l.receipts h.receipts;
      copies = still_payload (λ r. r.task_id) l.event_copies h.copies;
      results = still_payload (λ r. r.task_id) l.results h.results;
    }

  delete_expired_task_lem :
      (delete_expired_task id l
        ≡ ok (record l { tasks = delete_where (has_id_expired id) l.tasks }))
      × IsSound (record l { tasks = delete_where (has_id_expired id) l.tasks })
  unfolding delete_expired_task
  delete_expired_task_lem = elim (Option-cases (find_where (has_id_expired id) l.tasks)) [
    | inl e ↦ (
      rw (e, delete_expired_task) refl,
      rw (delete-none (has_id_expired id) l.tasks (All-of_find_none (has_id_expired id) l.tasks e))
          h,
    )
    | inr (r, e) ↦
        let gone = expired_unique id l.tasks h.tasks_distinct e in
        (rw (e, delete_expired_task) (rw (not-referenced gone) refl), deleted-IsSound gone)
  ]

buried-IsSound :
    (id : String) (l : Ledger)
    → IsSound l
    → IsSound (record l { tombstones = delete_where (buries id) l.tombstones })
buried-IsSound id l h =
    let unexpired =
      All-imp _
        (λ r.
          r.payload_expired ≡ false
          → IsUnretired (record l { tombstones = delete_where (buries id) l.tombstones }) r)
        l.tasks (λ r p e. ((p e).0, All-delete _ (buries id) l.tombstones ((p e).1))) h.unexpired in
    assumption

purged_ledger : RetentionTombstone → Ledger → Ledger
purged_ledger t l = record l {
  tombstones = delete_where (buries t.task_id) l.tombstones;
  tasks = delete_where (has_id_expired t.task_id) l.tasks;
}

purge_lem :
    (t : RetentionTombstone) (l : Ledger)
    → IsSound l
    → is_reserved l t.task_id ≡ false
    → (purge t l ≡ ok (purged_ledger t l)) × IsSound (purged_ledger t l)
unfolding purge purged_ledger
purge_lem t l h free =
    delete_expired_task_lem t.task_id
      (record l { tombstones = delete_where (buries t.task_id) l.tombstones })
      (buried-IsSound t.task_id l h) free

purged_all : List RetentionTombstone → Ledger → Ledger
purged_all [] l = l
purged_all (t ∷ rows) l = purged_all rows (purged_ledger t l)

purge_all_lem :
    (rows : List RetentionTombstone) (l : Ledger)
    → IsSound l
    → All (λ t. is_reserved l t.task_id ≡ false) rows
    → (purge_all rows l ≡ ok (purged_all rows l)) × IsSound (purged_all rows l)
unfolding purge_all purged_all purged_ledger
purge_all_lem [] l h free = (refl, h)
purge_all_lem (t ∷ rows) l h free =
    let (done, sound) = purge_lem t l h free.0 in
    let (rest, final) = purge_all_lem rows (purged_ledger t l) sound free.1 in (rw done rest, final)

find-purged :
    (t : RetentionTombstone) (l : Ledger) (id : String)
    → IsSound l
    → is_reserved l t.task_id ≡ false
    → has_payload id l ≡ true
    → find_task id (purged_ledger t l) ≡ find_task id l
unfolding purged_ledger
find-purged t l id h free payload =
    elim (Option-cases (find_where (has_id_expired t.task_id) l.tasks)) [
      | inl e ↦ ap (find_where (has_id id)) (
          delete-none (has_id_expired t.task_id) l.tasks
            (All-of_find_none (has_id_expired t.task_id) l.tasks e))
      | inr (r, e) ↦
          let gone = expired_unique t.task_id l.tasks h.tasks_distinct e in
          find-deleted t.task_id l h free gone id (not-payload t.task_id l h free gone id payload)
    ]

find-purged_all :
    (rows : List RetentionTombstone) (l : Ledger) (id : String)
    → IsSound l
    → All (λ t. is_reserved l t.task_id ≡ false) rows
    → has_payload id l ≡ true
    → find_task id (purged_all rows l) ≡ find_task id l
unfolding purged_all purged_ledger
find-purged_all [] l id h free payload = refl
find-purged_all (t ∷ rows) l id h free payload =
    let same = find-purged t l id h free.0 payload in
    find-purged_all rows (purged_ledger t l) id ((purge_lem t l h free.0).1) free.1
      (ap payload_of same ∙ payload)
    ∙ same

idempotency-purged_all :
    (rows : List RetentionTombstone) (l : Ledger)
    → ((purged_all rows l).idempotency ≡ l.idempotency)
      × ((purged_all rows l).reservations ≡ l.reservations)
unfolding purged_all purged_ledger
idempotency-purged_all [] l = (refl, refl)
idempotency-purged_all (t ∷ rows) l = idempotency-purged_all rows (purged_ledger t l)

-- From a sound ledger the purge never raises and leaves the ledger sound. A task with a payload
-- stays as it is, and so do all kept keys and all reservations.
pub purge_expired_tombstones_lem :
    (before : ℕ) (l : Ledger)
    → IsSound l
    → (l' : Ledger) × (purge_expired_tombstones before l
        ≡ ok (length (select_where (is_purgeable before l) l.tombstones), l'))
      × IsSound l'
      × ((id : String) → has_payload id l ≡ true → find_task id l' ≡ find_task id l)
      × (l'.idempotency ≡ l.idempotency)
      × (l'.reservations ≡ l.reservations)
unfolding purge_expired_tombstones
purge_expired_tombstones_lem before l h =
    let rows = select_where (is_purgeable before l) l.tombstones in
    let free =
      All-imp _ (λ t. is_reserved l t.task_id ≡ false) rows (λ t e. ground arith)
        (All-select_test (is_purgeable before l) l.tombstones) in
    let (done, sound) = purge_all_lem rows l h free in
    let (kept, reserved) = idempotency-purged_all rows l in
    (
      purged_all rows l,
      rw done,
      sound,
      λ id payload. find-purged_all rows l id h free payload,
      kept,
      reserved,
    )
