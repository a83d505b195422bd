-- ===== src/Ledger/Tasks/Soundness.antt =====
-- Admission keeps the ledger sound.
use gg_agent_server.Prelude.{
  ℕ, suc, ◌≤◌, String, ◌≡◌, refl, true, false, Option, none, some, List, [], ◌∷◌, ◌==◌, is_some,
  coalesce, All, arith, Option-cases, inl, inr,
}
use gg_agent_server.Result.{AfterOk, AfterOk-bind, returned, after_ok}
use gg_agent_server.Table.{find_where, insert_row, insert_unique}
use gg_agent_server.Table.Find.{find-insert}
use gg_agent_server.Table.Rows.{
  All-insert, All-imp, All-of_find_none, insert_unique-eq-ok, Distinct-insert,
}
use gg_agent_server.Ledger.Rows.{TaskRow, IdempotencyRow, Ledger}
use gg_agent_server.Ledger.Tasks.{
  Submission, has_id, submitted_row, same_task_key, is_submitted, is_retired, admit, submit,
  record_base_sha,
}
use gg_agent_server.Ledger.Sandboxes.{payload_of, has_payload}
use gg_agent_server.Ledger.Retention.{same_retired_key, retired_row, buries}
use gg_agent_server.Ledger.Soundness.{IsSound, KeepsSound}
use gg_agent_server.Ledger.Soundness.Updates.{keep_all, update_task-IsSound}

-- What `uuid4` promises: the identifier was not drawn before.
abbrev pub IsFreshId : String → Ledger → Type 0
IsFreshId id l =
    All (λ i. (i.task_id == id) ≡ false) l.idempotency × All (λ t. buries id t ≡ false) l.tombstones

is_some-coalesce : {A : Type 0} (o p : Option A) → is_some o ≡ true → is_some (coalesce o p) ≡ true
is_some-coalesce none p h = cc
is_some-coalesce (some a) p h = refl

payload-coalesce : (o p : Option TaskRow) → payload_of o ≡ true → payload_of (coalesce o p) ≡ true
payload-coalesce none p h = cc
payload-coalesce (some a) p h = h

-- A row of a key that no retired task has does not clash with them.
unretired_new :
    (s : Submission) (now : ℕ) (id : String) (seq : ℕ) (rows : List IdempotencyRow)
    → All (λ i. (i.task_id == id) ≡ false) rows
    → All (λ i. is_retired s i ≡ false) rows
    → All (λ i. suc i.seq ≤ seq) rows
    → All (λ i. same_retired_key i (retired_row (submitted_row s now id seq)) ≡ false) rows
unretired_new s now id seq [] a b c = tt
unretired_new s now id seq (i ∷ rows) a b c =
    (rw (a.0, b.0) (ground (arith, c.0)), unretired_new s now id seq rows a.1 b.1 c.1)

module _ (s : Submission) (now : ℕ) (id : String) (l : Ledger) where
  row : TaskRow
  row = submitted_row s now id (suc l.task_seq)

  admitted : Ledger
  unfolding row
  admitted = record l { task_seq = suc l.task_seq; tasks = insert_row row l.tasks }

  still_payload :
      {R : Type 0} (key : R → String) (rows : List R)
      → All (λ r. has_payload (key r) l ≡ true) rows
      → All (λ r. has_payload (key r) admitted ≡ true) rows
  unfolding admitted
  still_payload key rows a =
      All-imp _ _ rows
        (λ r e. rw (find-insert (has_id (key r)) row l.tasks) (payload-coalesce _ _ e)) a

  admitted-IsSound :
      find_where (λ old. same_task_key old row) l.tasks ≡ none
      → find_where (is_retired s) l.idempotency ≡ none
      → IsFreshId id l
      → IsSound l
      → IsSound admitted
  unfolding admitted
  admitted-IsSound unique unretired fresh h = record {
    tasks_distinct =
        Distinct-insert same_task_key row l.tasks (All-of_find_none _ l.tasks unique)
          h.tasks_distinct;
    task_seqs =
        All-insert _ row l.tasks (omega arith)
          (All-imp _ _ l.tasks (λ r p. omega arith) h.task_seqs);
    retired_seqs = All-imp _ _ l.idempotency (λ r p. omega arith) h.retired_seqs;
    unexpired =
        All-insert _ row l.tasks
          (λ _. (
            unretired_new s now id (suc l.task_seq) l.idempotency fresh.0
                (All-of_find_none _ l.idempotency unretired)
                (All-imp _ _ l.idempotency (λ r p. omega arith) h.retired_seqs),
            fresh.1,
          ))
          h.unexpired;
    expired = All-insert _ row l.tasks (λ e. cc) h.expired;
    reservations_distinct = h.reservations_distinct;
    reserved =
        All-imp _ _ l.reservations
          (λ r e. rw (find-insert (has_id r.task_id) row l.tasks) (is_some-coalesce _ _ e))
          h.reserved;
    creations = still_payload (λ r. r.task_id) l.sandbox_creations h.creations;
    supervisions = still_payload (λ r. r.task_id) l.supervisions h.supervisions;
    publications = still_payload (λ r. r.task_id) l.publications h.publications;
    receipts = still_payload (λ r. r.task_id) l.receipts h.receipts;
    copies = still_payload (λ r. r.task_id) l.event_copies h.copies;
    results = still_payload (λ r. r.task_id) l.results h.results;
  }

  admit-IsSound :
      find_where (is_retired s) l.idempotency ≡ none
      → IsFreshId id l
      → IsSound l
      → AfterOk IsSound (admit s now id l)
  unfolding admit admitted row
  admit-IsSound unretired fresh h =
      AfterOk-bind (insert_unique (λ old. same_task_key old row) row l.tasks) _ λ rows inserted.
        let (unique, e) = insert_unique-eq-ok (λ old. same_task_key old row) row l.tasks inserted in
        rw (← e) (returned (admitted-IsSound unique unretired fresh h))

-- A task that `submit` admits has an identifier that was not drawn before.
pub submit-IsSound :
    (s : Submission) (now : ℕ) (id : String) (l : Ledger)
    → IsFreshId id l
    → IsSound l
    → AfterOk IsSound (submit s now id l)
unfolding submit
submit-IsSound s now id l fresh h = elim (Option-cases (find_where (is_submitted s) l.tasks)) [
  | inl e ↦ elim (Option-cases (find_where (is_retired s) l.idempotency)) [
    | inl unretired ↦ rw (e, unretired, submit) (admit-IsSound s now id l unretired fresh h)
    | inr (row, f) ↦ rw (e, f, submit) (returned h)
  ]
  | inr (row, e) ↦ rw (e, submit) (returned h)
]

pub record_base_sha-IsSound :
    (id base_sha : String) (now : ℕ) → KeepsSound (record_base_sha id base_sha now)
unfolding record_base_sha
record_base_sha-IsSound id base_sha now l h =
    let sound =
      update_task-IsSound id (λ row. record row { base_sha = some base_sha; updated_at = now }) l
        keep_all h in
    search (after_ok, sound)
