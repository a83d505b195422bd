-- ===== src/Ledger/Soundness/Updates.antt =====
-- Changes of tasks that leave their keys alone keep the ledger sound.
use gg_agent_server.Prelude.{
  String, ◌≡◌, refl, sym, ◌∙◌, Bool, true, false, Option, none, some, List, is_some, map_option,
  All, arith, if◌then◌else◌,
}
use gg_agent_server.Table.{update_where}
use gg_agent_server.Table.Find.{find-update}
use gg_agent_server.Table.Rows.{All-update, All-imp, Distinct-update}
use gg_agent_server.Ledger.Rows.{TaskRow, Ledger}
use gg_agent_server.Ledger.Tasks.{has_id, find_task, update_task, same_task_key}
use gg_agent_server.Ledger.Sandboxes.{payload_of, has_payload}
use gg_agent_server.Ledger.Soundness.{IsUnretired, IsKept, IsSound}

-- The columns by which the tables refer to a task, and its expiry.
abbrev pub KeepsKeys : TaskRow → TaskRow → Type 0
KeepsKeys r r' =
    (r'.id ≡ r.id)
    × (r'.seq ≡ r.seq)
    × (r'.idempotency_key ≡ r.idempotency_key)
    × (r'.owner_id ≡ r.owner_id)
    × (r'.payload_expired ≡ r.payload_expired)

-- A change that computes to the same keys.
pub keep_all : (r : TaskRow) → KeepsKeys r r
keep_all r = (refl, refl, refl, refl, refl)

is_some-map : {A B : Type 0} (f : A → B) (o : Option A) → is_some (map_option f o) ≡ is_some o
is_some-map f none = refl
is_some-map f (some a) = refl

module _ (test : TaskRow → Bool) (change : TaskRow → TaskRow)
    (keep : (r : TaskRow) → KeepsKeys r (change r)) where
  same_left : (r s : TaskRow) → same_task_key (change r) s ≡ same_task_key r s
  same_left r s = let k = keep r in rw (k.0, k.1, k.2, k.3)

  same_right : (r s : TaskRow) → same_task_key r (change s) ≡ same_task_key r s
  same_right r s = let k = keep s in rw (k.0, k.1, k.2, k.3)

  module _ (l : Ledger) where
    abbrev changed : Ledger
    changed = record l { tasks = update_where test change l.tasks }

    pub find-changed :
        (id : String)
        → find_task id changed ≡ map_option (λ r. if test r then change r else r) (find_task id l)
    find-changed id = find-update test (has_id id) change l.tasks (λ r. rw ((keep r).0))

    pub is_some-changed : (id : String) → is_some (find_task id changed) ≡ is_some (find_task id l)
    is_some-changed id = rw (find-changed id) (is_some-map _ (find_task id l))

    payload-changed :
        (o : Option TaskRow)
        → payload_of (map_option (λ r. if test r then change r else r) o) ≡ payload_of o
    payload-changed none = refl
    payload-changed (some r) = ground (arith, keep r)

    pub has_payload-changed : (id : String) → has_payload id changed ≡ has_payload id l
    has_payload-changed id = rw (find-changed id) (payload-changed (find_task id l))

    unexpired_step :
        (r : TaskRow)
        → (r.payload_expired ≡ false → IsUnretired l r)
        → (change r).payload_expired ≡ false
        → IsUnretired l (change r)
    unexpired_step r h e = let k = keep r in rw (k.0, k.1, k.2, k.3) (h (sym (k.4) ∙ e))

    expired_step :
        (r : TaskRow)
        → (r.payload_expired ≡ true → IsKept l r)
        → (change r).payload_expired ≡ true
        → IsKept l (change r)
    expired_step r h e = let k = keep r in rw (k.0, k.2, k.3) (h (sym (k.4) ∙ e))

    still_payload :
        {R : Type 0} (key : R → String) (rows : List R)
        → All (λ r. has_payload (key r) l ≡ true) rows
        → All (λ r. has_payload (key r) changed ≡ true) rows
    still_payload key rows a = All-imp _ _ rows (λ r e. has_payload-changed (key r) ∙ e) a

    pub changed-IsSound : IsSound l → IsSound changed
    changed-IsSound h = record {
      tasks_distinct =
          Distinct-update same_task_key test change same_left same_right l.tasks h.tasks_distinct;
      task_seqs = All-update _ test change l.tasks (λ r _ p. rw ((keep r).1) p) h.task_seqs;
      retired_seqs = h.retired_seqs;
      unexpired = All-update _ test change l.tasks (λ r _ p. unexpired_step r p) h.unexpired;
      expired = All-update _ test change l.tasks (λ r _ p. expired_step r p) h.expired;
      reservations_distinct = h.reservations_distinct;
      reserved = All-imp _ _ l.reservations (λ r e. is_some-changed r.task_id ∙ e) h.reserved;
      creations = still_payload (λ r. r.task_id) l.sandbox_creations h.creations;
      supervisions = still_payload (λ r. r.task_id) l.supervisions h.supervisions;
      publications = still_payload (λ r. r.task_id) l.publications h.publications;
      receipts = still_payload (λ r. r.task_id) l.receipts h.receipts;
      copies = still_payload (λ r. r.task_id) l.event_copies h.copies;
      results = still_payload (λ r. r.task_id) l.results h.results;
    }

-- UPDATE tasks … WHERE id = ?, by a change of other columns.
pub update_task-IsSound :
    (id : String) (change : TaskRow → TaskRow) (l : Ledger)
    → ((r : TaskRow) → KeepsKeys r (change r))
    → IsSound l
    → IsSound (update_task id change l)
update_task-IsSound id change l keep h = changed-IsSound (has_id id) change keep l h
