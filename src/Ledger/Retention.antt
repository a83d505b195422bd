-- ===== src/Ledger/Retention.antt =====
-- `TaskLedger`: expiry of the payloads of terminal tasks, and the purge of their tombstones.
mod Keys
mod Retire
pub mod Expiry
pub mod Purge
pub mod Soundness
pub mod Examples
use gg_agent_server.Prelude.{
  ℕ, ◌+◌, String, Bool, true, not, ◌&&◌, ◌||◌, none, List, [], ◌∷◌, length, ltb, nat_eq, ◌==◌,
  is_some, map_option, if◌then◌else◌,
}
use gg_agent_server.Result.{Result, ok, err, integrity_error, ◌>>=◌}
use gg_agent_server.Table.{find_where, select_where, delete_where, insert_unique}
use gg_agent_server.Sdk.Publication.{PublicationRecord}
use gg_agent_server.Ledger.Rows.{
  TaskRow, ReceiptRow, EventCopy, RemoteEffect, RetentionTombstone, IdempotencyRow, Ledger,
}
use gg_agent_server.Ledger.Tasks.{Tx, has_id, update_task, in_scope}
use gg_agent_server.Ledger.Reservations.{is_reserved, is_terminal, reserves}
use gg_agent_server.Ledger.Sandboxes.{creates}
use gg_agent_server.Ledger.Publications.{publishes, get_publication}
use gg_agent_server.Ledger.Supervisions.{supervises}
use gg_agent_server.Ledger.Results.{archives}

-- A terminal task with a payload that is older than the cutoff and holds no reservation.
abbrev pub is_retirable : ℕ → Ledger → TaskRow → Bool
is_retirable before l row =
    is_terminal row.state
    && not row.payload_expired
    && ltb row.updated_at before
    && not (is_reserved l row.id)

abbrev pub remote_effect : PublicationRecord → RemoteEffect
remote_effect p = record {
  pr_number = p.pr_number;
  pr_url = p.pr_url;
  pr_state = p.pr_state;
  state = p.state;
}

abbrev pub tombstone : TaskRow → ℕ → Ledger → RetentionTombstone
tombstone row expires l = record {
  task_id = row.id;
  remote_effect = map_option remote_effect (get_publication row.id l);
  expires_at = expires;
}

abbrev pub retired_row : TaskRow → IdempotencyRow
retired_row row = record {
  task_id = row.id;
  owner_id = row.owner_id;
  idempotency_key = row.idempotency_key;
  seq = row.seq;
  terminal_state = row.state;
  model = row.model;
  created_at = row.created_at;
  updated_at = row.updated_at;
}

-- The primary key, `seq`, and the two unique indexes of `task_idempotency`.
abbrev pub same_retired_key : IdempotencyRow → IdempotencyRow → Bool
same_retired_key a b =
    a.task_id == b.task_id
    || nat_eq a.seq b.seq
    || a.idempotency_key == b.idempotency_key && in_scope b.owner_id a.owner_id

abbrev pub buries : String → RetentionTombstone → Bool
buries task_id r = r.task_id == task_id

abbrev pub receipt_of : String → ReceiptRow → Bool
receipt_of task_id r = r.task_id == task_id

abbrev pub copy_of : String → EventCopy → Bool
copy_of task_id r = r.task_id == task_id

-- The loop over the six tables. Counters, identities and source cursors of events stay.
pub delete_payload : String → Ledger → Ledger
delete_payload task_id l = record l {
  event_copies = delete_where (copy_of task_id) l.event_copies;
  receipts = delete_where (receipt_of task_id) l.receipts;
  results = delete_where (archives task_id) l.results;
  supervisions = delete_where (supervises task_id) l.supervisions;
  sandbox_creations = delete_where (creates task_id) l.sandbox_creations;
  publications = delete_where (publishes task_id) l.publications;
}

abbrev pub emptied : TaskRow → TaskRow
emptied row = record row {
  payload_expired = true;
  prompt = "";
  repository = "";
  base_ref = none;
  base_sha = none;
  retry_of = none;
  outcome_detail = none;
  check_status = none;
}

-- The body of the loop of `expire_terminal_payloads`.
pub retire : ℕ → TaskRow → Ledger → Result Ledger
retire expires row l = do
  tombstones ← insert_unique (buries row.id) (tombstone row expires l) l.tombstones
  idempotency ←
      insert_unique (λ old. same_retired_key old (retired_row row)) (retired_row row) l.idempotency
  ok (
      update_task row.id emptied
        (delete_payload row.id (record l { tombstones = tombstones; idempotency = idempotency })))

pub retire_all : ℕ → List TaskRow → Ledger → Result Ledger
retire_all expires [] l = ok l
retire_all expires (row ∷ rows) l = do l' ← retire expires row l; retire_all expires rows l'

pub expire_terminal_payloads : ℕ → ℕ → ℕ → Tx ℕ
expire_terminal_payloads before tombstone_retention now l =
    let rows = select_where (is_retirable before l) l.tasks in
    do l' ← retire_all (now + tombstone_retention) rows l; ok (length rows, l')

-- The row of a task is referenced by a foreign key.
pub is_referenced : String → Ledger → Bool
is_referenced task_id l =
    is_some (find_where (reserves task_id) l.reservations)
    || is_some (find_where (creates task_id) l.sandbox_creations)
    || is_some (find_where (supervises task_id) l.supervisions)
    || is_some (find_where (publishes task_id) l.publications)
    || is_some (find_where (receipt_of task_id) l.receipts)
    || is_some (find_where (copy_of task_id) l.event_copies)
    || is_some (find_where (archives task_id) l.results)

abbrev pub has_id_expired : String → TaskRow → Bool
has_id_expired task_id row = has_id task_id row && row.payload_expired

-- DELETE FROM tasks WHERE id = ? AND payload_expired = 1, under the foreign keys.
pub delete_expired_task : String → Ledger → Result Ledger
delete_expired_task task_id l =
    if is_some (find_where (has_id_expired task_id) l.tasks) && is_referenced task_id l
    then err integrity_error
    else ok (record l { tasks = delete_where (has_id_expired task_id) l.tasks })

-- A tombstone that is older than the cutoff, of a task that holds no reservation.
abbrev pub is_purgeable : ℕ → Ledger → RetentionTombstone → Bool
is_purgeable before l r = ltb r.expires_at before && not (is_reserved l r.task_id)

-- The body of the loop of `purge_expired_tombstones`.
pub purge : RetentionTombstone → Ledger → Result Ledger
purge r l =
    delete_expired_task r.task_id
      (record l { tombstones = delete_where (buries r.task_id) l.tombstones })

pub purge_all : List RetentionTombstone → Ledger → Result Ledger
purge_all [] l = ok l
purge_all (r ∷ rows) l = do l' ← purge r l; purge_all rows l'

pub purge_expired_tombstones : ℕ → Tx ℕ
purge_expired_tombstones before l =
    let rows = select_where (is_purgeable before l) l.tombstones in
    do l' ← purge_all rows l; ok (length rows, l')
