-- ===== src/Ledger/Soundness.antt =====
-- What holds of the ledger between two transactions: the constraints of the schema, and the rules
-- that the methods keep between the tables.
pub mod Updates
use gg_agent_server.Prelude.{
  ◌≤◌, ◌≡◌, Bool, true, false, some, List, ◌&&◌, ◌==◌, is_some, map_option, All,
}
use gg_agent_server.Result.{AfterOk}
use gg_agent_server.Table.{find_where}
use gg_agent_server.Table.Rows.{Distinct}
use gg_agent_server.Ledger.Rows.{
  EventCopy, TaskRow, ReservationRecord, SandboxCreationRecord, SupervisionRecord, ReceiptRow,
  TaskResultArchive, IdempotencyRow, Ledger, EventCounter, EventIdentity, SourceCursor,
}
use gg_agent_server.Sdk.Publication.{PublicationRecord}
use gg_agent_server.Ledger.Tasks.{Tx, same_task_key, find_task, in_scope}
use gg_agent_server.Ledger.Sandboxes.{has_payload}
use gg_agent_server.Ledger.Retention.{same_retired_key, retired_row, buries}

abbrev pub same_reservation : ReservationRecord → ReservationRecord → Bool
same_reservation a b = a.task_id == b.task_id

-- The row of `task_idempotency` has the owner and the key of the task.
abbrev pub shares_key : TaskRow → IdempotencyRow → Bool
shares_key row i = i.idempotency_key == row.idempotency_key && in_scope row.owner_id i.owner_id

-- Nothing stands in the way of retiring the task.
abbrev pub IsUnretired : Ledger → TaskRow → Type 0
IsUnretired l row =
    All (λ i. same_retired_key i (retired_row row) ≡ false) l.idempotency
    × All (λ t. buries row.id t ≡ false) l.tombstones

-- The key of the task is kept under the task's identifier.
abbrev pub IsKept : Ledger → TaskRow → Type 0
IsKept l row = map_option (λ i. i.task_id) (find_where (shares_key row) l.idempotency) ≡ some row.id

pub record IsSound (l : Ledger) : Type 0 where
  pub tasks_distinct : Distinct same_task_key l.tasks
  pub task_seqs : All (λ r. r.seq ≤ l.task_seq) l.tasks
  pub retired_seqs : All (λ r. r.seq ≤ l.task_seq) l.idempotency
  pub unexpired : All (λ r. r.payload_expired ≡ false → IsUnretired l r) l.tasks
  pub expired : All (λ r. r.payload_expired ≡ true → IsKept l r) l.tasks
  pub reservations_distinct : Distinct same_reservation l.reservations
  pub reserved : All (λ r. is_some (find_task r.task_id l) ≡ true) l.reservations
  pub creations : All (λ r. has_payload r.task_id l ≡ true) l.sandbox_creations
  pub supervisions : All (λ r. has_payload r.task_id l ≡ true) l.supervisions
  pub publications : All (λ r. has_payload r.task_id l ≡ true) l.publications
  pub receipts : All (λ r. has_payload r.task_id l ≡ true) l.receipts
  pub copies : All (λ r. has_payload r.task_id l ≡ true) l.event_copies
  pub results : All (λ r. has_payload r.task_id l ≡ true) l.results

-- One table is replaced.
module _ {l : Ledger} (h : IsSound l) where
  pub with_reservations :
      (rows : List ReservationRecord)
      → Distinct same_reservation rows
      → All (λ r. is_some (find_task r.task_id l) ≡ true) rows
      → IsSound (record l { reservations = rows })
  with_reservations rows d a = assumption

  pub with_creations :
      (rows : List SandboxCreationRecord)
      → All (λ r. has_payload r.task_id l ≡ true) rows
      → IsSound (record l { sandbox_creations = rows })
  with_creations rows a = assumption

  pub with_supervisions :
      (rows : List SupervisionRecord)
      → All (λ r. has_payload r.task_id l ≡ true) rows
      → IsSound (record l { supervisions = rows })
  with_supervisions rows a = assumption

  pub with_publications :
      (rows : List PublicationRecord)
      → All (λ r. has_payload r.task_id l ≡ true) rows
      → IsSound (record l { publications = rows })
  with_publications rows a = assumption

  pub with_receipts :
      (rows : List ReceiptRow)
      → All (λ r. has_payload r.task_id l ≡ true) rows
      → IsSound (record l { receipts = rows })
  with_receipts rows a = assumption

  pub with_results :
      (rows : List TaskResultArchive)
      → All (λ r. has_payload r.task_id l ≡ true) rows
      → IsSound (record l { results = rows })
  with_results rows a = assumption

  pub with_copies :
      (counters : List EventCounter) (identities : List EventIdentity) (rows : List EventCopy)
      → All (λ r. has_payload r.task_id l ≡ true) rows
      → IsSound (record l {
        event_counters = counters;
        event_identities = identities;
        event_copies = rows;
      })
  with_copies counters identities rows a = assumption

  pub with_source_cursors :
      (rows : List SourceCursor) → IsSound (record l { source_cursors = rows })
  with_source_cursors rows = assumption

-- The body of the transaction keeps the ledger sound.
abbrev pub KeepsSound : {A : Type 0} → Tx A → Type 0
KeepsSound body = (l : Ledger) → IsSound l → AfterOk IsSound (body l)
