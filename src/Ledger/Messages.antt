-- ===== src/Ledger/Messages.antt =====
-- `TaskLedger`: the receipts of messages to a task.
pub mod Soundness
pub mod Accepted
mod Examples
pub mod Saved
use gg_agent_server.Prelude.{
  ℕ, String, Bool, ◌&&◌, ◌||◌, not, Option, none, some, List, map, ltb, leb, nat_eq, text_leb, ◌==◌,
  is_some, map_option, if◌then◌else◌,
}
use gg_agent_server.Result.{Result, ok, err, runtime_error, ◌>>=◌, ◌>>◌}
use gg_agent_server.Table.{find_where, select_where, update_where, order_by, insert_row}
use gg_agent_server.Sdk.Domain.{MessageReceipt, is_accepted}
use gg_agent_server.Ledger.Rows.{ReceiptRow, Ledger}
use gg_agent_server.Ledger.Tasks.{Tx}
use gg_agent_server.Ledger.Sandboxes.{require_payload}

-- The primary key of `task_message_receipts`.
abbrev pub is_receipt : String → String → ReceiptRow → Bool
is_receipt task_id message_id r = r.task_id == task_id && r.receipt.id == message_id

abbrev pub find_receipt : String → String → Ledger → Option ReceiptRow
find_receipt task_id message_id l = find_where (is_receipt task_id message_id) l.receipts

-- ON CONFLICT DO UPDATE: the time of creation stays.
abbrev pub renewed : MessageReceipt → ReceiptRow → ReceiptRow
renewed receipt r = record r {
  receipt = record r.receipt {
    content = receipt.content;
    status = receipt.status;
    detail = receipt.detail;
    updated_at = receipt.updated_at;
  };
}

-- The upsert: where the contents differ no row is written, and `rowcount` is not 1.
pub upsert_receipt : String → MessageReceipt → Tx (Unit {0})
upsert_receipt task_id receipt l = elim (find_receipt task_id receipt.id l) [
  | none ↦ ok (
    tt,
    record l { receipts = insert_row (record { task_id = task_id; receipt = receipt }) l.receipts },
  )
  | some saved ↦
      if saved.receipt.content == receipt.content
      then ok (
        tt,
        record l {
          receipts = update_where (is_receipt task_id receipt.id) (renewed receipt) l.receipts;
        },
      )
      else err runtime_error
]

pub save_task_message_receipt : String → MessageReceipt → Tx (Unit {0})
save_task_message_receipt task_id receipt l = do
  require_payload task_id l
  upsert_receipt task_id receipt l

pub get_task_message_receipt : String → String → Ledger → Option MessageReceipt
get_task_message_receipt task_id message_id l =
    map_option (λ r. r.receipt) (find_receipt task_id message_id l)

-- ORDER BY created_at, message_id
abbrev pub receipt_before : ReceiptRow → ReceiptRow → Bool
receipt_before a b =
    ltb a.receipt.created_at b.receipt.created_at
    || nat_eq a.receipt.created_at b.receipt.created_at && text_leb a.receipt.id b.receipt.id

pub list_task_message_receipts : String → Ledger → List MessageReceipt
list_task_message_receipts task_id l =
    map (λ (r : ReceiptRow). r.receipt)
      (order_by receipt_before (select_where (λ r. r.task_id == task_id) l.receipts))

pub list_accepted_task_messages : String → Ledger → List MessageReceipt
list_accepted_task_messages task_id l =
    select_where (λ receipt. is_accepted receipt.status) (list_task_message_receipts task_id l)
