-- ===== src/Ledger/Messages/Examples.antt =====
-- An example of a receipt.
use gg_agent_server.Prelude.{ℕ, String, ◌≡◌, refl, none, some, [], ◌∷◌}
use gg_agent_server.Result.{ok, err, runtime_error}
use gg_agent_server.Table.{find_where}
use gg_agent_server.Sdk.Tasks.{TaskState}
use gg_agent_server.Sdk.Domain.{MessageDeliveryStatus, MessageReceipt}
use gg_agent_server.Ledger.Rows.{Ledger}
use gg_agent_server.Ledger.Samples.{ledger_of}
use gg_agent_server.Ledger.Sandboxes.Soundness.{require_payload-ok}
use gg_agent_server.Ledger.Messages.{
  upsert_receipt, save_task_message_receipt, get_task_message_receipt,
}
use gg_agent_server.Ledger.Messages.Saved.{save_task_message_receipt-get}

abbrev receipt_with : String → MessageReceipt
receipt_with content = record {
  id = "message";
  content = content;
  status = MessageDeliveryStatus.accepted;
  detail = none;
  created_at = 5;
  updated_at = 5;
}

abbrev saved : Ledger
saved = record (ledger_of TaskState.idle) {
  receipts = record { task_id = "a"; receipt = receipt_with "go on" } ∷ [];
}

saves :
    save_task_message_receipt "a" (receipt_with "go on") (ledger_of TaskState.idle) ≡ ok (tt, saved)
unfolding save_task_message_receipt upsert_receipt find_where
saves = rw (require_payload-ok "a" (ledger_of TaskState.idle) refl) refl

save_task_message_receipt-get_example :
    (created : ℕ) × (get_task_message_receipt "a" "message" saved
      ≡ some (record (receipt_with "go on") { created_at = created }))
    × (save_task_message_receipt "a" (receipt_with "stop") saved ≡ err runtime_error)
save_task_message_receipt-get_example =
    save_task_message_receipt-get "a" (receipt_with "go on") (ledger_of TaskState.idle)
      (receipt_with "stop") saves refl refl
