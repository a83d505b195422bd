-- ===== src/Ledger/Messages/Soundness.antt =====
-- The receipts keep the ledger sound.
use gg_agent_server.Prelude.{String, ◌≡◌, true, ◌==◌, Option-cases, Bool-cases, inl, inr}
use gg_agent_server.Result.{AfterOk, returned, raised}
use gg_agent_server.Table.Rows.{All-insert, All-update}
use gg_agent_server.Sdk.Domain.{MessageReceipt}
use gg_agent_server.Ledger.Rows.{Ledger}
use gg_agent_server.Ledger.Sandboxes.{has_payload}
use gg_agent_server.Ledger.Sandboxes.Soundness.{AfterOk-require_payload}
use gg_agent_server.Ledger.Messages.{
  is_receipt, find_receipt, renewed, upsert_receipt, save_task_message_receipt,
}
use gg_agent_server.Ledger.Soundness.{IsSound, KeepsSound, with_receipts}

upsert_receipt-IsSound :
    (id : String) (receipt : MessageReceipt) (l : Ledger)
    → has_payload id l ≡ true
    → IsSound l
    → AfterOk IsSound (upsert_receipt id receipt l)
unfolding upsert_receipt
upsert_receipt-IsSound id receipt l payload h = elim (Option-cases (find_receipt id receipt.id l)) [
  | inl e ↦
      rw (e, upsert_receipt)
        (returned (
          with_receipts h _ (
            All-insert _ (record { task_id = id; receipt = receipt }) l.receipts payload
              h.receipts)))
  | inr (saved, e) ↦ elim (Bool-cases (saved.receipt.content == receipt.content)) [
    | inl same ↦
        rw (e, same, upsert_receipt)
          (returned (
            with_receipts h _ (
              All-update _ (is_receipt id receipt.id) (renewed receipt) l.receipts (λ r _ p. p)
                h.receipts)))
    | inr other ↦ rw (e, other, upsert_receipt) raised
  ]
]

pub save_task_message_receipt-IsSound :
    (id : String) (receipt : MessageReceipt) → KeepsSound (save_task_message_receipt id receipt)
unfolding save_task_message_receipt
save_task_message_receipt-IsSound id receipt l h =
    AfterOk-require_payload id l _ λ payload. upsert_receipt-IsSound id receipt l payload h
