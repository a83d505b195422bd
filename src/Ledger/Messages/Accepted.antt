-- ===== src/Ledger/Messages/Accepted.antt =====
-- The accepted messages of a task, as `list_accepted_task_messages` and `try_mark_sleeping` of
-- backend/gg/runtime/ledger.py see them.
use gg_agent_server.Prelude.{String, ◌≡◌, refl, false, none, List, [], ◌∷◌, ◌==◌, map, All}
use gg_agent_server.Table.{find_where, select_where, order_by}
use gg_agent_server.Table.Rows.{All-of_find_none, All-imp, All-select, All-select_test, All-both}
use gg_agent_server.Table.Order.{All-order_by}
use gg_agent_server.Sdk.Domain.{is_accepted}
use gg_agent_server.Ledger.Rows.{Ledger, ReceiptRow}
use gg_agent_server.Ledger.Lifecycle.{is_pending_for}
use gg_agent_server.Ledger.Messages.{
  receipt_before, list_task_message_receipts, list_accepted_task_messages,
}

-- Nothing is listed where no accepted receipt is in the table.
All-map :
    (rows : List ReceiptRow)
    → All (λ r. is_accepted r.receipt.status ≡ false) rows
    → select_where
        (λ receipt. is_accepted receipt.status)
        (map (λ (r : ReceiptRow). r.receipt) rows)
      ≡ []
unfolding select_where
All-map [] a = refl
All-map (r ∷ rows) a = rw (select_where, a.0) (All-map rows a.1)

pub accepted-none :
    (id : String) (l : Ledger)
    → find_where (is_pending_for id) l.receipts ≡ none
    → list_accepted_task_messages id l ≡ []
unfolding list_accepted_task_messages list_task_message_receipts
accepted-none id l e =
    let mine = select_where (λ r. r.task_id == id) l.receipts in
    let not_pending =
      All-select _ (λ r. r.task_id == id) l.receipts
        (All-of_find_none (is_pending_for id) l.receipts e) in
    let settled =
      All-imp _ (λ r. is_accepted r.receipt.status ≡ false) mine (λ r p. rw (p.1) at p.0)
        (All-both _ _ mine not_pending (All-select_test (λ r. r.task_id == id) l.receipts)) in
    All-map (order_by receipt_before mine) (All-order_by _ receipt_before mine settled)
