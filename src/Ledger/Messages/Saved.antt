-- ===== src/Ledger/Messages/Saved.antt =====
-- `save_task_message_receipt` of backend/gg/runtime/ledger.py: what is saved is what is read.
use gg_agent_server.Prelude.{
  ℕ, String, ◌≡◌, refl, ap, sym, ◌∙◌, false, some, ◌==◌, eq_refl, eq_iff, arith, Option-cases,
  Bool-cases, inl, inr,
}
use gg_agent_server.Result.{ok, err, runtime_error, >>=-eq-ok}
use gg_agent_server.Table.{find_where, update_where, insert_row}
use gg_agent_server.Table.Find.{find_where_test, find-update, find-insert_new}
use gg_agent_server.Sdk.Domain.{MessageReceipt}
use gg_agent_server.Ledger.Rows.{ReceiptRow, Ledger}
use gg_agent_server.Ledger.Sandboxes.{require_payload}
use gg_agent_server.Ledger.Sandboxes.Soundness.{require_payload-eq-ok, require_payload-ok}
use gg_agent_server.Ledger.Messages.{
  is_receipt, find_receipt, renewed, upsert_receipt, save_task_message_receipt,
  get_task_message_receipt,
}

module _ (id : String) (receipt : MessageReceipt) (l : Ledger) {u : Unit {0}} {l' : Ledger} where
  -- The row that the upsert leaves for the message.
  upserted :
      upsert_receipt id receipt l ≡ ok (u, l')
      → (created : ℕ) × (find_receipt id receipt.id l'
          ≡ some (record { task_id = id; receipt = record receipt { created_at = created } }))
        × (l'.tasks ≡ l.tasks)
  unfolding upsert_receipt
  upserted h =
      let test = is_receipt id receipt.id in
      elim (Option-cases (find_receipt id receipt.id l)) [
        | inl e ↦
            let new : ReceiptRow = record { task_id = id; receipt = receipt } in
            let done = rw (e, upsert_receipt) at h in
            let ledger_eq : record l { receipts = insert_row new l.receipts } ≡ l' = cc done in
            let found =
              find-insert_new test new l.receipts e (rw (eq_refl id, eq_refl receipt.id) refl) in
            (
              receipt.created_at,
              ap (λ m. find_receipt id receipt.id m) (sym ledger_eq) ∙ found,
              ap (λ m. m.tasks) (sym ledger_eq),
            )
        | inr (saved, e) ↦ elim (Bool-cases (saved.receipt.content == receipt.content)) [
          | inr f ↦ cc (rw (e, upsert_receipt, f) at h)
          | inl f ↦
              let done = rw (e, upsert_receipt, f) at h in
              let ledger_eq : record l { receipts = update_where test (renewed receipt) l.receipts }
                  ≡ l' =
                cc done in
              let seen = find_where_test test l.receipts e in
              let same_task : saved.task_id ≡ id = ground (arith, seen, eq_iff saved.task_id id) in
              let same_message : saved.receipt.id ≡ receipt.id =
                ground (arith, seen, eq_iff saved.receipt.id receipt.id) in
              let found : find_where test (update_where test (renewed receipt) l.receipts)
                  ≡ some (renewed receipt saved) =
                find-update test test (renewed receipt) l.receipts (λ r. refl)
                ∙ rw (e, seen) refl in
              let is_row : renewed receipt saved ≡ record {
                task_id = id;
                receipt = record receipt { created_at = saved.receipt.created_at };
              } =
                rw (same_task, same_message) refl in
              (
                saved.receipt.created_at,
                ap (λ m. find_receipt id receipt.id m) (sym ledger_eq) ∙ found ∙ ap some is_row,
                ap (λ m. m.tasks) (sym ledger_eq),
              )
        ]
      ]

-- A receipt that is saved is what is read back, but for the time of creation, and a receipt that
-- follows for the same message with another content is refused with a `RuntimeError`.
pub save_task_message_receipt-get :
    (id : String) (receipt : MessageReceipt) (l : Ledger) (other : MessageReceipt) {u : Unit {0}}
    {l' : Ledger}
    → save_task_message_receipt id receipt l ≡ ok (u, l')
    → other.id ≡ receipt.id
    → (receipt.content == other.content) ≡ false
    → (created : ℕ) × (get_task_message_receipt id receipt.id l'
        ≡ some (record receipt { created_at = created }))
      × (save_task_message_receipt id other l' ≡ err runtime_error)
unfolding save_task_message_receipt get_task_message_receipt upsert_receipt
save_task_message_receipt-get id receipt l other {u} {l'} h same differs =
    let (_, guard, h') = >>=-eq-ok (require_payload id l) _ h in
    let payload = require_payload-eq-ok id l guard in
    let (created, found, tasks_eq) = upserted id receipt l h' in
    let guard' : require_payload id l' ≡ ok tt = require_payload-ok id l' (rw tasks_eq payload) in
    let there : find_receipt id other.id l'
        ≡ some (record { task_id = id; receipt = record receipt { created_at = created } }) =
      rw same found in
    (
      created,
      rw (get_task_message_receipt, found) refl,
      rw (save_task_message_receipt, guard', upsert_receipt, there, differs) refl,
    )
