-- ===== src/Sandbox/LocalConversation/Receipts.antt =====
-- `steer` of sandboxes/gg/server/agent/local_conversation.py: a message is delivered once.
use gg_agent_server.Prelude.{
  String, ◌≡◌, refl, ap, sym, ◌∙◌, subst, Bool, true, false, Option, some, List, ◌==◌, eq_refl,
  eq_iff, arith, map_option, is_some, Option-cases, Bool-cases, inl, inr,
}
use gg_agent_server.Result.{
  Result, ok, err, integrity_error, message_id_conflict_error, require, >>=-eq-ok,
}
use gg_agent_server.Program.{>>=-returned, settle, return-eq, raise-absurd, transact, return, raise}
use gg_agent_server.Program.Runs.{Returns, Returns-bind}
use gg_agent_server.Table.{find_where}
use gg_agent_server.Table.Find.{find-insert_new, find-update, find_where_test}
use gg_agent_server.Sdk.Domain.{MessageReceipt, MessageDeliveryStatus}
use gg_agent_server.Sandbox.{MessageReceiptRow, SandboxState, Write}
use gg_agent_server.Sandbox.EventLog.{
  is_message, find_conversation, put_receipt, load_receipt, save_receipt,
}
use gg_agent_server.Sandbox.LocalConversation.{
  Environment, LocalConversation, is_unsure, draw, commit, with_state,
}
use gg_agent_server.Sandbox.LocalConversation.Messages.{
  update_receipt, delivered, accept, accepted_receipt, forward, steer,
}

-- A receipt that is put in the table is what is found there.
put-find :
    (key : String) (receipt : MessageReceipt) (rows : List MessageReceiptRow)
    → map_option
        (λ (r : MessageReceiptRow). r.payload)
        (find_where (is_message key receipt.id) (put_receipt key receipt rows))
      ≡ some receipt
unfolding put_receipt
put-find key receipt rows =
    let mine = is_message key receipt.id in
    let new : MessageReceiptRow = record {
      conversation = key;
      message_id = receipt.id;
      payload = receipt;
    } in
    elim (Option-cases (find_where mine rows)) [
      | inl e ↦
          let found = find-insert_new mine new rows e (rw (eq_refl key, eq_refl receipt.id) refl) in
          rw (put_receipt, e, found) refl
      | inr (old, e) ↦
          let found =
            find-update mine mine (λ r. record r { payload = receipt }) rows (λ r. refl) in
          let seen = find_where_test mine rows e in rw (put_receipt, e, found, e, seen) refl
    ]

save_receipt-load :
    (key : String) (receipt : MessageReceipt) (s : SandboxState) {s' : SandboxState} {u : Unit {0}}
    → save_receipt key receipt s ≡ ok (u, s')
    → load_receipt key receipt.id s' ≡ some receipt
unfolding save_receipt load_receipt
save_receipt-load key receipt s {s'} {u} h =
    let (_, _, saved) =
      >>=-eq-ok (require (is_some (find_conversation key s)) integrity_error) _ h in
    let same : record s { message_receipts = put_receipt key receipt s.message_receipts } ≡ s' =
      cc saved in
    subst (λ s'. load_receipt key receipt.id s' ≡ some receipt) same
      (put-find key receipt s.message_receipts)

settled :
    {A : Type 0} (c : LocalConversation) (r : Result (A × SandboxState)) {a : A}
    {c' : LocalConversation}
    → settle c (with_state c r) ≡ (ok a, c')
    → (s : SandboxState) × (r ≡ ok (a, s)) × (c'.state ≡ s)
settled c (ok (b, s)) h =
    let (same, same_c) = return-eq h in
    (s, ap (λ b. ok (b, s)) same, ap (λ c. c.state) (sym same_c))
settled c (err e) h = raise-absurd h

-- What a commit that returned has written.
commit-returned :
    {A : Type 0} (body : Write A) (c : LocalConversation) {a : A} {c' : LocalConversation}
    → commit body c ≡ (ok a, c')
    → (s : SandboxState) × (body c.state ≡ ok (a, s)) × (c'.state ≡ s)
unfolding transact
commit-returned body c h = settled c (body c.state) h

-- A receipt is stored under its message, with its text.
abbrev Stored : String → String → String → MessageReceipt → LocalConversation → Type 0
Stored key message_id text receipt c =
    (receipt.content ≡ text) × (load_receipt key message_id c.state ≡ some receipt)

module _ (env : Environment) where
  update_receipt-Stored :
      (receipt : MessageReceipt) (status : MessageDeliveryStatus) (detail : Option String)
      → Returns
          (Stored env.key receipt.id receipt.content)
          (update_receipt env receipt status detail)
  unfolding update_receipt Returns return
  update_receipt-Stored receipt status detail c r c' h =
      let updated : MessageReceipt = record receipt {
        status = status;
        detail = detail;
        updated_at = env.now c.draws;
      } in
      let (u, d, saved, done) = >>=-returned (commit (save_receipt env.key updated)) _ (draw c) h in
      let (s, written, state_eq) = commit-returned (save_receipt env.key updated) (draw c) saved in
      let (same, same_c) = return-eq done in
      let found = save_receipt-load env.key updated (draw c).state written in
      (
        ap (λ (r : MessageReceipt). r.content) (sym same),
        rw (sym same_c, state_eq) (found ∙ ap some same),
      )

  delivered-Stored :
      (receipt : MessageReceipt) (answer : Result (Bool × Option String))
      → Returns (Stored env.key receipt.id receipt.content) (delivered env receipt answer)
  unfolding delivered Returns raise
  delivered-Stored receipt (ok (true, detail)) c r c' h =
      update_receipt-Stored receipt MessageDeliveryStatus.delivered detail c r c' h
  delivered-Stored receipt (ok (false, detail)) c r c' h =
      update_receipt-Stored receipt MessageDeliveryStatus.failed detail c r c' h
  delivered-Stored receipt (err e) c r c' h = elim (Bool-cases (is_unsure e)) [
    | inl f ↦
        update_receipt-Stored receipt MessageDeliveryStatus.unknown (some (env.str e)) c r c'
          (rw (f, delivered) at h)
    | inr f ↦ raise-absurd {e = e} (rw (f, delivered) at h)
  ]

  accept-Stored :
      (receipt : MessageReceipt) (answer : Result (Bool × Option String))
      → Returns (Stored env.key receipt.id receipt.content) (accept env receipt answer)
  unfolding accept
  accept-Stored receipt answer =
      Returns-bind _ _ _
        λ _. Returns-bind _ _ _ λ _. Returns-bind _ _ _ λ _. delivered-Stored receipt answer

  forward-Stored :
      (message_id text : String) (answer : Result (Bool × Option String))
      → Returns (Stored env.key message_id text) (forward env message_id text answer)
  unfolding forward Returns
  forward-Stored message_id text answer = Returns-bind _ _ _ λ _.
      Returns-bind _ _ _ λ _. λ c. accept-Stored (accepted_receipt env message_id text c) answer c

  steer-Stored :
      (message_id text : String) (answer : Result (Bool × Option String))
      → Returns (Stored env.key message_id text) (steer env message_id text answer)
  unfolding steer Returns
  steer-Stored message_id text answer c r c' h =
      elim (Option-cases (load_receipt env.key message_id c.state)) [
        | inl e ↦ forward-Stored message_id text answer c r c' (rw (e, steer) at h)
        | inr (existing, e) ↦ elim (Bool-cases (existing.content == text)) [
          | inr f ↦ raise-absurd {e = message_id_conflict_error} (rw (e, f, steer) at h)
          | inl f ↦
              let (same, same_c) = return-eq (rw (e, f, steer) at h) in
              subst (λ r. Stored env.key message_id text r c') same
                (subst (λ c. Stored env.key message_id text existing c) same_c
                  (ground (arith, f, eq_iff existing.content text), e))
        ]
      ]

-- Where `steer` has returned a receipt, the same message again returns that receipt, whatever the
-- backend would answer now, and changes nothing: it is not delivered a second time. The same
-- identifier with another text is refused with a `MessageIdConflictError`, and changes nothing.
pub steer-again :
    (env : Environment) (message_id text : String) (answer : Result (Bool × Option String))
    (c : LocalConversation) {r : MessageReceipt} {c' : LocalConversation}
    (later : Result (Bool × Option String)) (other : String)
    → steer env message_id text answer c ≡ (ok r, c')
    → (text == other) ≡ false
    → (r.content ≡ text)
      × (steer env message_id text later c' ≡ (ok r, c'))
      × (steer env message_id other later c' ≡ (err message_id_conflict_error, c'))
unfolding steer Returns
steer-again env message_id text answer c {r} {c'} later other h differs =
    let (content, found) = steer-Stored env message_id text answer c r c' h in
    (
      content,
      rw (steer, found, content, eq_refl text) refl,
      rw (steer, found, content, differs) refl,
    )
