-- ===== src/Sandbox/LocalConversation/Frames.antt =====
-- What an event and a receipt leave alone in a conversation of
-- sandboxes/gg/server/agent/local_conversation.py, and what a change of the status writes.
use gg_agent_server.Prelude.{
  String, ◌≡◌, refl, ◌∙◌, some, List, eq_refl, eq_iff, arith, Option, Bool, true, false,
  Option-cases, Bool-cases, inl, inr, is_some, ltb, ◌==◌,
}
use gg_agent_server.Result.{
  Result, ok, err, AfterOk, returned, raised, AfterOk-bind, integrity_error, require,
}
use gg_agent_server.Program.{transact, return}
use gg_agent_server.Program.Runs.{
  Keeps, settle-keeps, Keeps-bind, Keeps-modify, Keeps-demand, Keeps-return, Keeps-raise,
}
use gg_agent_server.Table.{insert_unique}
use gg_agent_server.Table.Find.{find-insert_new, find-update, find_where_test}
use gg_agent_server.Sdk.Domain.{
  EventKind, PayloadValue, Event, MessageReceipt, MessageDeliveryStatus,
}
use gg_agent_server.Sandbox.{ConversationRow, SandboxState, Write}
use gg_agent_server.Sandbox.EventLog.{
  is_conversation, find_conversation, save_conversation_state, clashes_event, event_row,
  load_receipt, append, save_receipt,
}
use gg_agent_server.Sandbox.LocalConversation.{
  Environment, LocalConversation, commit, with_state, draw, meta_of, base_of, persist_status,
  append_event, event_of, is_unsure,
}
use gg_agent_server.Sandbox.LocalConversation.Messages.{
  update_receipt, delivered, accept, accepted_receipt, forward, steer,
}
use gg_agent_server.Sandbox.LocalConversation.Steps.{IsPersisted, row_at}

pub persist_status-IsPersisted :
    (env : Environment) (c : LocalConversation) → IsPersisted env (persist_status env c).1
unfolding persist_status transact save_conversation_state
persist_status-IsPersisted env c =
    let mine = is_conversation env.key in
    let row = row_at env (env.now c.draws) c in
    let change = λ (r : ConversationRow). record r {
      meta_json = some (meta_of env c);
      base_json = some (base_of env c);
    } in
    elim (Option-cases (find_conversation env.key c.state)) [
      | inl e ↦ (
        env.now c.draws,
        rw e (find-insert_new mine row c.state.conversations e (eq_refl env.key)),
      )
      | inr (old, e) ↦
          let seen = find_where_test mine c.state.conversations e in
          let key_eq : old.directory ≡ env.key =
            ground (arith, seen, eq_iff old.directory env.key) in
          let found = find-update mine mine change c.state.conversations (λ r. refl) in
          (env.now c.draws, rw e (found ∙ rw (e, seen, key_eq) refl))
    ]

-- A write of another table.
abbrev pub KeepsConversations : SandboxState → SandboxState → Type 0
KeepsConversations s s' = s'.conversations ≡ s.conversations

append-frame :
    (key : String) (event : Event) (s : SandboxState)
    → AfterOk (KeepsConversations s) (append key event s)
unfolding append
append-frame key event s =
    AfterOk-bind (require (is_some (find_conversation key s)) integrity_error) _ λ _ _.
      AfterOk-bind (require (ltb 0 event.seq) integrity_error) _ λ _ _.
        AfterOk-bind
          (insert_unique (clashes_event (event_row key event)) (event_row key event) s.events) _
          λ _ _. returned refl

save_receipt-frame :
    (key : String) (receipt : MessageReceipt) (s : SandboxState)
    → AfterOk (KeepsConversations s) (save_receipt key receipt s)
unfolding save_receipt
save_receipt-frame key receipt s =
    AfterOk-bind (require (is_some (find_conversation key s)) integrity_error) _
      λ _ _. returned refl

module _ {ℓ} (env : Environment) (P : LocalConversation → Type ℓ)
    (other_table : (c : LocalConversation) (s : SandboxState)
      → KeepsConversations c.state s
      → P c
      → P (record c { state = s }))
    (drawn : (c : LocalConversation) → P c → P (draw c)) where
  with_state-Keeps :
      {A : Type 0} (c : LocalConversation) (r : Result (A × SandboxState))
      → P c
      → AfterOk (KeepsConversations c.state) r
      → AfterOk P (with_state c r)
  with_state-Keeps c (ok (a, s)) h (returned same) = returned (other_table c s same h)
  with_state-Keeps c (err e) h same = raised

  commit-Keeps :
      {A : Type 0} (body : Write A)
      → ((s : SandboxState) → AfterOk (KeepsConversations s) (body s))
      → Keeps P (commit body)
  unfolding Keeps transact
  commit-Keeps body frame c h =
      settle-keeps P c (with_state c (body c.state)) h
        (with_state-Keeps c (body c.state) h (frame c.state))

  pub append_event-Keeps :
      (kind : EventKind) (payload : List (String × PayloadValue))
      → Keeps P (append_event env kind payload)
  unfolding append_event Keeps
  append_event-Keeps kind payload c h =
      let event = event_of env kind payload c in
      Keeps-bind P (commit (append env.key event)) (λ _. return event)
        (commit-Keeps (append env.key event) (append-frame env.key event))
        (λ _. Keeps-return P event) (draw c) (drawn c h)

  update_receipt-Keeps :
      (receipt : MessageReceipt) (status : MessageDeliveryStatus) (detail : Option String)
      → Keeps P (update_receipt env receipt status detail)
  unfolding update_receipt Keeps
  update_receipt-Keeps receipt status detail c h =
      let updated : MessageReceipt = record receipt {
        status = status;
        detail = detail;
        updated_at = env.now c.draws;
      } in
      Keeps-bind P (commit (save_receipt env.key updated)) (λ _. return updated)
        (commit-Keeps (save_receipt env.key updated) (save_receipt-frame env.key updated))
        (λ _. Keeps-return P updated) (draw c) (drawn c h)

  delivered-Keeps :
      (receipt : MessageReceipt) (answer : Result (Bool × Option String))
      → Keeps P (delivered env receipt answer)
  unfolding delivered
  delivered-Keeps receipt (ok (true, detail)) =
      update_receipt-Keeps receipt MessageDeliveryStatus.delivered detail
  delivered-Keeps receipt (ok (false, detail)) =
      update_receipt-Keeps receipt MessageDeliveryStatus.failed detail
  delivered-Keeps receipt (err e) = elim (Bool-cases (is_unsure e)) [
    | inl f ↦
        rw (delivered, f)
          (update_receipt-Keeps receipt MessageDeliveryStatus.unknown (some (env.str e)))
    | inr f ↦ rw (delivered, f) (Keeps-raise MessageReceipt P e)
  ]

  accept-Keeps :
      (receipt : MessageReceipt) (answer : Result (Bool × Option String))
      → Keeps P (accept env receipt answer)
  unfolding accept
  accept-Keeps receipt answer =
      Keeps-bind P _ _ (Keeps-modify P _ λ c h. drawn (draw c) (drawn c h)) λ _.
        Keeps-bind P _ _
          (commit-Keeps (save_receipt env.key receipt) (save_receipt-frame env.key receipt))
          λ _. Keeps-bind P _ _ (append_event-Keeps _ _) λ _. delivered-Keeps receipt answer

  -- No branch of `steer` changes the status.
  pub steer-Keeps :
      (message_id text : String) (answer : Result (Bool × Option String))
      → Keeps P (steer env message_id text answer)
  unfolding steer forward Keeps
  steer-Keeps message_id text answer c h =
      let guarded : Keeps P (forward env message_id text answer) =
        Keeps-bind P _ _ (Keeps-demand P _ _) λ _.
          Keeps-bind P _ _ (Keeps-demand P _ _)
            λ _ c h. accept-Keeps (accepted_receipt env message_id text c) answer c h in
      elim (Option-cases (load_receipt env.key message_id c.state)) [
        | inl e ↦ rw (e, steer) (guarded c h)
        | inr (existing, e) ↦ elim (Bool-cases (existing.content == text)) [
          | inl f ↦ rw (e, steer, f) h
          | inr f ↦ rw (e, steer, f) h
        ]
      ]
