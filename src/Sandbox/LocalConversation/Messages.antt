-- ===== src/Sandbox/LocalConversation/Messages.antt =====
-- `send_message` and `steer` of sandboxes/gg/server/agent/local_conversation.py: the messages to a
-- conversation, and their receipts.
use gg_agent_server.Prelude.{
  suc, String, Bool, true, false, ◌&&◌, Option, none, some, List, [], ◌∷◌, ◌==◌, if◌then◌else◌,
}
use gg_agent_server.Result.{
  Result, ok, err, agent_control_error, invalid_conversation_state_error, message_id_conflict_error,
}
use gg_agent_server.Program.{Program, return, raise, modify, demand, ◌>>=◌, ◌>>◌}
use gg_agent_server.Sdk.Domain.{
  ConversationStatus, Event, EventKind, PayloadValue, MessageReceipt, MessageDeliveryStatus,
}
use gg_agent_server.Sandbox.EventLog.{load_receipt, save_receipt}
use gg_agent_server.Sandbox.LocalConversation.{
  Environment, LocalConversation, Operation, same_status, is_running, commit, transition, draw,
  append_event, apply_status, is_unsure,
}

abbrev pub message_payload : String → List (String × PayloadValue)
message_payload text = ("role", PayloadValue.text "user") ∷ ("text", PayloadValue.text text) ∷ []

module _ (env : Environment) where
  unfoldable pub go_idle : Program LocalConversation (Unit {0})
  go_idle c =
      if same_status c.status ConversationStatus.idle
      then (ok tt, c)
      else apply_status env ConversationStatus.idle c

  unfoldable pub send_message : String → Program LocalConversation Event
  send_message text = do
    transition Operation.send
    go_idle
    append_event env EventKind.message
        (("role", PayloadValue.text "user") ∷ ("text", PayloadValue.text text) ∷ [])

  unfoldable pub update_receipt :
      MessageReceipt
      → MessageDeliveryStatus
      → Option String
      → Program LocalConversation MessageReceipt
  update_receipt receipt status detail c =
      let updated : MessageReceipt = record receipt {
        status = status;
        detail = detail;
        updated_at = env.now c.draws;
      } in
      (commit (save_receipt env.key updated) >> return updated) (draw c)

  -- What the backend answered to the message.
  unfoldable pub delivered :
      MessageReceipt → Result (Bool × Option String) → Program LocalConversation MessageReceipt
  delivered receipt (ok (true, detail)) =
      update_receipt receipt MessageDeliveryStatus.delivered detail
  delivered receipt (ok (false, detail)) =
      update_receipt receipt MessageDeliveryStatus.failed detail
  delivered receipt (err e) =
      if is_unsure e
      then update_receipt receipt MessageDeliveryStatus.unknown (some (env.str e))
      else raise e

  abbrev pub accepted_receipt : String → String → LocalConversation → MessageReceipt
  accepted_receipt message_id text c = record {
    id = message_id;
    content = text;
    status = MessageDeliveryStatus.accepted;
    detail = none;
    created_at = env.now c.draws;
    updated_at = env.now (suc c.draws);
  }

  -- The acceptance is stored before the message is forwarded.
  unfoldable pub accept :
      MessageReceipt → Result (Bool × Option String) → Program LocalConversation MessageReceipt
  accept receipt answer = do
    modify (λ c. draw (draw c))
    commit (save_receipt env.key receipt)
    _ ← append_event env EventKind.message (
        ("role", PayloadValue.text "user")
        ∷ ("text", PayloadValue.text receipt.content)
        ∷ ("client_message_id", PayloadValue.text receipt.id)
        ∷ [])
    delivered receipt answer

  unfoldable pub forward :
      String → String → Result (Bool × Option String) → Program LocalConversation MessageReceipt
  forward message_id text answer = do
    demand (λ c. is_running c && c.accepting_messages) invalid_conversation_state_error
    demand (λ c. env.running_backend) agent_control_error
    λ c. accept (accepted_receipt message_id text c) answer c

  unfoldable pub steer :
      String → String → Result (Bool × Option String) → Program LocalConversation MessageReceipt
  steer message_id text answer c = elim (load_receipt env.key message_id c.state) [
    | some existing ↦
        if existing.content == text then (ok existing, c) else (err message_id_conflict_error, c)
    | none ↦ forward message_id text answer c
  ]
