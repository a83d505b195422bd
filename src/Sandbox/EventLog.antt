-- ===== src/Sandbox/EventLog.antt =====
-- sandboxes/gg/server/agent/event_log.py: what a conversation keeps in the database of its sandbox.
pub mod Refinement
mod Examples
use Prim.Native.Nat.{max}
use gg_agent_server.Prelude.{
  ℕ, zero, suc, String, Bool, true, false, ◌&&◌, ◌||◌, Option, none, some, List, [], ◌∷◌, map, ltb,
  leb, nat_eq, ◌==◌, is_some, map_option, coalesce, if◌then◌else◌, ℤ, pos, negsuc,
}
use gg_agent_server.Result.{
  Result, ok, err, file_not_found_error, integrity_error, value_error, fetched, require, ◌>>=◌,
  ◌>>◌,
}
use gg_agent_server.Table.{
  find_where, select_where, update_where, order_by, take, insert_row, insert_unique,
}
use gg_agent_server.Sdk.Domain.{ConversationRecord, Event, MessageReceipt}
use gg_agent_server.Sandbox.{
  BaseState, ConversationRow, EventRow, MessageReceiptRow, SandboxState, Write,
}

abbrev pub is_conversation : String → ConversationRow → Bool
is_conversation key r = r.directory == key

abbrev pub find_conversation : String → SandboxState → Option ConversationRow
find_conversation key s = find_where (is_conversation key) s.conversations

-- ON CONFLICT(directory) DO UPDATE
abbrev pub upsert_conversation :
    ConversationRow → (ConversationRow → ConversationRow) → SandboxState → SandboxState
upsert_conversation row change s =
    if is_some (find_conversation row.directory s)
    then record s {
      conversations = update_where (is_conversation row.directory) change s.conversations;
    }
    else record s { conversations = insert_row row s.conversations }

unfoldable pub save_meta : String → ConversationRecord → Write (Unit {0})
save_meta key meta s = ok (
  tt,
  upsert_conversation (record { directory = key; meta_json = some meta; base_json = none })
      (λ r. record r { meta_json = some meta }) s,
)

unfoldable pub load_meta : String → SandboxState → Result ConversationRecord
load_meta key s = do
  row ← fetched file_not_found_error (find_conversation key s)
  fetched file_not_found_error (row.meta_json)

unfoldable pub save_base_state : String → BaseState → Write (Unit {0})
save_base_state key base s = ok (
  tt,
  upsert_conversation (record { directory = key; meta_json = none; base_json = some base })
      (λ r. record r { base_json = some base }) s,
)

unfoldable pub load_base_state : String → SandboxState → Result BaseState
load_base_state key s = do
  row ← fetched file_not_found_error (find_conversation key s)
  fetched file_not_found_error (row.base_json)

unfoldable pub save_conversation_state : String → ConversationRecord → BaseState → Write (Unit {0})
save_conversation_state key meta base s = ok (
  tt,
  upsert_conversation (record { directory = key; meta_json = some meta; base_json = some base })
      (λ r. record r { meta_json = some meta; base_json = some base }) s,
)

-- INSERT OR IGNORE, as `EventLog` and `MessageReceiptStore` are made
unfoldable pub open_conversation : String → Write (Unit {0})
open_conversation key s = ok (
  tt,
  if is_some (find_conversation key s) then s else record s {
    conversations =
        insert_row (record { directory = key; meta_json = none; base_json = none }) s.conversations;
  },
)

-- The primary key of `events`, and UNIQUE(conversation, id).
abbrev pub clashes_event : EventRow → EventRow → Bool
clashes_event new old =
    old.conversation == new.conversation && (nat_eq old.seq new.seq || old.id == new.id)

abbrev pub event_row : String → Event → EventRow
event_row key event = record { conversation = key; seq = event.seq; id = event.id; payload = event }

-- INSERT INTO events, under REFERENCES conversations(directory) and CHECK(seq > 0)
unfoldable pub append : String → Event → Write (Unit {0})
append key event s = do
  require (is_some (find_conversation key s)) integrity_error
  require (ltb 0 event.seq) integrity_error
  events ← insert_unique (clashes_event (event_row key event)) (event_row key event) s.events
  ok (tt, record s { events = events })

abbrev pub of_conversation : String → EventRow → Bool
of_conversation key r = r.conversation == key

unfoldable pub max_seq : List EventRow → ℕ
max_seq [] = 0
max_seq (r ∷ rows) = max r.seq (max_seq rows)

unfoldable pub next_seq : String → SandboxState → ℕ
next_seq key s = suc (max_seq (select_where (of_conversation key) s.events))

-- `after < 0`, and the rows that are asked for
abbrev is_negative : ℤ → Bool
is_negative (pos n) = false
is_negative (negsuc n) = true

abbrev magnitude : ℤ → ℕ
magnitude (pos n) = n
magnitude (negsuc n) = suc n

abbrev below_one : ℤ → Bool
below_one (pos (suc n)) = false
below_one _ = true

abbrev limited : Option ℤ → List EventRow → List EventRow
limited none rows = rows
limited (some limit) rows = take (magnitude limit) rows

abbrev pub seq_le : EventRow → EventRow → Bool
seq_le a b = leb a.seq b.seq

unfoldable pub list : String → ℤ → Option ℤ → SandboxState → Result (List Event)
list key after limit s =
    if is_negative after || elim limit [ none ↦ false | some n ↦ below_one n ]
    then err value_error
    else ok (
        map (λ (r : EventRow). r.payload)
          (limited limit (
            order_by seq_le
              (select_where (λ r. of_conversation key r && ltb (magnitude after) r.seq) s.events))))

abbrev pub is_message : String → String → MessageReceiptRow → Bool
is_message key message_id r = r.conversation == key && r.message_id == message_id

unfoldable pub load_receipt : String → String → SandboxState → Option MessageReceipt
load_receipt key message_id s =
    map_option (λ r. r.payload) (find_where (is_message key message_id) s.message_receipts)

-- ON CONFLICT(conversation, message_id) DO UPDATE
unfoldable pub put_receipt :
    String → MessageReceipt → List MessageReceiptRow → List MessageReceiptRow
put_receipt key receipt rows =
    if is_some (find_where (is_message key receipt.id) rows)
    then update_where (is_message key receipt.id) (λ r. record r { payload = receipt }) rows
    else insert_row (record { conversation = key; message_id = receipt.id; payload = receipt }) rows

unfoldable pub save_receipt : String → MessageReceipt → Write (Unit {0})
save_receipt key receipt s = do
  require (is_some (find_conversation key s)) integrity_error
  ok (tt, record s { message_receipts = put_receipt key receipt s.message_receipts })
