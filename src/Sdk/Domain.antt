-- ===== src/Sdk/Domain.antt =====
-- packages/gg-sdk/gg/sdk/domain.py: the receipts of steering messages and the events of a
-- conversation.
use Prim.Native.String.{len}
use gg_agent_server.Prelude.{ℕ, ◌≤◌, String, Option, Bool, true, false, List}

pub data ConversationStatus : Type 0 where
  idle running finished error cancelled : ConversationStatus

pub data MessageDeliveryStatus : Type 0 where
  accepted delivered failed unknown : MessageDeliveryStatus

abbrev pub is_accepted : MessageDeliveryStatus → Bool
is_accepted MessageDeliveryStatus.accepted = true
is_accepted _ = false

pub record MessageReceipt : Type 0 where
  pub id : String
  pub content : String
  pub status : MessageDeliveryStatus
  pub detail : Option String
  pub created_at : ℕ
  pub updated_at : ℕ

pub data EventKind : Type 0 where
  message action observation status error : EventKind

-- A member of an event's payload: a text, or any other JSON value by its JSON text.
pub data PayloadValue : Type 0 where
  text json : String → PayloadValue

pub record Event : Type 0 where
  pub id : String
  pub seq : ℕ
  pub kind : EventKind
  pub payload : List (String × PayloadValue)
  pub created_at : ℕ

-- What pydantic and `str` do with events, and Python's UTF-8 codec with a prefix of the bytes.
-- `prefix s n` is `s.encode()[:n].decode(errors="ignore")`, which is at most n bytes.
pub record EventCodec : Type 0 where
  pub dump : Event → String
  pub validate : String → Event
  pub shown_length : PayloadValue → ℕ
  pub prefix : String → ℕ → String
  pub prefix_fits : (s : String) (n : ℕ) → len (prefix s n) ≤ n

pub record ConversationRecord : Type 0 where
  pub id : String
  pub status : ConversationStatus
  pub working_dir : String
  pub created_at : ℕ

-- packages/gg-sdk/gg/sdk/agent_backend.py: the fields that are not constant. The times are positive
-- floats, which nothing here computes with; they are counted in a unit of choice.
pub record AgentConfig : Type 0 where
  pub model : String
  pub timeout_seconds : ℕ
  pub command_ack_timeout_seconds : ℕ
  pub cancel_grace_seconds : ℕ
