-- ===== src/Storage/Truncation.antt =====
-- `truncate_event_json` of backend/gg/runtime/storage.py: an event's JSON text within what is left
-- of its task's log.
pub mod Cap
mod Examples
use Prim.Native.Nat.{◌/◌, max}
use Prim.Native.String.{len, ◌++◌}
use gg_agent_server.Prelude.{
  ℕ, ◌-◌, String, Bool, true, false, List, [], ◌∷◌, Option, none, some, leb, ◌==◌, if◌then◌else◌,
}
use gg_agent_server.Table.{update_where, order_by}
use gg_agent_server.Sdk.Domain.{PayloadValue, text, json, Event, EventCodec}

abbrev pub truncation_suffix : String
truncation_suffix = "\n[truncated by storage policy]"

abbrev pub Payload : Type 0
Payload = List (String × PayloadValue)

-- payload[key] = value, of a key that is there
abbrev pub set_member : String → PayloadValue → Payload → Payload
set_member key value payload = update_where (λ m. m.0 == key) (λ m. (m.0, value)) payload

abbrev pub omitted_payload : Payload
omitted_payload = ("storage", text "event omitted; per-task log cap reached") ∷ []

-- The detail is `TRUNCATION_SUFFIX.strip()`.
abbrev pub truncated_payload : Payload
truncated_payload =
    ("storage", text "event truncated") ∷ ("detail", text "[truncated by storage policy]") ∷ []

-- A stub is a new `Event`: its identifier and its time are drawn anew.
abbrev pub stub : String × ℕ → Event → Payload → Event
stub drawn event payload = record {
  id = drawn.0;
  seq = event.seq;
  kind = event.kind;
  payload = payload;
  created_at = drawn.1;
}

module _ (codec : EventCodec) where
  open codec use {dump, shown_length, prefix}

  -- `_truncate_text`
  unfoldable pub truncate_text : String → ℕ → String × Bool
  truncate_text s limit =
      if leb (len s) limit then (s, false) else (prefix s (limit - 64) ++ truncation_suffix, true)

  abbrev longer_first : String × PayloadValue → String × PayloadValue → Bool
  longer_first a b = leb (shown_length b.1) (shown_length a.1)

  -- The loop over the members, the longest first: the first text that fits.
  pub shrink : ℕ → Event → Payload → Payload → Option String
  shrink remaining event payload [] = none
  shrink remaining event payload ((key, json other) ∷ members) =
      shrink remaining event payload members
  shrink remaining event payload ((key, text s) ∷ members) =
      let shorter = text (truncate_text s (max 256 (remaining / 4))).0 in
      let payload' = set_member key shorter payload in
      let serialized = dump (record event { payload = payload' }) in
      let later = shrink remaining event payload' members in
      if leb (len serialized) remaining then some serialized else later

  unfoldable pub truncate_event_json : String × ℕ → Event → ℕ → ℕ → String × Bool
  unfolding shrink
  truncate_event_json drawn event max_task_log_bytes current_log_bytes =
      let remaining = max_task_log_bytes - current_log_bytes in
      let omitted = dump (stub drawn event omitted_payload) in
      let serialized = dump event in
      let members = order_by longer_first event.payload in
      if leb remaining 0
      then (omitted, true)
      else if leb (len serialized) remaining
      then (serialized, false)
      else elim (shrink remaining event event.payload members) [
        | some shorter ↦ (shorter, true)
        | none ↦ (dump (stub drawn event truncated_payload), true)
      ]
