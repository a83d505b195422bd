-- ===== src/Ledger/Events/Examples.antt =====
-- Examples of copied events.
use Prim.Native.Nat.{max}
use gg_agent_server.Prelude.{
  ℕ, suc, String, ◌≡◌, refl, true, Option, none, some, [], ◌∷◌, is_some, or_default,
}
use gg_agent_server.Result.{ok}
use gg_agent_server.Table.{find_where, update_where, insert_unique}
use gg_agent_server.Sdk.Tasks.{TaskState}
use gg_agent_server.Sdk.Domain.{Event}
use gg_agent_server.Sdk.Samples.{event_of, sample_codec}
use gg_agent_server.Ledger.Rows.{Ledger}
use gg_agent_server.Ledger.Samples.{ledger_of}
use gg_agent_server.Ledger.Sandboxes.{require_payload}
use gg_agent_server.Ledger.Sandboxes.Soundness.{require_payload-ok}
use gg_agent_server.Ledger.Events.{
  identity_row, copy_row, advance_counter, insert_new_event, insert_task_event, is_ordered,
  event_source_cursor, raise_source_cursor, last_seq, copied_log_bytes, event_payload, copy_events,
  copy_page, copy_task_event_page,
}
use gg_agent_server.Ledger.Events.Cursors.{last_cursor, insert_task_event-once}
use gg_agent_server.Ledger.Events.Pages.{copy_task_event_page-cursor}

abbrev running_ledger : Ledger
running_ledger = ledger_of TaskState.running

abbrev copied : Ledger
copied = record running_ledger {
  event_counters = record { task_id = "a"; value = 1 } ∷ [];
  event_identities = identity_row "a" "conversation" 4 1 ∷ [];
  event_copies = copy_row "a" "conversation" 4 1 "hello" 9 ∷ [];
}

abbrev first_cursor : Option ℕ
first_cursor = some 1

has_guard : require_payload "a" running_ledger ≡ ok tt
unfolding find_where
has_guard = require_payload-ok "a" running_ledger refl

copies : insert_task_event "a" "conversation" 4 "hello" 9 running_ledger ≡ ok (first_cursor, copied)
unfolding insert_task_event insert_new_event advance_counter find_where update_where insert_unique
copies = rw has_guard refl

insert_task_event-once_example :
    (insert_task_event "a" "conversation" 4 "other" 10 copied ≡ ok (none, copied))
    × (is_some first_cursor ≡ true
        → first_cursor ≡ some (suc (last_cursor "a" running_ledger.event_counters)))
    × (last_cursor "a" copied.event_counters
        ≡ or_default first_cursor (last_cursor "a" running_ledger.event_counters))
insert_task_event-once_example =
    insert_task_event-once "a" "conversation" 4 "hello" "other" 9 10 running_ledger copies

abbrev clock : Event → ℕ
clock event = 9

abbrev drawn : Event → String × ℕ
drawn event = ("new", 2)

abbrev paged : Ledger
paged = record copied {
  source_cursors = record { task_id = "a"; source_id = "conversation"; source_seq = 4 } ∷ [];
}

copies_page :
    copy_task_event_page sample_codec drawn "a" "conversation" none clock
      (event_of "hello" 4 ∷ [])
      running_ledger
    ≡ ok ((1, event_of "hello" 0) ∷ [], paged)
unfolding copy_task_event_page copy_page copy_events event_payload copied_log_bytes
    insert_task_event insert_new_event advance_counter raise_source_cursor is_ordered last_seq
    find_where update_where insert_unique
copies_page = rw has_guard refl

copy_task_event_page-cursor_example :
    (is_ordered 0 (event_of "hello" 4 ∷ []) ≡ true)
    × (event_source_cursor "a" "conversation" paged
        ≡ max
            (event_source_cursor "a" "conversation" running_ledger)
            (last_seq (event_of "hello" 4) []))
copy_task_event_page-cursor_example =
    copy_task_event_page-cursor sample_codec drawn "a" "conversation" none clock
      (event_of "hello" 4) [] running_ledger copies_page
