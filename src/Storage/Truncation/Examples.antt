-- ===== src/Storage/Truncation/Examples.antt =====
-- An example of an event that fits.
use gg_agent_server.Prelude.{◌+◌, ◌≤◌, ◌<◌, ◌≡◌, false}
use gg_agent_server.Sdk.Domain.{Event}
use gg_agent_server.Sdk.Samples.{event_of, sample_codec}
use gg_agent_server.Storage.Truncation.{truncate_event_json}
use gg_agent_server.Storage.Truncation.Cap.{IsCapped, truncate_event_json-IsCapped}

abbrev event : Event
event = event_of "hello" 1

truncate_event_json-IsCapped_example :
    ((truncate_event_json sample_codec ("new", 2) event 20 10).1 ≡ false
      → ((truncate_event_json sample_codec ("new", 2) event 20 10).0 ≡ "hello") × (5 + 10 ≤ 20))
    × (10 < 20
        → 5 + 10 ≤ 20
        → truncate_event_json sample_codec ("new", 2) event 20 10 ≡ ("hello", false))
    × IsCapped sample_codec
        ("new", 2)
        event
        20
        10
        (truncate_event_json sample_codec ("new", 2) event 20 10).0
truncate_event_json-IsCapped_example =
    truncate_event_json-IsCapped sample_codec ("new", 2) event 20 10
