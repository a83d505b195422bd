-- ===== src/Sdk/Samples.antt =====
-- A codec for the examples, in which an event's text is its identifier.
use gg_agent_server.Prelude.{ℕ, String, [], arith}
use gg_agent_server.Sdk.Domain.{EventKind, Event, EventCodec}

abbrev pub event_of : String → ℕ → Event
event_of id seq = record {
  id = id;
  seq = seq;
  kind = EventKind.message;
  payload = [];
  created_at = 1;
}

abbrev pub sample_codec : EventCodec
sample_codec = record {
  dump = λ event. event.id;
  validate = λ s. event_of s 0;
  shown_length = λ value. 0;
  prefix = λ s n. "";
  prefix_fits = λ s n. omega arith;
}
