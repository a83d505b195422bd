-- ===== src/Sandbox/EventLog/Examples.antt =====
-- An example of the event log.
use gg_agent_server.Prelude.{arith, ◌≡◌, refl, none, [], ◌∷◌, suc, pos}
use gg_agent_server.Result.{ok}
use gg_agent_server.Table.{find_where, select_where, order_by}
use gg_agent_server.Sdk.Samples.{event_of}
use gg_agent_server.Sandbox.{SandboxState}
use gg_agent_server.Sandbox.Samples.{empty_state}
use gg_agent_server.Sandbox.EventLog.{event_row, append, max_seq, next_seq, list}
use gg_agent_server.Sandbox.EventLog.Refinement.{append-list}

abbrev logged : SandboxState
logged = record empty_state {
  conversations = record { directory = "c"; meta_json = none; base_json = none } ∷ [];
  events = event_row "c" (event_of "two" 2) ∷ event_row "c" (event_of "one" 1) ∷ [];
}

append-list_example :
    (s' : SandboxState) × (append "c" (event_of "three" 3) logged ≡ ok (tt, s'))
    × (list "c" (pos 1) none s' ≡ ok (event_of "two" 2 ∷ event_of "three" 3 ∷ []))
    × (next_seq "c" s' ≡ suc (next_seq "c" logged))
unfolding list next_seq max_seq find_where select_where order_by
append-list_example =
    append-list "c" (event_of "three" 3) logged 1 refl refl refl (omega arith) refl
