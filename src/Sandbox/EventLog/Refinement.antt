-- ===== src/Sandbox/EventLog/Refinement.antt =====
-- `EventLog` of sandboxes/gg/server/agent/event_log.py as a list that grows at its end.
use Prim.Native.Nat.{max}
use gg_agent_server.Prelude.{
  ℕ, suc, ◌≤◌, ◌<◌, String, ◌≡◌, refl, true, ◌&&◌, none, List, [], ◌∷◌, map, ltb, ◌==◌, is_some,
  arith, All, pos, eq_refl,
}
use gg_agent_server.Result.{ok}
use gg_agent_server.Table.{find_where, select_where, order_by, insert_row, insert_unique}
use gg_agent_server.Table.Rows.{
  All-imp, All-both, All-select, All-of_find_none, All-select_test, find-none_of_All,
}
use gg_agent_server.Table.Order.{All-of_select}
use gg_agent_server.Table.Append.{select-insert, order_by-insert, map-insert}
use gg_agent_server.Sdk.Domain.{Event}
use gg_agent_server.Sandbox.{EventRow, SandboxState}
use gg_agent_server.Sandbox.EventLog.{
  find_conversation, clashes_event, event_row, append, of_conversation, max_seq, next_seq, seq_le,
  list,
}

max_seq-All : (m : ℕ) (rows : List EventRow) → max_seq rows ≤ m → All (λ r. r.seq ≤ m) rows
unfolding max_seq
max_seq-All m [] h = tt
max_seq-All m (r ∷ rows) h = (omega (arith, h), max_seq-All m rows (omega (arith, h)))

max_seq-insert :
    (r : EventRow) (rows : List EventRow) → max_seq (insert_row r rows) ≡ max (max_seq rows) r.seq
unfolding max_seq
max_seq-insert r [] = omega arith
max_seq-insert r (s ∷ rows) = omega (arith, max_seq-insert r rows)

module _ (key : String) (event : Event) (s : SandboxState) where
  module _ (next : event.seq ≡ next_seq key s) where
    -- The numbers of the conversation are below the next one.
    below : All (λ r. of_conversation key r ≡ true → r.seq < event.seq) s.events
    unfolding next_seq
    below =
        All-imp _ _ s.events (λ r h mine. omega (arith, h mine, next))
          (All-of_select (λ r. r.seq ≤ max_seq (select_where (of_conversation key) s.events))
            (of_conversation key) s.events (max_seq-All _ _ (omega arith)))

    fresh :
        find_where (λ (r : EventRow). r.id == event.id) s.events ≡ none
        → find_where (clashes_event (event_row key event)) s.events ≡ none
    fresh new = find-none_of_All (clashes_event (event_row key event)) s.events (
        All-imp _ _ s.events (λ r h. ground (arith, h.0, h.1))
          (All-both _ _ s.events below (All-of_find_none _ s.events new)))

    -- What is selected comes before the new row.
    sorted :
        (n : ℕ)
        → All
            (λ r. seq_le r (event_row key event) ≡ true)
            (select_where (λ r. of_conversation key r && ltb n r.seq) s.events)
    sorted n =
        let shown = λ (r : EventRow). of_conversation key r && ltb n r.seq in
        All-imp _ _ (select_where shown s.events) (λ r h. ground (arith, h.0, h.1))
          (All-both _ _ (select_where shown s.events) (All-select _ shown s.events below)
            (All-select_test shown s.events))

    appended : SandboxState
    appended = record s { events = insert_row (event_row key event) s.events }

    append-eq :
        is_some (find_conversation key s) ≡ true
        → find_where (λ (r : EventRow). r.id == event.id) s.events ≡ none
        → append key event s ≡ ok (tt, appended)
    unfolding append appended insert_unique next_seq
    append-eq opened new =
        let positive : ltb 0 event.seq ≡ true = rw next (ground arith) in
        let none_clashes = fresh new in
        rw (append, opened, positive, insert_unique, none_clashes) refl

-- An event with the number that `next_seq` gives, and with an identifier that no event has, is
-- appended to a conversation that is open. Whatever a reader has seen up to, it is the one new event
-- at the end of what is listed to it, and `next_seq` goes up by one.
pub append-list :
    (key : String) (event : Event) (s : SandboxState) (n : ℕ) {logged : List Event}
    → event.seq ≡ next_seq key s
    → is_some (find_conversation key s) ≡ true
    → find_where (λ (r : EventRow). r.id == event.id) s.events ≡ none
    → n < event.seq
    → list key (pos n) none s ≡ ok logged
    → (s' : SandboxState) × (append key event s ≡ ok (tt, s'))
      × (list key (pos n) none s' ≡ ok (insert_row event logged))
      × (next_seq key s' ≡ suc (next_seq key s))
unfolding list appended next_seq
append-list key event s n {logged} next opened new after h =
    let shown = λ (r : EventRow). of_conversation key r && ltb n r.seq in
    let seen : ltb n event.seq ≡ true = ground (arith, after) in
    let same : map (λ (r : EventRow). r.payload) (order_by seq_le (select_where shown s.events))
        ≡ logged =
      cc h in
    (
      appended key event s next,
      append-eq key event s next opened new,
      rw
          (
            select-insert shown (event_row key event) s.events,
            eq_refl key,
            seen,
            order_by-insert seq_le (event_row key event) (select_where shown s.events)
                (sorted key event s next n),
            map-insert,
            same,
          )
          refl,
      rw
          (
            select-insert (of_conversation key) (event_row key event) s.events,
            eq_refl key,
            max_seq-insert (event_row key event) (select_where (of_conversation key) s.events),
          )
          (omega (arith, next)),
    )
