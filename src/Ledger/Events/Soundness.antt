-- ===== src/Ledger/Events/Soundness.antt =====
-- The copies of events keep the ledger sound.
use Prim.Native.String.{len}
use gg_agent_server.Prelude.{
  ℕ, ◌+◌, String, ◌≡◌, true, Option, subst, List, [], ◌∷◌, Option-cases, inl, inr, All,
}
use gg_agent_server.Result.{
  assertion_error, fetched, AfterOk-bind, AfterOk-elim, returned, after_ok,
}
use gg_agent_server.Table.{find_where, insert_unique}
use gg_agent_server.Table.Rows.{All-insert, insert_unique-eq-ok}
use gg_agent_server.Sdk.Domain.{Event, EventCodec}
use gg_agent_server.Ledger.Rows.{EventCopy}
use gg_agent_server.Ledger.Sandboxes.{has_payload}
use gg_agent_server.Ledger.Sandboxes.Soundness.{AfterOk-require_payload}
use gg_agent_server.Ledger.Events.{
  find_identity, counts, advance_counter, clashes_identity, clashes_copy, identity_row, copy_row,
  insert_new_event, insert_task_event, event_payload, copy_events, copied_log_bytes, copy_page,
  copy_task_event_page,
}
use gg_agent_server.Ledger.Soundness.{IsSound, KeepsSound, with_copies, with_source_cursors}

module _ (id source : String) (seq : ℕ) (payload : String) (now : ℕ) where
  insert_new_event-IsSound : KeepsSound (insert_new_event id source seq payload now)
  unfolding insert_new_event
  insert_new_event-IsSound l h = AfterOk-require_payload id l _ λ has.
      let counters = advance_counter id l.event_counters in
      AfterOk-bind (fetched assertion_error (find_where (counts id) counters)) _ λ counter _.
        let identity = identity_row id source seq counter.value in
        let copy = copy_row id source seq counter.value payload now in
        AfterOk-bind (insert_unique (clashes_identity identity) identity l.event_identities) _
          λ identities _.
            AfterOk-bind (insert_unique (clashes_copy copy) copy l.event_copies) _
              λ copies inserted.
                let (_, e) = insert_unique-eq-ok (clashes_copy copy) copy l.event_copies inserted in
                let WithPayload : EventCopy → Type 0 = λ r. has_payload r.task_id l ≡ true in
                let all = All-insert WithPayload copy l.event_copies has h.copies in
                returned (with_copies h counters identities copies (subst (All WithPayload) e all))

  pub insert_task_event-IsSound : KeepsSound (insert_task_event id source seq payload now)
  unfolding insert_task_event
  insert_task_event-IsSound l h = elim (Option-cases (find_identity id source seq l)) [
    | inl e ↦ rw (e, insert_task_event) (insert_new_event-IsSound l h)
    | inr (r, e) ↦ rw (e, insert_task_event) (returned h)
  ]

module _ (codec : EventCodec) (drawn : Event → String × ℕ) (id source : String)
    (max_log_bytes : Option ℕ) (now : Event → ℕ) where
  copy_events-IsSound :
      (log_bytes : ℕ) (events : List Event)
      → KeepsSound (copy_events codec drawn id source max_log_bytes now log_bytes events)
  unfolding copy_events
  copy_events-IsSound log_bytes [] l h = returned h
  copy_events-IsSound log_bytes (event ∷ events) l h =
      let payload = event_payload codec drawn max_log_bytes log_bytes event in
      AfterOk-bind (insert_task_event id source event.seq payload (now event) l) _
        λ (cursor, l') done.
          let sound : IsSound l' =
            AfterOk-elim (insert_task_event-IsSound id source event.seq payload (now event) l h)
              done in
          let later = copy_events-IsSound (log_bytes + len payload) events l' sound in
          elim (Option-cases cursor) [
            | inl e ↦ rw e (copy_events-IsSound log_bytes events l' sound)
            | inr (c, e) ↦ rw e (
                AfterOk-bind
                  (copy_events codec drawn id source max_log_bytes now (log_bytes + len payload)
                    events l')
                  _ λ (inserted, l'') finished. returned (AfterOk-elim later finished))
          ]

  copy_page-IsSound :
      (first : Event) (events : List Event)
      → KeepsSound (copy_page codec drawn id source max_log_bytes now first events)
  unfolding copy_page
  copy_page-IsSound first events l h = AfterOk-require_payload id l _ λ _.
      let bytes = copied_log_bytes id l in
      AfterOk-bind (copy_events codec drawn id source max_log_bytes now bytes (first ∷ events) l) _
        λ (inserted, l') done. returned (
          with_source_cursors (AfterOk-elim (copy_events-IsSound bytes (first ∷ events) l h) done)
            _)

  pub copy_task_event_page-IsSound :
      (events : List Event)
      → KeepsSound (copy_task_event_page codec drawn id source max_log_bytes now events)
  unfolding copy_task_event_page
  copy_task_event_page-IsSound [] l h = returned h
  copy_task_event_page-IsSound (first ∷ events) l h =
      let sound = copy_page-IsSound first events l h in search (after_ok, sound)
