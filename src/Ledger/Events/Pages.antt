-- ===== src/Ledger/Events/Pages.antt =====
-- `copy_task_event_page` of backend/gg/runtime/ledger.py: the cursor of the source over pages.
use Prim.Native.Nat.{max}
use Prim.Native.String.{len}
use gg_agent_server.Prelude.{
  ℕ, ◌+◌, String, ◌≡◌, refl, ap, ◌∙◌, true, Option, List, [], ◌∷◌, leb, length, eq_refl, arith,
  Option-cases, Bool-cases, inl, inr, if◌then◌else◌, ltb,
}
use gg_agent_server.Result.{ok, AfterOk, AfterOk-bind, AfterOk-elim, AfterOk-imp, returned}
use gg_agent_server.Table.{find_where}
use gg_agent_server.Table.Find.{find-update, find-insert_new, find_where_test}
use gg_agent_server.Sdk.Domain.{Event, EventCodec}
use gg_agent_server.Ledger.Rows.{SourceCursor, Ledger}
use gg_agent_server.Ledger.Sandboxes.{require_payload}
use gg_agent_server.Ledger.Events.{
  insert_task_event, event_payload, is_source, event_source_cursor, raise_source_cursor, last_seq,
  is_ordered, copied_log_bytes, copy_events, copy_page, copy_task_event_page,
}
use gg_agent_server.Ledger.Events.Cursors.{insert-source_cursors}

module _ (id source : String) (seq : ℕ) (l : Ledger) where
  raised-cursor :
      event_source_cursor id source
        (record l { source_cursors = raise_source_cursor id source seq l.source_cursors })
      ≡ max (event_source_cursor id source l) seq
  unfolding event_source_cursor raise_source_cursor
  raised-cursor =
      let change : SourceCursor → SourceCursor =
        λ r. record r { source_seq = if ltb r.source_seq seq then seq else r.source_seq } in
      let test = is_source id source in
      let new : SourceCursor = record { task_id = id; source_id = source; source_seq = seq } in
      elim (Option-cases (find_where test l.source_cursors)) [
        | inl e ↦
            rw
              (
                e,
                event_source_cursor,
                raise_source_cursor,
                find-insert_new test new l.source_cursors e (rw (eq_refl id, eq_refl source) refl),
              )
              (ground arith)
        | inr (r, e) ↦
            rw
              (
                e,
                event_source_cursor,
                raise_source_cursor,
                find-update test test change l.source_cursors (λ r. refl),
                e,
                find_where_test test l.source_cursors e,
              )
              (ground arith)
      ]

module _ (codec : EventCodec) (drawn : Event → String × ℕ) (id source : String)
    (max_log_bytes : Option ℕ) (now : Event → ℕ) where
  copy_events-source_cursors :
      (log_bytes : ℕ) (events : List Event) (l : Ledger)
      → AfterOk
          (λ l'. l'.source_cursors ≡ l.source_cursors)
          (copy_events codec drawn id source max_log_bytes now log_bytes events l)
  unfolding copy_events
  copy_events-source_cursors log_bytes [] l = returned refl
  copy_events-source_cursors log_bytes (event ∷ events) l =
      let payload = event_payload codec drawn max_log_bytes log_bytes event in
      AfterOk-bind (insert_task_event id source event.seq payload (now event) l) _
        λ (cursor, l') done.
          let same = insert-source_cursors id source event.seq payload (now event) l done in
          elim (Option-cases cursor) [
            | inl e ↦
                rw e
                  (AfterOk-imp (λ m p. p ∙ same) (copy_events-source_cursors log_bytes events l'))
            | inr (c, e) ↦ rw e (
                AfterOk-bind
                  (copy_events codec drawn id source max_log_bytes now (log_bytes + len payload)
                    events l')
                  _
                  λ (inserted, l'') finished. returned (
                    AfterOk-elim (copy_events-source_cursors (log_bytes + len payload) events l')
                      finished
                    ∙ same))
          ]

  copy_page-cursor :
      (first : Event) (events : List Event) (l : Ledger)
      → AfterOk
          (λ l'.
            event_source_cursor id source l'
            ≡ max (event_source_cursor id source l) (last_seq first events))
          (copy_page codec drawn id source max_log_bytes now first events l)
  unfolding copy_page event_source_cursor
  copy_page-cursor first events l =
      let bytes = copied_log_bytes id l in
      let seq = last_seq first events in
      AfterOk-bind (require_payload id l) _ λ _ _.
        AfterOk-bind (copy_events codec drawn id source max_log_bytes now bytes (first ∷ events) l)
          _
          λ (rows, m) copied.
            let same = AfterOk-elim (copy_events-source_cursors bytes (first ∷ events) l) copied in
            let cursor : List SourceCursor → ℕ =
              λ rows. event_source_cursor id source (record l { source_cursors = rows }) in
            returned (raised-cursor id source seq m ∙ ap (λ rows. max (cursor rows) seq) same)

  -- A page of events that is copied is ordered, and raises the cursor of its source to the number of
  -- its last event, unless the cursor is there or beyond already.
  pub copy_task_event_page-cursor :
      (first : Event) (events : List Event) (l : Ledger) {inserted : List (ℕ × Event)} {l' : Ledger}
      → copy_task_event_page codec drawn id source max_log_bytes now (first ∷ events) l
        ≡ ok (inserted, l')
      → (is_ordered 0 (first ∷ events) ≡ true)
        × (event_source_cursor id source l'
            ≡ max (event_source_cursor id source l) (last_seq first events))
  unfolding copy_task_event_page
  copy_task_event_page-cursor first events l h =
      let page = first ∷ events in
      elim (Bool-cases (leb (length page) 200)) [
        | inr e ↦ cc (rw (e, copy_task_event_page) at h)
        | inl e ↦ elim (Bool-cases (is_ordered 0 page)) [
          | inr f ↦ cc (rw (copy_task_event_page, e, f) at h)
          | inl f ↦ (
            f,
            AfterOk-elim (copy_page-cursor first events l) (rw (copy_task_event_page, e, f) at h),
          )
        ]
      ]
