-- ===== src/Ledger/Events/Cursors.antt =====
-- `copy_task_event` and `copy_task_event_page` of backend/gg/runtime/ledger.py: an event is copied
-- once, under the next cursor of its task, and the cursor of a source only rises.
use gg_agent_server.Prelude.{
  ℕ, suc, String, ◌≡◌, refl, ap, sym, subst, ◌∙◌, true, Option, none, some, List, is_some,
  map_option, or_default, eq_refl, arith, Option-cases, inl, inr,
}
use gg_agent_server.Result.{ok, assertion_error, fetched, fetched-eq-ok, >>=-eq-ok}
use gg_agent_server.Table.{find_where, insert_row, insert_unique}
use gg_agent_server.Table.Find.{find-update, find-insert_new, find_where_test}
use gg_agent_server.Table.Rows.{insert_unique-eq-ok}
use gg_agent_server.Ledger.Rows.{EventCounter, Ledger}
use gg_agent_server.Ledger.Sandboxes.{require_payload}
use gg_agent_server.Ledger.Events.{
  is_identity, find_identity, counts, advance_counter, clashes_identity, clashes_copy, identity_row,
  copy_row, insert_new_event, insert_task_event,
}

-- The last cursor of a task, 0 before the first.
abbrev pub last_cursor : String → List EventCounter → ℕ
last_cursor id rows =
    or_default (map_option (λ (r : EventCounter). r.value) (find_where (counts id) rows)) 0

advance-last_cursor :
    (id : String) (rows : List EventCounter)
    → last_cursor id (advance_counter id rows) ≡ suc (last_cursor id rows)
unfolding advance_counter
advance-last_cursor id rows =
    let change : EventCounter → EventCounter = λ r. record r { value = suc r.value } in
    let zero_row : EventCounter = record { task_id = id; value = 0 } in
    elim (Option-cases (find_where (counts id) rows)) [
      | inr (r, e) ↦
          rw (e, advance_counter)
            (rw
              (
                find-update (counts id) (counts id) change rows (λ r. refl),
                e,
                find_where_test (counts id) rows e,
              )
              refl)
      | inl e ↦
          rw (e, advance_counter)
            (rw
              (
                find-update (counts id) (counts id) change (insert_row zero_row rows) (λ r. refl),
                find-insert_new (counts id) zero_row rows e (eq_refl id),
                eq_refl id,
              )
              refl)
    ]

module _ (id source : String) (seq : ℕ) (payload : String) (now : ℕ) (l : Ledger)
    {cursor : Option ℕ} {l' : Ledger} where
  -- A new event takes the next cursor, and its identity is kept.
  new-cursor :
      find_identity id source seq l ≡ none
      → insert_new_event id source seq payload now l ≡ ok (cursor, l')
      → (cursor ≡ some (suc (last_cursor id l.event_counters)))
        × (last_cursor id l'.event_counters ≡ suc (last_cursor id l.event_counters))
        × (is_some (find_identity id source seq l') ≡ true)
        × (l'.source_cursors ≡ l.source_cursors)
  unfolding insert_new_event
  new-cursor fresh h =
      let counters = advance_counter id l.event_counters in
      let (_, guard, h₁) = >>=-eq-ok (require_payload id l) _ h in
      let (counter, found, h₂) =
        >>=-eq-ok (fetched assertion_error (find_where (counts id) counters)) _ h₁ in
      let identity = identity_row id source seq counter.value in
      let (identities, inserted, h₃) =
        >>=-eq-ok (insert_unique (clashes_identity identity) identity l.event_identities) _ h₂ in
      let copy = copy_row id source seq counter.value payload now in
      let (copies, _, h₄) =
        >>=-eq-ok (insert_unique (clashes_copy copy) copy l.event_copies) _ h₃ in
      let there = fetched-eq-ok assertion_error _ found in
      let value_eq : counter.value ≡ suc (last_cursor id l.event_counters) =
        ap (λ o. or_default (map_option (λ (r : EventCounter). r.value) o) 0) (sym there)
        ∙ advance-last_cursor id l.event_counters in
      let (_, e) =
        insert_unique-eq-ok (clashes_identity identity) identity l.event_identities inserted in
      let kept : find_identity id source seq (record l { event_identities = identities })
          ≡ some identity =
        ap (find_where (is_identity id source seq)) (sym e)
        ∙ find-insert_new (is_identity id source seq) identity l.event_identities fresh
            (rw (eq_refl id, eq_refl source) (ground arith)) in
      let ledger_eq : record l {
        event_counters = counters;
        event_identities = identities;
        event_copies = copies;
      }
          ≡ l' =
        cc h₄ in
      let cursor_eq : some counter.value ≡ cursor = cc h₄ in
      (
        sym cursor_eq ∙ ap some value_eq,
        ap (λ m. last_cursor id m.event_counters) (sym ledger_eq)
            ∙ advance-last_cursor id l.event_counters,
        ap (λ m. is_some (find_identity id source seq m)) (sym ledger_eq) ∙ ap is_some kept,
        ap (λ m. m.source_cursors) (sym ledger_eq),
      )

  pub insert-source_cursors :
      insert_task_event id source seq payload now l ≡ ok (cursor, l')
      → l'.source_cursors ≡ l.source_cursors
  unfolding insert_task_event
  insert-source_cursors h = elim (Option-cases (find_identity id source seq l)) [
    | inl e ↦ (new-cursor e (rw (e, insert_task_event) at h)).3
    | inr (existing, e) ↦
        let done = rw (e, insert_task_event) at h in
        let ledger_eq : l ≡ l' = cc done in ap (λ m. m.source_cursors) (sym ledger_eq)
  ]

-- An event that is copied a second time, whatever its text, is not inserted: no cursor is returned
-- and the ledger stays as it is. The first copy takes the cursor after the task's last one, and the
-- last one stays where it inserts none.
pub insert_task_event-once :
    (id source : String) (seq : ℕ) (payload again : String) (now later : ℕ) (l : Ledger)
    {cursor : Option ℕ} {l' : Ledger}
    → insert_task_event id source seq payload now l ≡ ok (cursor, l')
    → (insert_task_event id source seq again later l' ≡ ok (none, l'))
      × (is_some cursor ≡ true → cursor ≡ some (suc (last_cursor id l.event_counters)))
      × (last_cursor id l'.event_counters ≡ or_default cursor (last_cursor id l.event_counters))
unfolding insert_task_event
insert_task_event-once id source seq payload again now later l {cursor} {l'} h =
    elim (Option-cases (find_identity id source seq l)) [
      | inl e ↦
          let (is_next, advanced, known, _) =
            new-cursor id source seq payload now l e (rw (e, insert_task_event) at h) in
          (
            elim (Option-cases (find_identity id source seq l')) [
              | inl f ↦ cc (rw f at known)
              | inr (existing, f) ↦ rw (f, insert_task_event) refl
            ],
            λ _. is_next,
            advanced ∙ rw is_next refl,
          )
      | inr (existing, e) ↦
          let done = rw (e, insert_task_event) at h in
          let ledger_eq : l ≡ l' = cc done in
          let cursor_eq : none ≡ cursor = cc done in
          (
            subst (λ m. insert_task_event id source seq again later m ≡ ok (none, m)) ledger_eq
                (rw (e, insert_task_event) refl),
            λ some_given. cc (rw (sym cursor_eq) at some_given),
            rw (sym ledger_eq, sym cursor_eq) refl,
          )
    ]
