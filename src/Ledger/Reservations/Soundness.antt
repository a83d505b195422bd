-- ===== src/Ledger/Reservations/Soundness.antt =====
-- Reservations keep the ledger sound.
use gg_agent_server.Prelude.{
  ℕ, String, ◌≡◌, refl, sym, ap, subst, ◌∙◌, true, Option, none, some, List, is_some, Bool-cases,
  Option-cases, inl, inr,
}
use gg_agent_server.Result.{
  ok, assertion_error, AfterOk-bind, returned, after_ok, fetched, fetched-eq-ok,
}
use gg_agent_server.Table.{delete_where, insert_unique}
use gg_agent_server.Table.Rows.{
  All-insert, All-update, All-delete, All-of_find_none, insert_unique-eq-ok, Distinct-insert,
  Distinct-update, Distinct-delete,
}
use gg_agent_server.Sdk.Tasks.{TaskState}
use gg_agent_server.Ledger.Rows.{TaskRow, ReservationPhase, ReservationRecord, Ledger}
use gg_agent_server.Ledger.Tasks.{find_task, has_id}
use gg_agent_server.Ledger.Reservations.{
  reserves, next_waiting, new_reservation, claimed_ledger, claim, claim_next, reserve_next,
  publish_state, update_reservations, update_reservation, task_state_is_terminal,
  release_reservation,
}
use gg_agent_server.Ledger.Soundness.{same_reservation, IsSound, KeepsSound, with_reservations}
use gg_agent_server.Ledger.Soundness.Updates.{keep_all, update_task-IsSound, is_some-changed}

-- The row that is claimed is in the table, since it is read back.
claimed-is_some :
    (row claimed : TaskRow) (now : ℕ) (rows : List ReservationRecord) (l : Ledger)
    → fetched assertion_error (find_task row.id (claimed_ledger row now rows l)) ≡ ok claimed
    → is_some (find_task row.id l) ≡ true
claimed-is_some row claimed now rows l found =
    sym (is_some-changed (has_id row.id) _ keep_all (record l { reservations = rows }) row.id)
    ∙ ap is_some (fetched-eq-ok assertion_error _ found)

claim-IsSound : (row : TaskRow) (now : ℕ) → KeepsSound (claim row now)
unfolding claim
claim-IsSound row now l h =
    let reservation = new_reservation row.id now in
    AfterOk-bind (insert_unique (reserves row.id) reservation l.reservations) _ λ rows inserted.
      AfterOk-bind (fetched assertion_error (find_task row.id (claimed_ledger row now rows l))) _
        λ claimed found.
          let (unique, e) =
            insert_unique-eq-ok (reserves row.id) reservation l.reservations inserted in
          let exists = claimed-is_some row claimed now rows l found in
          let distinct =
            Distinct-insert same_reservation reservation l.reservations
              (All-of_find_none (reserves row.id) l.reservations unique) h.reservations_distinct in
          let sound = with_reservations h _ distinct (
            All-insert (λ r. is_some (find_task r.task_id l) ≡ true) reservation l.reservations
              exists h.reserved) in
          returned (
            update_task-IsSound row.id _ _ keep_all
              (subst (λ rs. IsSound (record l { reservations = rs })) e sound))

claim_next-IsSound : (now : ℕ) → KeepsSound (claim_next now)
unfolding claim_next
claim_next-IsSound now l h = elim (Option-cases (next_waiting l)) [
  | inl e ↦ rw (e, claim_next) (returned h)
  | inr (row, e) ↦ rw (e, claim_next) (claim-IsSound row now l h)
]

pub reserve_next-IsSound : (capacity now : ℕ) → KeepsSound (reserve_next capacity now)
unfolding reserve_next
reserve_next-IsSound capacity now l h = search (after_ok, h, claim_next-IsSound)

publish_state-IsSound :
    (state : Option TaskState) (id : String) (now : ℕ) (l : Ledger)
    → IsSound l
    → IsSound (publish_state state id now l)
unfolding publish_state
publish_state-IsSound none id now l h = h
publish_state-IsSound (some state) id now l h =
    let sound =
      update_task-IsSound id (λ row. record row { state = state; updated_at = now }) l keep_all h in
    elim (Bool-cases (task_state_is_terminal id l)) [ inl e ↦ rw e h | inr e ↦ rw e sound ]

-- A change of other columns.
update_reservations-IsSound :
    (id : String) (change : ReservationRecord → ReservationRecord) (l : Ledger)
    → ((r : ReservationRecord) → (change r).task_id ≡ r.task_id)
    → IsSound l
    → IsSound (update_reservations id change l)
update_reservations-IsSound id change l keep h =
    with_reservations h _
      (Distinct-update same_reservation (reserves id) change (λ r s. rw (keep r))
        (λ r s. rw (keep s)) l.reservations h.reservations_distinct)
      (All-update _ (reserves id) change l.reservations (λ r _ p. rw (keep r) p) h.reserved)

pub update_reservation-IsSound :
    (id : String) (phase : ReservationPhase) (condition : Option String) (state : Option TaskState)
    (now : ℕ)
    → KeepsSound (update_reservation id phase condition state now)
unfolding update_reservation
update_reservation-IsSound id phase condition state now l h =
    let sound = publish_state-IsSound state id now _ (
      update_reservations-IsSound id
        (λ r. record r { phase = phase; condition = condition; updated_at = now }) l (λ r. refl)
        h) in
    search (after_ok, sound)

pub delete_reservation-IsSound :
    (id : String) (l : Ledger)
    → IsSound l
    → IsSound (record l { reservations = delete_where (reserves id) l.reservations })
delete_reservation-IsSound id l h =
    with_reservations h _
      (Distinct-delete same_reservation (reserves id) l.reservations h.reservations_distinct)
      (All-delete _ (reserves id) l.reservations h.reserved)

pub release_reservation-IsSound :
    (id status : String) (now : ℕ) → KeepsSound (release_reservation id status now)
unfolding release_reservation
release_reservation-IsSound id status now l h =
    returned (update_task-IsSound id _ _ keep_all (delete_reservation-IsSound id l h))
