-- ===== src/Ledger/Reservations/Terminal.antt =====
-- `update_reservation` of backend/gg/runtime/ledger.py: the public state of a finished task stays.
use gg_agent_server.Prelude.{
  ℕ, String, ◌≡◌, refl, ap, subst, ◌∙◌, sym, Option, none, some, Bool-cases, Option-cases,
  map_option, inl, inr, if◌then◌else◌, nat_eq,
}
use gg_agent_server.Result.{
  ok, require, fetched, fetched-eq-ok, assertion_error, >>=-eq-ok, key_error,
}
use gg_agent_server.Table.{find_where, count_where}
use gg_agent_server.Table.Find.{find_where_test, find-update, find-updated}
use gg_agent_server.Sdk.Tasks.{TaskState}
use gg_agent_server.Ledger.Rows.{Ledger, TaskRow, ReservationRecord, ReservationPhase}
use gg_agent_server.Ledger.Tasks.{find_task, has_id}
use gg_agent_server.Ledger.Reservations.{
  is_terminal, task_state_is_terminal, publish_state, update_reservation, update_reservations,
  reserves, get_reservation,
}

-- What a reservation's change of the public state does to the row of its task.
abbrev pub published : Option TaskState → ℕ → TaskRow → TaskRow
published none now row = row
published (some state) now row =
    if is_terminal row.state then row else record row { state = state; updated_at = now }

find-publish :
    (state : Option TaskState) (id : String) (now : ℕ) (l : Ledger)
    → find_task id (publish_state state id now l)
      ≡ map_option (published state now) (find_task id l)
unfolding publish_state task_state_is_terminal
find-publish none id now l = elim (Option-cases (find_task id l)) [
  | inl e ↦ rw e refl
  | inr (row, e) ↦ rw e refl
]
find-publish (some state) id now l = elim (Option-cases (find_task id l)) [
  | inl e ↦
      rw (e, publish_state, task_state_is_terminal)
        (find-update (has_id id) (has_id id) _ l.tasks (λ r. refl) ∙ rw e refl)
  | inr (row, e) ↦ elim (Bool-cases (is_terminal row.state)) [
    | inl f ↦ rw (e, publish_state, task_state_is_terminal, f) e
    | inr f ↦
        rw (e, publish_state, task_state_is_terminal, f)
          (find-update (has_id id) (has_id id) _ l.tasks (λ r. refl)
            ∙ rw (e, find_where_test (has_id id) l.tasks e) refl)
  ]
]

publish-reservations :
    (state : Option TaskState) (id : String) (now : ℕ) (l : Ledger)
    → (publish_state state id now l).reservations ≡ l.reservations
unfolding publish_state
publish-reservations none id now l = refl
publish-reservations (some state) id now l = elim (Bool-cases (task_state_is_terminal id l)) [
  | inl e ↦ rw (e, publish_state) refl
  | inr e ↦ rw (e, publish_state) refl
]

-- An `update_reservation` that returns has set the phase and the condition of the reservation, and
-- the row of the task is as before where the task's state is terminal or no state is given;
-- otherwise the task has the given state.
pub update_reservation-terminal :
    (id : String) (phase : ReservationPhase) (condition : Option String) (state : Option TaskState)
    (now : ℕ) (l : Ledger) {r : ReservationRecord} {l' : Ledger}
    → update_reservation id phase condition state now l ≡ ok (r, l')
    → (find_task id l' ≡ map_option (published state now) (find_task id l))
      × (get_reservation id l' ≡ some r)
      × (r.phase ≡ phase)
      × (r.condition ≡ condition)
unfolding update_reservation get_reservation
update_reservation-terminal id phase condition state now l {r} {l'} h =
    let change : ReservationRecord → ReservationRecord =
      λ r. record r { phase = phase; condition = condition; updated_at = now } in
    let changed = update_reservations id change l in
    let (_, one, h') =
      >>=-eq-ok (require (nat_eq (count_where (reserves id) l.reservations) 1) key_error) _ h in
    let (row, found, h'') =
      >>=-eq-ok (fetched assertion_error (get_reservation id (publish_state state id now changed)))
        _ h' in
    let ledger_eq : publish_state state id now changed ≡ l' = cc h'' in
    let row_eq : row ≡ r = cc h'' in
    let there = fetched-eq-ok assertion_error _ found in
    let updated =
      ap (find_where (reserves id)) (sym (publish-reservations state id now changed)) ∙ there in
    let (old, _, same) = find-updated (reserves id) change l.reservations (λ r. refl) updated in
    (
      subst (λ m. find_task id m ≡ map_option (published state now) (find_task id l)) ledger_eq
          (find-publish state id now changed),
      subst (λ m. get_reservation id m ≡ some r) ledger_eq (there ∙ ap some row_eq),
      ap (λ r. r.phase) (sym row_eq ∙ same),
      ap (λ r. r.condition) (sym row_eq ∙ same),
    )
