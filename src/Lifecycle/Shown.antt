-- ===== src/Lifecycle/Shown.antt =====
-- `_reconnect` of backend/gg/runtime/modal_sandbox.py: a snapshot shows what is stored.
use gg_agent_server.Prelude.{ℕ, String, ◌≡◌, refl, ap, subst, Option, none, some, List, [], ◌∷◌, ℤ}
use gg_agent_server.Result.{Result, ok, err, conflicting_sandboxes_error}
use gg_agent_server.Program.{return, raise, transact, settle, return-eq, raise-absurd, >>=-returned}
use gg_agent_server.Program.Runs.{Returns}
use gg_agent_server.Ledger.Rows.{Ledger, SandboxCreationRecord, SandboxProviderState}
use gg_agent_server.Ledger.Sandboxes.{get_sandbox_creation, update_sandbox_creation}
use gg_agent_server.Ledger.Sandboxes.Unchanged.{
  update_sandbox_creation-state, get_sandbox_creation-id,
}
use gg_agent_server.Lifecycle.{
  SandboxSnapshot, snapshot, World, Texts, Lookup, Answers, without_changes, update, report, polled,
  looked_up, discovered, located, reconnect,
}

-- The creation of the task is stored in that state.
abbrev pub IsStoredAs : String → SandboxProviderState → World → Type 0
IsStoredAs id state w =
    (row : SandboxCreationRecord) × (get_sandbox_creation id w.ledger ≡ some row)
    × (row.provider_state ≡ state)

abbrev Seen : Type 0
Seen = SandboxSnapshot × Option String

-- A snapshot shows what is stored.
abbrev pub Shows : String → Seen → World → Type 0
Shows id seen w = IsStoredAs id (seen.0).state w

abbrev pub Written : String → SandboxProviderState → SandboxCreationRecord → World → Type 0
Written id state row w =
    (get_sandbox_creation id w.ledger ≡ some row) × (row.provider_state ≡ state)

written :
    (id : String) (w : World) (state : SandboxProviderState)
    (r : Result (SandboxCreationRecord × Ledger × ℕ)) {row : SandboxCreationRecord} {w' : World}
    → ((row : SandboxCreationRecord) (l : Ledger) (changes : ℕ)
        → r ≡ ok (row, l, changes)
        → (row.provider_state ≡ state) × (get_sandbox_creation id l ≡ some row))
    → settle w (without_changes w r) ≡ (ok row, w')
    → Written id state row w'
written id w state (ok (found, l, changes)) {row} {w'} h e =
    let (same, world_eq) = return-eq e in
    let (state_eq, stored) = h found l changes refl in
    subst (λ w'. Written id state row w') world_eq
      (subst (λ r. (get_sandbox_creation id l ≡ some r) × (r.provider_state ≡ state)) same
        (stored, state_eq))
written id w state (err e) h x = raise-absurd x

module _ (texts : Texts) where
  pub update-Written :
      (id : String) (provider_id : Option String) (state : SandboxProviderState)
      (detail : Option String)
      → Returns (Written id state) (update texts id provider_id state detail)
  unfolding Returns update transact
  update-Written id provider_id state detail w row w' h =
      written id w state
        (update_sandbox_creation id provider_id state detail (texts.now w.readings) w.ledger)
        (λ row l changes e.
          update_sandbox_creation-state id provider_id state detail (texts.now w.readings) w.ledger
            e)
        h

  report-Shows :
      (id : String) (state : SandboxProviderState) (detail handle : Option String)
      → Returns (Shows id) (report texts id state detail handle)
  unfolding Returns report return
  report-Shows id state detail handle w seen w' h =
      let (row, v, stored, done) =
        >>=-returned (update texts id none state detail)
          (λ updated. return (snapshot updated, handle)) w h in
      let (same, world_eq) = return-eq done in
      let (there, state_eq) = update-Written id none state detail w row v stored in
      subst (λ u. Shows id seen u) world_eq (row, there, ap (λ (s : Seen). (s.0).state) same)

  polled-Shows :
      (id handle : String) (poll : Result (Option ℤ))
      → Returns (Shows id) (polled texts id handle poll)
  unfolding polled
  polled-Shows id handle (err e) = report-Shows id SandboxProviderState.unknown _ (some handle)
  polled-Shows id handle (ok none) = report-Shows id SandboxProviderState.running none (some handle)
  polled-Shows id handle (ok (some code)) =
      report-Shows id SandboxProviderState.stopped _ (some handle)

  looked_up-Shows :
      (id provider_id : String) (answers : Answers) (lookup : Lookup)
      → Returns (Shows id) (looked_up texts id provider_id answers lookup)
  unfolding looked_up
  looked_up-Shows id provider_id answers Lookup.found = polled-Shows id provider_id answers.poll
  looked_up-Shows id provider_id answers Lookup.missing =
      report-Shows id SandboxProviderState.stopped _ none
  looked_up-Shows id provider_id answers (Lookup.failed e) =
      report-Shows id SandboxProviderState.unknown _ none

  discovered-Shows :
      (id : String) (answers : Answers) (find : Result (List String))
      → Returns (Shows id) (discovered texts id answers find)
  unfolding Returns discovered raise
  discovered-Shows id answers (err e) w seen w' h =
      report-Shows id SandboxProviderState.unknown _ none w seen w' h
  discovered-Shows id answers (ok []) w seen w' h =
      report-Shows id SandboxProviderState.stopped _ none w seen w' h
  discovered-Shows id answers (ok (handle ∷ [])) w seen w' h =
      let (row, v, stored, done) =
        >>=-returned (update texts id (some handle) SandboxProviderState.creating none)
          (λ creation. polled texts creation.task_id handle answers.poll) w h in
      let (there, state_eq) =
        update-Written id (some handle) SandboxProviderState.creating none w row v stored in
      subst (λ id. Shows id seen w') (get_sandbox_creation-id id v.ledger there)
        (polled-Shows row.task_id handle answers.poll v seen w' done)
  discovered-Shows id answers (ok (handle ∷ other ∷ more)) w seen w' h =
      let (row, v, stored, done) =
        >>=-returned
          (update texts id none SandboxProviderState.unknown
            (some "multiple provider sandboxes match deterministic identity"))
          (λ updated. raise conflicting_sandboxes_error) w h in
      raise-absurd done

  located-Shows :
      (id : String) (answers : Answers) (provider_id : Option String)
      → Returns (Shows id) (located texts id answers provider_id)
  located-Shows id answers none = discovered-Shows id answers answers.find
  located-Shows id answers (some provider_id) =
      looked_up-Shows id provider_id answers answers.from_id

  pub reconnect-Shows :
      (answers : Answers) (creation : SandboxCreationRecord)
      → Returns (Shows creation.task_id) (reconnect texts answers creation)
  unfolding reconnect
  reconnect-Shows answers creation = located-Shows creation.task_id answers creation.provider_id
