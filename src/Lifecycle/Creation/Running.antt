-- ===== src/Lifecycle/Creation/Running.antt =====
-- What `create` of backend/gg/runtime/modal_sandbox.py has written where it returns.
use gg_agent_server.Prelude.{String, ◌≡◌, ap, sym, subst, Option, none, some, Bool-cases, inl, inr}
use gg_agent_server.Result.{ok}
use gg_agent_server.Program.{return, raise, read, return-eq, raise-absurd, >>=-returned}
use gg_agent_server.Program.Runs.{Returns, Returns-bind}
use gg_agent_server.Sdk.Tasks.{TaskRecord}
use gg_agent_server.Ledger.Rows.{SandboxCreationRecord, SandboxProviderState}
use gg_agent_server.Ledger.Sandboxes.{get_sandbox_creation, same_provider_state}
use gg_agent_server.Ledger.Sandboxes.Unchanged.{same_provider_state_eq, get_sandbox_creation-id}
use gg_agent_server.Lifecycle.{SandboxSnapshot, World, Texts, update, reconnect}
use gg_agent_server.Lifecycle.Credentials.{Identity, CreationAnswers}
use gg_agent_server.Lifecycle.Creation.{
  Awakened, running_now, to_create, woken, awaken, resolve_answer, launch, create_new,
  create_unless, create,
}
use gg_agent_server.Lifecycle.Shown.{IsStoredAs, Shows, update-Written, reconnect-Shows}

module _ (texts : Texts) where
  launch-Shows :
      (answers : CreationAnswers) (id handle : String)
      → Returns
          (λ s w.
            (s.state ≡ SandboxProviderState.running) × IsStoredAs id SandboxProviderState.running w)
          (launch texts answers id handle)
  unfolding Returns launch return
  launch-Shows answers id handle w s w' h =
      let (creation, u, first, h) =
        >>=-returned (update texts id (some handle) SandboxProviderState.creating none) _ w h in
      let (done, v, second, h) =
        >>=-returned (resolve_answer texts id "startup readiness unresolved: " answers.ready) _ u
          h in
      let (row, x, third, h) =
        >>=-returned (update texts id none SandboxProviderState.running none) _ v h in
      let (same, world_eq) = return-eq h in
      let (there, state_eq) =
        update-Written texts id none SandboxProviderState.running none v row x third in
      (
        ap (λ (s : SandboxSnapshot). s.state) (sym same),
        subst (IsStoredAs id SandboxProviderState.running) world_eq (row, there, state_eq),
      )

  -- What a call that returns has.
  abbrev Runs : String → SandboxSnapshot → World → Type 0
  Runs id s w =
      (s.state ≡ SandboxProviderState.running) × IsStoredAs id SandboxProviderState.running w

  create_new-Runs :
      (identity : Identity) (answers : CreationAnswers) (id : String) (task : TaskRecord)
      (existing : Option SandboxCreationRecord)
      → Returns (Runs id) (create_new texts identity answers id task existing)
  unfolding create_new
  create_new-Runs identity answers id task existing = Returns-bind (Runs id) _ _ λ key.
      Returns-bind (Runs id) _ _ λ github. Returns-bind (Runs id) _ _ λ _.
        Returns-bind (Runs id) _ _
          λ creation. Returns-bind (Runs id) _ _ λ handle. launch-Shows answers id handle

  -- What has been found to run is stored so.
  Found : String → Awakened → World → Type 0
  Found id (running_now s) w = Runs id s w
  Found id (to_create existing) w = Unit

  woken-Found :
      (id : String) (s : SandboxSnapshot) (w : World)
      → IsStoredAs id s.state w
      → (a : Awakened) (w' : World) → woken texts id s w ≡ (ok a, w')
      → Found id a w'
  unfolding woken return raise Found read
  woken-Found id s w stored a w' h =
      elim (Bool-cases (same_provider_state s.state SandboxProviderState.running)) [
        | inl e ↦
            let state_eq = same_provider_state_eq s.state SandboxProviderState.running e in
            let (same, world_eq) = return-eq (rw (woken, e) at h) in
            subst (λ w'. Found id a w') world_eq
              (subst (λ a. Found id a w) same
                (state_eq, subst (λ state. IsStoredAs id state w) state_eq stored))
        | inr e ↦ elim (Bool-cases (same_provider_state s.state SandboxProviderState.stopped)) [
          | inl f ↦
              let (_, v, first, rest) = >>=-returned _ _ w (rw (woken, e, f) at h) in
              let (same, world_eq) = return-eq rest in subst (λ a. Found id a w') same tt
          | inr f ↦ raise-absurd (rw (woken, e, f) at h)
        ]
      ]

  awaken-Found :
      (answers : CreationAnswers) (id : String) (existing : Option SandboxCreationRecord)
      (w : World)
      → get_sandbox_creation id w.ledger ≡ existing
      → (a : Awakened) (w' : World) → awaken texts answers id existing w ≡ (ok a, w')
      → Found id a w'
  unfolding awaken return Found Returns
  awaken-Found answers id none w stored a w' h =
      let (same, _) = return-eq h in subst (λ a. Found id a w') same tt
  awaken-Found answers id (some existing) w stored a w' h =
      let (seen, v, first, rest) =
        >>=-returned (reconnect texts answers.reconnected existing) _ w h in
      let shown = reconnect-Shows texts answers.reconnected existing w seen v first in
      let mine = subst (λ id. Shows id seen v) (get_sandbox_creation-id id w.ledger stored) shown in
      woken-Found id (seen.0) v mine a w' rest

  unless-Runs :
      (identity : Identity) (answers : CreationAnswers) (id : String) (task : TaskRecord)
      (a : Awakened) (w : World) (s : SandboxSnapshot) (w' : World)
      → Found id a w
      → create_unless texts identity answers id task a w ≡ (ok s, w')
      → Runs id s w'
  unfolding create_unless return Found Returns
  unless-Runs identity answers id task (running_now s') w s w' found h =
      let (same, world_eq) = return-eq h in
      subst (λ w'. Runs id s w') world_eq (subst (λ s. Runs id s w) same found)
  unless-Runs identity answers id task (to_create existing) w s w' found h =
      create_new-Runs identity answers id task existing w s w' h

-- A `create` that returns reports that the sandbox is running, and this is what the ledger then holds
-- for the task, whether the sandbox was found running or has been created.
pub create-running :
    (texts : Texts) (identity : Identity) (answers : CreationAnswers) (id : String) (w : World)
    {s : SandboxSnapshot} {w' : World}
    → create texts identity answers id w ≡ (ok s, w')
    → (s.state ≡ SandboxProviderState.running) × IsStoredAs id SandboxProviderState.running w'
unfolding create read
create-running texts identity answers id w {s} {w'} h =
    let (task, u, first, h) = >>=-returned _ _ w h in
    let (existing, v, second, h) = >>=-returned _ _ u h in
    let (awakened, x, third, h) = >>=-returned (awaken texts answers id existing) _ v h in
    let (existing_eq, world_eq) = return-eq second in
    let stored = subst (λ v. get_sandbox_creation id v.ledger ≡ existing) world_eq existing_eq in
    unless-Runs texts identity answers id task awakened x s w'
      (awaken-Found texts answers id existing v stored awakened x third) h
