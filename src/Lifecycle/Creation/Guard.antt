-- ===== src/Lifecycle/Creation/Guard.antt =====
-- `create` of backend/gg/runtime/modal_sandbox.py: no second sandbox for a task.
use gg_agent_server.Prelude.{
  String, ◌≡◌, refl, ◌⊎◌, inl, inr, Option, none, some, Option-cases, Bool-cases,
}
use gg_agent_server.Result.{Result, ok, err}
use gg_agent_server.Program.{proceed, return, raise, read, ◌>>=◌}
use gg_agent_server.Sdk.Tasks.{TaskRecord}
use gg_agent_server.Ledger.Rows.{SandboxCreationRecord, SandboxProviderState}
use gg_agent_server.Ledger.Tasks.{get}
use gg_agent_server.Ledger.Sandboxes.{get_sandbox_creation, same_provider_state}
use gg_agent_server.Ledger.Sandboxes.Unchanged.{same_provider_state_eq}
use gg_agent_server.Lifecycle.{SandboxSnapshot, World, Texts, reconnect}
use gg_agent_server.Lifecycle.Confirmed.{IsConfirmed, reconnect-IsConfirmed}
use gg_agent_server.Lifecycle.Credentials.{Identity, CreationAnswers}
use gg_agent_server.Lifecycle.Creation.{woken, awaken, create_unless, create}

module _ (texts : Texts) (identity : Identity) (answers other : CreationAnswers) (id : String)
    (creation : SandboxCreationRecord) (w : World) where
  -- What comes after `_reconnect` does not depend on the other answers, unless the provider confirmed
  -- that the sandbox is stopped.
  after_reconnect :
      (task : TaskRecord) (p : Result (SandboxSnapshot × Option String) × World)
      → reconnect texts answers.reconnected creation w ≡ p
      → (proceed (proceed p (λ seen. woken texts id (seen.0))) (
            create_unless texts identity
              (record other { reconnected = answers.reconnected })
              id
              task)
          ≡ proceed
              (proceed p (λ seen. woken texts id (seen.0)))
              (create_unless texts identity answers id task))
        ⊎ IsConfirmed creation.provider_id answers.reconnected
  unfolding woken create_unless return raise
  after_reconnect task (err e, w') h = inl refl
  after_reconnect task (ok seen, w') h =
      elim (Bool-cases (same_provider_state (seen.0).state SandboxProviderState.running)) [
        | inl e ↦ inl (rw (woken, e) refl)
        | inr e ↦
            elim (Bool-cases (same_provider_state (seen.0).state SandboxProviderState.stopped)) [
              | inl f ↦ inr (
                  reconnect-IsConfirmed texts answers.reconnected creation w h
                    (same_provider_state_eq (seen.0).state SandboxProviderState.stopped f))
              | inr f ↦ inl (rw (woken, e, f) refl)
            ]
      ]

-- Where the creation of a task's sandbox is stored already, `create` gives the same result and the same
-- world whatever the vault, the verifier, GitHub and the provider's `create` would answer, unless the
-- provider has confirmed that the stored sandbox is gone or has exited.
pub create-IsGuarded :
    (texts : Texts) (identity : Identity) (answers other : CreationAnswers) (id : String)
    (creation : SandboxCreationRecord) (w : World)
    → get_sandbox_creation id w.ledger ≡ some creation
    → (create texts identity (record other { reconnected = answers.reconnected }) id w
        ≡ create texts identity answers id w)
      ⊎ IsConfirmed creation.provider_id answers.reconnected
unfolding create awaken read ◌>>=◌
create-IsGuarded texts identity answers other id creation w stored =
    elim (Option-cases (get id none w.ledger)) [
      | inl e ↦ inl (rw (create, e) refl)
      | inr (task, e) ↦
          rw (create, e, stored)
            (after_reconnect texts identity answers other id creation w task
              (reconnect texts answers.reconnected creation w) refl)
    ]
