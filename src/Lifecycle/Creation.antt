-- ===== src/Lifecycle/Creation.antt =====
-- `create` of backend/gg/runtime/modal_sandbox.py. Each outside answer is used at most once.
pub mod Guard
pub mod Running
mod Examples
use gg_agent_server.Prelude.{ℕ, suc, String, Option, none, some, map_option, if◌then◌else◌}
use gg_agent_server.Result.{
  Result, Error, ok, err, fetched, ambiguous_provider_state_error, modal_lifecycle_error,
}
use gg_agent_server.Program.{Program, return, raise, transact, read, catch, ◌>>=◌, ◌>>◌}
use gg_agent_server.Sdk.Tasks.{TaskRecord}
use gg_agent_server.Ledger.Rows.{Ledger, SandboxCreationRecord, SandboxProviderState}
use gg_agent_server.Ledger.Tasks.{get, record_base_sha}
use gg_agent_server.Ledger.Sandboxes.{
  get_sandbox_creation, begin_sandbox_creation, set_sandbox_credential_version,
  reset_sandbox_for_wake, same_provider_state,
}
use gg_agent_server.Lifecycle.{SandboxSnapshot, World, Texts, update, reconnect, unresolved}
use gg_agent_server.Lifecycle.Credentials.{
  GithubCredential, Identity, CreationAnswers, personal_key, github_credential, env_of, ask,
}

abbrev pub with_reading {ℓ} : {A : Type ℓ} → World → Result (A × Ledger) → Result (A × World)
with_reading w (ok (a, l)) = ok (a, record { ledger = l; readings = suc w.readings })
with_reading w (err e) = err e

-- What `create` finds: it returns at once, or goes on with or without a stored creation.
pub data Awakened : Type 0 where
  running_now : SandboxSnapshot → Awakened
  to_create : Option SandboxCreationRecord → Awakened

module _ (texts : Texts) where
  -- A transaction of the ledger that reads the clock.
  unfoldable pub write_at : {A : Type 0} → (ℕ → Ledger → Result (A × Ledger)) → Program World A
  write_at body = transact (λ w. with_reading w (body (texts.now w.readings) w.ledger))

  unfoldable pub woken : String → SandboxSnapshot → Program World Awakened
  woken task_id s =
      if same_provider_state s.state SandboxProviderState.running
      then return (running_now s)
      else (if same_provider_state s.state SandboxProviderState.stopped
          then (write_at (reset_sandbox_for_wake task_id)
              >> read (λ w. ok (to_create (get_sandbox_creation task_id w.ledger))))
          else raise ambiguous_provider_state_error)

  unfoldable pub awaken :
      CreationAnswers → String → Option SandboxCreationRecord → Program World Awakened
  awaken answers task_id none = return (to_create none)
  awaken answers task_id (some existing) =
      reconnect texts answers.reconnected existing >>= λ seen. woken task_id (seen.0)

  -- `record_base_sha` for a task that gets a credential
  unfoldable pub note_base : String → Option GithubCredential → Program World (Unit {0})
  note_base task_id none = return tt
  note_base task_id (some c) =
      write_at (λ now l. record_base_sha task_id c.base_sha now l) >>= λ row. return tt

  unfoldable pub intend :
      Identity
      → CreationAnswers
      → String
      → Option ℕ
      → Option SandboxCreationRecord
      → Program World SandboxCreationRecord
  intend identity answers task_id version (some existing) =
      write_at (λ now. set_sandbox_credential_version task_id version) >>= λ row. read (λ w. row)
  intend identity answers task_id version none =
      write_at (
        begin_sandbox_creation (record {
          task_id = task_id;
          deployment = identity.deployment;
          sandbox_name = identity.name task_id;
          tags_json = identity.tags task_id;
          session_api_key = answers.session_api_key;
          credential_version = version;
        }))
      >>= λ begun. return (begun.0)

  -- `except Exception` around an answer of the provider
  unfoldable pub resolve_answer : {A : Type 0} → String → String → Result A → Program World A
  resolve_answer task_id what answer =
      catch (read (λ w. answer))
        λ e. unresolved texts task_id what e >>= λ s. raise ambiguous_provider_state_error

  unfoldable pub launch : CreationAnswers → String → String → Program World SandboxSnapshot
  launch answers task_id handle = do
    creation ← update texts task_id (some handle) SandboxProviderState.creating none
    _ ← resolve_answer task_id "startup readiness unresolved: " answers.ready
    _ ← update texts task_id none SandboxProviderState.running none
    return (record {
      task_id = task_id;
      provider_id = creation.provider_id;
      state = SandboxProviderState.running;
      detail = none;
    })

  unfoldable pub create_new :
      Identity
      → CreationAnswers
      → String
      → TaskRecord
      → Option SandboxCreationRecord
      → Program World SandboxSnapshot
  create_new identity answers task_id task existing = do
    key ← read (λ w. personal_key answers task.owner_id)
    github ← read (λ w. github_credential answers.credential task.owner_id task.repository)
    _ ← note_base task_id github
    creation ← intend identity answers task_id (map_option (λ k. k.1) key) existing
    handle ←
        resolve_answer task_id "create response unresolved: "
          (ask answers.created (env_of identity task_id task creation key github))
    launch answers task_id handle

  unfoldable pub create_unless :
      Identity → CreationAnswers → String → TaskRecord → Awakened → Program World SandboxSnapshot
  create_unless identity answers task_id task (running_now s) = return s
  create_unless identity answers task_id task (to_create existing) =
      create_new identity answers task_id task existing

  unfoldable pub create : Identity → CreationAnswers → String → Program World SandboxSnapshot
  create identity answers task_id = do
    task ← read (λ w. fetched modal_lifecycle_error (get task_id none w.ledger))
    existing ← read (λ w. ok (get_sandbox_creation task_id w.ledger))
    awakened ← awaken answers task_id existing
    create_unless identity answers task_id task awakened
