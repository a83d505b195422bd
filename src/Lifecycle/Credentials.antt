-- ===== src/Lifecycle/Credentials.antt =====
-- The credentials and the variables that `create` of backend/gg/runtime/modal_sandbox.py gives to a
-- sandbox.
pub mod Isolation
mod Examples
use Prim.Native.String.{◌++◌}
use gg_agent_server.Prelude.{
  ℕ, suc, String, Bool, true, false, Option, none, some, List, [], ◌∷◌, ◌==◌, if◌then◌else◌,
  map_option,
}
use gg_agent_server.Result.{
  Result, Error, ok, err, fetched, ambiguous_provider_state_error, modal_lifecycle_error,
  credential_unavailable_error, assertion_error,
}
use gg_agent_server.Program.{Program, return, raise, transact, read, catch, ◌>>=◌, ◌>>◌}
use gg_agent_server.Sdk.Tasks.{TaskRecord}
use gg_agent_server.Ledger.Rows.{Ledger, SandboxCreationRecord, SandboxProviderState}
use gg_agent_server.Ledger.Tasks.{get, record_base_sha}
use gg_agent_server.Ledger.Sandboxes.{
  SandboxIntent, get_sandbox_creation, begin_sandbox_creation, set_sandbox_credential_version,
  reset_sandbox_for_wake, same_provider_state,
}
use gg_agent_server.Lifecycle.{
  SandboxSnapshot, snapshot, World, Texts, Answers, update, reconnect, unresolved,
}

-- The variables of a sandbox: a later entry of a name replaces an earlier one.
abbrev pub Variables : Type 0
Variables = List (String × String)

abbrev pub pop : String → Variables → Variables
pop name [] = []
pop name ((key, value) ∷ env) = if key == name then pop name env else (key, value) ∷ pop name env

abbrev pub set : String → String → Variables → Variables
set name value env = (name, value) ∷ pop name env

pub record GithubCredential : Type 0 where
  pub token : String
  pub base_sha : String

-- `_sandbox_identity`, which is not modelled, and what the lifecycle was made with.
pub record Identity : Type 0 where
  pub deployment : String
  pub name : String → String
  pub tags : String → String
  pub sandbox_env : Variables

-- What the vault, the verifier and GitHub answer, where there are any, and the provider.
pub record CreationAnswers : Type 0 where
  pub reconnected : Answers
  pub resolved : Option (Result (Option (String × ℕ)))
  pub verified : Option (Result (Unit {0}))
  pub credential : Option (Result GithubCredential)
  pub session_api_key : String
  pub created : Variables → Result String
  pub ready : Result (Unit {0})

-- `except …: raise CredentialUnavailableError`
abbrev is_vault_error : Error → Bool
is_vault_error Error.invalid_token_error = true
is_vault_error Error.sqlite_error = true
is_vault_error _ = false

abbrev is_verifier_error : Error → Bool
is_verifier_error Error.http_exception = true
is_verifier_error _ = false

abbrev is_access_error : Error → Bool
is_access_error Error.repository_access_error = true
is_access_error _ = false

abbrev unavailable_if {ℓ} : {A : Type ℓ} → (Error → Bool) → Result A → Result A
unavailable_if caught (ok a) = ok a
unavailable_if caught (err e) = err (if caught e then credential_unavailable_error else e)

abbrev key_of : Option (Result (Option (String × ℕ))) → Result (String × ℕ)
key_of none = err credential_unavailable_error
key_of (some (err e)) = unavailable_if is_vault_error (err e)
key_of (some (ok none)) = err credential_unavailable_error
key_of (some (ok (some resolved))) = ok resolved

abbrev verify : Option (Result (Unit {0})) → String × ℕ → Result (Option (String × ℕ))
verify none resolved = ok (some resolved)
verify (some (ok done)) resolved = ok (some resolved)
verify (some (err e)) resolved = unavailable_if is_verifier_error (err e)

abbrev verify_key : Option (Result (Unit {0})) → Result (String × ℕ) → Result (Option (String × ℕ))
verify_key verified (ok resolved) = verify verified resolved
verify_key verified (err e) = err e

-- The personal key and its version, where the task has an owner.
unfoldable pub personal_key : CreationAnswers → Option String → Result (Option (String × ℕ))
personal_key answers none = ok none
personal_key answers (some owner) = verify_key answers.verified (key_of answers.resolved)

unfoldable pub github_credential :
    Option (Result GithubCredential)
    → Option String
    → Option String
    → Result (Option GithubCredential)
github_credential answer none repository = ok none
github_credential answer (some owner) none = ok none
github_credential none (some owner) (some repository) = err credential_unavailable_error
github_credential (some (ok c)) (some owner) (some repository) = ok (some c)
github_credential (some (err e)) (some owner) (some repository) =
    unavailable_if is_access_error (err e)

abbrev with_clone_token : Option GithubCredential → Variables → Variables
with_clone_token none env = env
with_clone_token (some c) env = set "GG_GITHUB_CLONE_TOKEN" c.token env

-- A personal task gets none of the server's own credentials.
unfoldable pub personal_env :
    Option String → Option (String × ℕ) → Option GithubCredential → Variables → Result Variables
personal_env none key github env = ok env
personal_env (some owner) none github env = err assertion_error
personal_env (some owner) (some (key, version)) github env = ok (
    with_clone_token github (
      set "OPENROUTER_API_KEY" key (
        pop "GG_PI_OWNS_PUBLICATION" (
          pop "GITHUB_TOKEN"
            (pop "GH_TOKEN" (pop "GG_GITHUB_CLONE_TOKEN" (pop "OPENROUTER_API_KEY" env)))))))

abbrev workspace_env : Variables → Variables
workspace_env env = set "GG_TASK_SUPERVISOR_DIR" "/workspace/task-supervisor" (
    set "GG_CONVERSATIONS_DIR" "/workspace/conversations"
      (set "GG_WORKSPACE_DIR" "/workspace/project" env))

abbrev finish_env : String → String → Result Variables → Result Variables
finish_env session_api_key task_id (ok env) =
    ok (set "GG_TASK_ID" task_id (set "GG_SESSION_API_KEYS" session_api_key env))
finish_env session_api_key task_id (err e) = err e

unfoldable pub env_of :
    Identity
    → String
    → TaskRecord
    → SandboxCreationRecord
    → Option (String × ℕ)
    → Option GithubCredential
    → Result Variables
env_of identity task_id task creation key github =
    finish_env creation.session_api_key task_id
      (personal_env task.owner_id key github (workspace_env identity.sandbox_env))

abbrev pub ask : (Variables → Result String) → Result Variables → Result String
ask created (ok env) = created env
ask created (err e) = err e
