-- ===== src/Lifecycle/Credentials/Isolation.antt =====
-- Which credentials reach the sandbox of a personal task, by `create` of
-- backend/gg/runtime/modal_sandbox.py.
use gg_agent_server.Prelude.{
  ℕ, String, ◌≡◌, refl, sym, ◌∙◌, subst, false, Option, none, some, [], ◌∷◌, ◌==◌, eq_iff, eq_refl,
  inl, inr, Bool-cases, if◌then◌else◌, map_option,
}
use gg_agent_server.Result.{Result, ok}
use gg_agent_server.Sdk.Tasks.{TaskRecord}
use gg_agent_server.Ledger.Rows.{SandboxCreationRecord}
use gg_agent_server.Lifecycle.Credentials.{
  Variables, pop, set, GithubCredential, Identity, with_clone_token, personal_env, workspace_env,
  env_of,
}

-- `env.get(name)`
abbrev pub variable : String → Variables → Option String
variable name [] = none
variable name ((key, value) ∷ env) = if key == name then some value else variable name env

variable-pop : (name : String) (env : Variables) → variable name (pop name env) ≡ none
variable-pop name [] = refl
variable-pop name ((key, value) ∷ env) = elim (Bool-cases (key == name)) [
  | inl e ↦ rw e (variable-pop name env)
  | inr e ↦ rw (e, e) (variable-pop name env)
]

variable-pop_other :
    (name other : String) (env : Variables)
    → (other == name) ≡ false
    → variable name (pop other env) ≡ variable name env
variable-pop_other name other [] h = refl
variable-pop_other name other ((key, value) ∷ env) h = elim (Bool-cases (key == other)) [
  | inl e ↦
      let same : (key == name) ≡ false =
        subst (λ k. (k == name) ≡ false) (sym ((eq_iff key other).0 e)) h in
      rw (e, same) (variable-pop_other name other env h)
  | inr e ↦ elim (Bool-cases (key == name)) [
    | inl k ↦ rw (e, k) refl
    | inr k ↦ rw (e, k) (variable-pop_other name other env h)
  ]
]

variable-set_other :
    (name other value : String) (env : Variables)
    → (other == name) ≡ false
    → variable name (set other value env) ≡ variable name env
variable-set_other name other value env h = rw h (variable-pop_other name other env h)

variable-set :
    (name value : String) (env : Variables) → variable name (set name value env) ≡ some value
variable-set name value env = rw (eq_refl name) refl

-- The variables that are set last are no credentials.
variable-finished :
    (name id session_api_key : String) (env : Variables)
    → ("GG_TASK_ID" == name) ≡ false
    → ("GG_SESSION_API_KEYS" == name) ≡ false
    → variable name (set "GG_TASK_ID" id (set "GG_SESSION_API_KEYS" session_api_key env))
      ≡ variable name env
variable-finished name id session_api_key env h k =
    variable-set_other name "GG_TASK_ID" id (set "GG_SESSION_API_KEYS" session_api_key env) h
    ∙ variable-set_other name "GG_SESSION_API_KEYS" session_api_key env k

variable-cloned :
    (name : String) (github : Option GithubCredential) (env : Variables)
    → ("GG_GITHUB_CLONE_TOKEN" == name) ≡ false
    → variable name (with_clone_token github env) ≡ variable name env
variable-cloned name none env h = refl
variable-cloned name (some c) env h = variable-set_other name "GG_GITHUB_CLONE_TOKEN" c.token env h

-- The variables of a personal task: its own key and clone token, and none of the server's.
abbrev pub IsPersonal : Option (String × ℕ) → Option GithubCredential → Variables → Type 0
IsPersonal key github env =
    ((k : String) × (version : ℕ) × (key ≡ some (k, version))
      × (variable "OPENROUTER_API_KEY" env ≡ some k))
    × (variable "GG_GITHUB_CLONE_TOKEN" env ≡ map_option (λ c. c.token) github)
    × (variable "GH_TOKEN" env ≡ none)
    × (variable "GITHUB_TOKEN" env ≡ none)
    × (variable "GG_PI_OWNS_PUBLICATION" env ≡ none)

abbrev without_clone : Variables → Variables
without_clone env = pop "GG_GITHUB_CLONE_TOKEN" (pop "OPENROUTER_API_KEY" env)

abbrev without_gh : Variables → Variables
without_gh env = pop "GH_TOKEN" (without_clone env)

abbrev without_github : Variables → Variables
without_github env = pop "GITHUB_TOKEN" (without_gh env)

abbrev emptied : Variables → Variables
emptied env = pop "GG_PI_OWNS_PUBLICATION" (without_github env)

module _ (key : String) (env : Variables) where
  clone_token :
      (github : Option GithubCredential)
      → variable "GG_GITHUB_CLONE_TOKEN"
          (with_clone_token github (set "OPENROUTER_API_KEY" key (emptied env)))
        ≡ map_option (λ c. c.token) github
  clone_token (some c) =
      variable-set "GG_GITHUB_CLONE_TOKEN" c.token (set "OPENROUTER_API_KEY" key (emptied env))
  clone_token none =
      variable-set_other "GG_GITHUB_CLONE_TOKEN" "OPENROUTER_API_KEY" key (emptied env) refl
      ∙ variable-pop_other "GG_GITHUB_CLONE_TOKEN" "GG_PI_OWNS_PUBLICATION" (without_github env)
          refl
      ∙ variable-pop_other "GG_GITHUB_CLONE_TOKEN" "GITHUB_TOKEN" (without_gh env) refl
      ∙ variable-pop_other "GG_GITHUB_CLONE_TOKEN" "GH_TOKEN" (without_clone env) refl
      ∙ variable-pop "GG_GITHUB_CLONE_TOKEN" (pop "OPENROUTER_API_KEY" env)

  module _ (id session_api_key : String) (github : Option GithubCredential) where
    abbrev cloned : Variables
    cloned = with_clone_token github (set "OPENROUTER_API_KEY" key (emptied env))

    kept :
        (name : String)
        → ("GG_TASK_ID" == name) ≡ false
        → ("GG_SESSION_API_KEYS" == name) ≡ false
        → ("GG_GITHUB_CLONE_TOKEN" == name) ≡ false
        → ("OPENROUTER_API_KEY" == name) ≡ false
        → variable name (
            set "GG_TASK_ID" id (
              set "GG_SESSION_API_KEYS" session_api_key
                (with_clone_token github (set "OPENROUTER_API_KEY" key (emptied env)))))
          ≡ variable name (emptied env)
    kept name a b c d =
        variable-finished name id session_api_key cloned a b
        ∙ variable-cloned name github (set "OPENROUTER_API_KEY" key (emptied env)) c
        ∙ variable-set_other name "OPENROUTER_API_KEY" key (emptied env) d

    finished-IsPersonal :
        (version : ℕ)
        → IsPersonal (some (key, version)) github (
            set "GG_TASK_ID" id (
              set "GG_SESSION_API_KEYS" session_api_key
                (with_clone_token github (set "OPENROUTER_API_KEY" key (emptied env)))))
    finished-IsPersonal version = (
      (
        key,
        version,
        refl,
        variable-finished "OPENROUTER_API_KEY" id session_api_key cloned refl refl
            ∙ variable-cloned "OPENROUTER_API_KEY" github
                (set "OPENROUTER_API_KEY" key (emptied env)) refl
            ∙ variable-set "OPENROUTER_API_KEY" key (emptied env),
      ),
      variable-finished "GG_GITHUB_CLONE_TOKEN" id session_api_key cloned refl refl
          ∙ clone_token github,
      kept "GH_TOKEN" refl refl refl refl
          ∙ variable-pop_other "GH_TOKEN" "GG_PI_OWNS_PUBLICATION" (without_github env) refl
          ∙ variable-pop_other "GH_TOKEN" "GITHUB_TOKEN" (without_gh env) refl
          ∙ variable-pop "GH_TOKEN" (without_clone env),
      kept "GITHUB_TOKEN" refl refl refl refl
          ∙ variable-pop_other "GITHUB_TOKEN" "GG_PI_OWNS_PUBLICATION" (without_github env) refl
          ∙ variable-pop "GITHUB_TOKEN" (without_gh env),
      kept "GG_PI_OWNS_PUBLICATION" refl refl refl refl
          ∙ variable-pop "GG_PI_OWNS_PUBLICATION" (without_github env),
    )

ok-eq : {a b : Variables} → Path (Result Variables) (ok a) (ok b) → a ≡ b
ok-eq h = cc h

-- The variables of a sandbox for a task that has an owner: the key is the owner's own, the clone token
-- is that of the credential for the task's repository or absent, and the server's own tokens, and its
-- leave to publish, are absent, whatever the server's settings hold.
pub env_of-IsPersonal :
    (identity : Identity) (id : String) (task : TaskRecord) (creation : SandboxCreationRecord)
    (key : Option (String × ℕ)) (github : Option GithubCredential) {owner : String}
    {env : Variables}
    → task.owner_id ≡ some owner
    → env_of identity id task creation key github ≡ ok env
    → IsPersonal key github env
unfolding env_of personal_env
env_of-IsPersonal identity id task creation none github owned made = cc (rw owned at made)
env_of-IsPersonal identity id task creation (some (key, version)) github owned made =
    subst (IsPersonal (some (key, version)) github) (ok-eq (rw owned at made)) (
      finished-IsPersonal key (workspace_env identity.sandbox_env) id creation.session_api_key
        github version)
