-- ===== src/Lifecycle/Credentials/Examples.antt =====
-- Examples of a sandbox's variables: the server has its own tokens, and the task has an owner.
use gg_agent_server.Prelude.{◌≡◌, refl, none, some, [], ◌∷◌}
use gg_agent_server.Result.{ok}
use gg_agent_server.Sdk.Tasks.{TaskRecord, TaskState}
use gg_agent_server.Ledger.Rows.{row_to_record}
use gg_agent_server.Ledger.Samples.{task_in}
use gg_agent_server.Ledger.Sandboxes.Polled.{created}
use gg_agent_server.Lifecycle.Credentials.{
  Variables, Identity, GithubCredential, personal_env, env_of,
}
use gg_agent_server.Lifecycle.Credentials.Isolation.{IsPersonal, env_of-IsPersonal}

abbrev identity : Identity
identity = record {
  deployment = "d";
  name = λ id. id;
  tags = λ id. id;
  sandbox_env = ("GH_TOKEN", "server") ∷ ("OPENROUTER_API_KEY", "server") ∷ [];
}

owned : TaskRecord
unfolding row_to_record
owned = row_to_record (record (task_in TaskState.queued "a" 1) { owner_id = some "me" }) none

credential : GithubCredential
credential = record { token = "t"; base_sha = "sha" }

env : Variables
env =
    ("GG_TASK_ID", "a")
    ∷ ("GG_SESSION_API_KEYS", created.session_api_key)
    ∷ ("GG_GITHUB_CLONE_TOKEN", "t")
    ∷ ("OPENROUTER_API_KEY", "mine")
    ∷ ("GG_TASK_SUPERVISOR_DIR", "/workspace/task-supervisor")
    ∷ ("GG_CONVERSATIONS_DIR", "/workspace/conversations")
    ∷ ("GG_WORKSPACE_DIR", "/workspace/project")
    ∷ []

made : env_of identity "a" owned created (some ("mine", 1)) (some credential) ≡ ok env
unfolding env_of personal_env owned env credential
made = refl

env_of-IsPersonal_example : IsPersonal (some ("mine", 1)) (some credential) env
unfolding owned row_to_record
env_of-IsPersonal_example =
    env_of-IsPersonal identity "a" owned created (some ("mine", 1)) (some credential) refl made
