-- ===== src/Sandbox/Supervisor.antt =====
-- `TaskSupervisorService` of sandboxes/gg/server/task_supervisor/service.py: what it stores of an
-- execution. Git, the file system and the conversation service answer as an argument says.
pub mod Pipeline
pub mod Start
pub mod Stored
pub mod Startup
pub mod TakingOver
pub mod Closing
pub mod Owned
pub mod Ending
pub mod Phases
mod Examples
use gg_agent_server.Prelude.{
  ℕ, suc, String, Bool, true, false, Option, none, some, List, [], ◌∷◌, ◌==◌, if◌then◌else◌,
}
use gg_agent_server.Result.{Result, Error, ok, err, key_error}
use gg_agent_server.Program.{Program, return, raise, transact, read, modify, for_each, ◌>>=◌, ◌>>◌}
use gg_agent_server.Sdk.Execution.{
  TaskExecutionPhase, AgentOutcome, CheckOutcome, TaskExecutionRecord, TaskResultManifest,
}
use gg_agent_server.Sandbox.{SandboxState, Write}
use gg_agent_server.Sandbox.Executions.{
  save_execution, save_manifest, load_manifest, list_non_terminal, manifest_reference,
}
use gg_agent_server.Sandbox.Redaction.{redact_given, redact_secrets}

-- What the service is configured with, the path of its database, the clock at each reading, and the
-- text of an exception.
pub record Settings : Type 0 where
  pub github_token : Option String
  pub openrouter_api_key : Option String
  pub path : String
  pub now : ℕ → ℕ
  pub str : Error → String

-- `_active` has the executions whose pipelines run; `readings` counts those of the clock.
pub record Service : Type 0 where
  pub state : SandboxState
  pub active : List String
  pub started : Bool
  pub readings : ℕ

abbrev pub stored {ℓ} : {A : Type ℓ} → Service → Result (A × SandboxState) → Result (A × Service)
stored service (ok (a, s)) = ok (a, record service { state = s })
stored service (err e) = err e

abbrev pub commit : {A : Type 0} → Write A → Program Service A
commit body = transact (λ service. stored service (body service.state))

-- `given or current`: an empty text counts as absent.
abbrev pub given_or : Option String → Option String → Option String
given_or none current = current
given_or (some s) current = if s == "" then current else some s

abbrev pub succeeded : AgentOutcome → Bool
succeeded AgentOutcome.succeeded = true
succeeded AgentOutcome.no_changes = true
succeeded _ = false

abbrev pub terminal_phase : AgentOutcome → TaskExecutionPhase
terminal_phase outcome =
    if succeeded outcome then TaskExecutionPhase.completed else TaskExecutionPhase.failed

abbrev pub phased :
    TaskExecutionRecord
    → TaskExecutionPhase
    → Option String
    → Option String
    → ℕ
    → TaskExecutionRecord
phased execution phase manifest_path outcome_detail now = record execution {
  phase = phase;
  manifest_path = given_or manifest_path execution.manifest_path;
  outcome_detail = given_or outcome_detail execution.outcome_detail;
  updated_at = now;
}

abbrev pub tick : Service → Service
tick service = record service { readings = suc service.readings }

-- The arguments of `_finalize_failure`, without the captures, which are always absent.
pub record Failure : Type 0 where
  pub detail : String
  pub github_token : Option String
  pub agent_outcome : AgentOutcome
  pub repository : Option String
  pub task_branch : Option String
  pub base_ref : Option String
  pub base_sha : Option String
  pub conversation_id : Option String

module _ (settings : Settings) where
  unfoldable pub update_phase :
      TaskExecutionRecord
      → TaskExecutionPhase
      → Option String
      → Option String
      → Program Service (Unit {0})
  update_phase execution phase manifest_path outcome_detail service =
      commit
        (save_execution
          (phased execution phase manifest_path outcome_detail (settings.now service.readings)))
        (tick service)

  abbrev pub secrets : Option String → List (Option String)
  secrets github_token = settings.openrouter_api_key ∷ settings.github_token ∷ github_token ∷ []

  -- `_redact_manifest`, and the manifest stored
  unfoldable pub store_manifest : Option String → TaskResultManifest → Program Service String
  store_manifest github_token manifest =
      commit (save_manifest settings.path (redact_secrets (secrets github_token) manifest))

  abbrev redacted_detail : Failure → String
  redacted_detail f = redact_given settings.github_token (redact_given f.github_token f.detail)

  abbrev pub failed_manifest : TaskExecutionRecord → Failure → ℕ → TaskResultManifest
  failed_manifest execution f now = record {
    task_id = execution.task_id;
    execution_id = execution.execution_id;
    repository = given_or f.repository execution.repository;
    task_branch = given_or f.task_branch execution.task_branch;
    base_ref = given_or f.base_ref execution.base_ref;
    base_sha = f.base_sha;
    head_sha = none;
    changed_files = [];
    patch = none;
    patch_truncated = false;
    bootstrap = none;
    check = none;
    check_outcome = CheckOutcome.not_run;
    agent_outcome = f.agent_outcome;
    conversation_id = given_or f.conversation_id execution.conversation_id;
    outcome_detail = some (redacted_detail f);
    completed_at = some now;
  }

  unfoldable pub finalize_failure : TaskExecutionRecord → Failure → Program Service (Unit {0})
  finalize_failure execution f service =
      (store_manifest f.github_token (failed_manifest execution f (settings.now service.readings))
          >>= λ reference.
              update_phase execution TaskExecutionPhase.failed (some reference)
                (some (redacted_detail f)))
        (tick service)

  abbrev pub lost : TaskExecutionRecord → Failure
  lost execution = record {
    detail = "supervisor ownership lost on process restart";
    github_token = none;
    agent_outcome = AgentOutcome.not_run;
    repository = execution.repository;
    task_branch = execution.task_branch;
    base_ref = execution.base_ref;
    base_sha = none;
    conversation_id = none;
  }

  -- One execution that a restart found: its work is lost, or its manifest says how it ended.
  abbrev pub recover_execution :
      TaskExecutionRecord → Result TaskResultManifest → Program Service (Unit {0})
  recover_execution execution (err Error.key_error) = finalize_failure execution (lost execution)
  recover_execution execution (err e) = raise e
  recover_execution execution (ok manifest) =
      update_phase execution (terminal_phase manifest.agent_outcome)
        (some (manifest_reference settings.path execution.execution_id)) manifest.outcome_detail

  unfoldable pub take_over : TaskExecutionRecord → Program Service (Unit {0})
  take_over execution service =
      recover_execution execution (load_manifest execution.execution_id service.state) service

  unfoldable pub startup : Program Service (Unit {0})
  startup service =
      if service.started
      then (ok tt, service)
      else for_each take_over (list_non_terminal service.state) (record service { started = true })

-- `shutdown`, once the tasks are cancelled
abbrev pub shutdown : Service → Service
shutdown service = record service { active = []; started = false }
