-- ===== src/Sandbox/Supervisor/Pipeline.antt =====
-- `start`, `_run_pipeline` and `_run_agent` of sandboxes/gg/server/task_supervisor/service.py.
use gg_agent_server.Prelude.{
  ℕ, String, Bool, true, false, not, ◌&&◌, Option, none, some, List, [], ◌==◌, is_some,
  if◌then◌else◌,
}
use gg_agent_server.Result.{Result, Error, ok, err, assertion_error, git_prep_error}
use gg_agent_server.Program.{Program, return, raise, read, modify, demand, catch, ◌>>=◌, ◌>>◌}
use gg_agent_server.Sdk.Domain.{ConversationStatus}
use gg_agent_server.Sdk.Execution.{
  TaskExecutionPhase, AgentOutcome, CheckOutcome, StartTaskExecutionRequest, TaskExecutionRecord,
  TaskResultManifest,
}
use gg_agent_server.Sandbox.Executions.{conversation_id, save_execution}
use gg_agent_server.Sandbox.Supervisor.{
  Settings, Service, Failure, commit, terminal_phase, tick, update_phase, store_manifest,
  finalize_failure,
}

-- What `collect_git_evidence` returns.
pub record Evidence : Type 0 where
  pub head_sha : Option String
  pub changed_files : List String
  pub patch : Option String
  pub patch_truncated : Bool

-- The answers of git, of the file system, of `uuid4` and of the conversation service to one pipeline.
pub record Outside : Type 0 where
  pub has_repository : Bool
  pub clone_repository : Result (Unit {0})
  pub resolve_base_sha : Result String
  pub has_head : Bool
  pub current_branch : String
  pub checkout_task_branch : Result (Unit {0})
  pub make_directory : Result (Unit {0})
  pub drawn_conversation_id : String
  pub get_record : Result (Unit {0})
  pub set_github_token : Result (Unit {0})
  pub create_conversation : Result (Unit {0})
  pub send_message : Result (Unit {0})
  pub run : Result ConversationStatus
  pub cancel : Result (Unit {0})
  pub collect_git_evidence : Result Evidence

abbrev pub is_timeout : Error → Bool
is_timeout Error.timeout_error = true
is_timeout _ = false

-- except (GitPrepError, AgentError, RuntimeError, ValueError)
abbrev pub is_caught : Error → Bool
is_caught Error.git_prep_error = true
is_caught Error.agent_error = true
is_caught Error.agent_cancelled_error = true
is_caught Error.runtime_error = true
is_caught Error.value_error = true
is_caught Error.supervision_identity_error = true
is_caught Error.publication_identity_error = true
is_caught _ = false

-- The service, and the variables of `_run_pipeline`.
pub record Run : Type 0 where
  pub service : Service
  pub execution : TaskExecutionRecord
  pub base_sha : Option String
  pub conversation_id : Option String

abbrev pub in_run {ℓ} : {A : Type ℓ} → Run → Result A × Service → Result A × Run
in_run run (r, service) = (r, record run { service = service })

unfoldable pub by_service : {A : Type 0} → (TaskExecutionRecord → Program Service A) → Program Run A
by_service program run = in_run run (program run.execution run.service)

abbrev pub answer {ℓ} : {A : Type ℓ} → Result A → Program Run A
answer result = read (λ run. result)

abbrev pub or_raise : Bool → Error → Program Run (Unit {0})
or_raise test e = demand (λ run. test) e

abbrev pub is_text : Option String → Bool
is_text none = false
is_text (some s) = not (s == "")

abbrev outcome_of : ConversationStatus → AgentOutcome
outcome_of ConversationStatus.cancelled = AgentOutcome.cancelled
outcome_of ConversationStatus.finished = AgentOutcome.succeeded
outcome_of _ = AgentOutcome.failed

-- `github_token or self._github_token`
abbrev pub token_of : Settings → Option String → Option String
token_of settings github_token =
    if is_text github_token then github_token else settings.github_token

module _ (settings : Settings) (request : StartTaskExecutionRequest) (github_token : Option String)
    (out : Outside) where
  unfoldable pub enter_phase : TaskExecutionPhase → Program Run (Unit {0})
  enter_phase phase = by_service (λ execution. update_phase settings execution phase none none)

  unfoldable pub clone_unless_there : Program Run (Unit {0})
  clone_unless_there = if out.has_repository then return tt else answer out.clone_repository

  unfoldable pub chosen_base : Program Run (Option String)
  chosen_base =
      if is_text request.base_sha
      then return request.base_sha
      else answer out.resolve_base_sha >>= λ resolved. return (some resolved)

  unfoldable pub resolve_base : Program Run (Unit {0})
  resolve_base = do base_sha ← chosen_base; modify (λ run. record run { base_sha = base_sha })

  unfoldable pub checkout_branch : String → Program Run (Unit {0})
  checkout_branch branch =
      if out.current_branch == branch then return tt else answer out.checkout_task_branch

  unfoldable pub checkout_requested : Option String → Program Run (Unit {0})
  checkout_requested none = raise assertion_error
  checkout_requested (some branch) = checkout_branch branch

  unfoldable pub prepare_repository : Program Run (Unit {0})
  prepare_repository = do
    or_raise (is_some request.base_ref && is_some request.task_branch) assertion_error
    or_raise (is_some (token_of settings github_token)) assertion_error
    clone_unless_there
    resolve_base
    or_raise out.has_head git_prep_error
    checkout_requested request.task_branch

  unfoldable pub prepare : Program Run (Unit {0})
  prepare = if is_text request.repository then prepare_repository else answer out.make_directory

  -- The copy with the conversation is made of the record that was admitted.
  unfoldable pub bind_conversation : Program Run (Unit {0})
  bind_conversation = do
    bound ← by_service (λ execution. commit (conversation_id out.drawn_conversation_id))
    modify (λ run. record run {
      conversation_id = some bound;
      execution = record run.execution { conversation_id = some bound };
    })
    by_service (λ execution. commit (save_execution execution))

  -- `_run_agent`
  abbrev hydrate_answer : Result (Unit {0}) → Result (Unit {0}) → Result (Unit {0})
  hydrate_answer (ok done) token = token
  hydrate_answer (err e) token = err e

  abbrev is_missing : Result (Unit {0}) → Bool
  is_missing (err Error.conversation_not_found_error) = true
  is_missing _ = false

  unfoldable pub created_or : Result (Unit {0}) → Program Run (Unit {0})
  created_or known = if is_missing known then answer out.create_conversation else answer known

  unfoldable pub ended : Result ConversationStatus → Program Run AgentOutcome
  ended (ok status) = return (outcome_of status)
  ended (err e) = if is_timeout e then answer out.cancel >> return AgentOutcome.timeout else raise e

  unfoldable pub run_agent : Program Run AgentOutcome
  run_agent = do
    created_or (hydrate_answer out.get_record out.set_github_token)
    answer out.send_message
    ended out.run

  unfoldable pub gather : Program Run Evidence
  gather =
      if is_text request.repository
      then answer out.collect_git_evidence
      else return
          (record { head_sha = none; changed_files = []; patch = none; patch_truncated = false })

  abbrev pub final_outcome : AgentOutcome → List String → AgentOutcome
  final_outcome AgentOutcome.succeeded [] =
      if is_text request.repository then AgentOutcome.no_changes else AgentOutcome.succeeded
  final_outcome outcome changed = outcome

  abbrev pub final_detail : AgentOutcome → Option String
  final_detail AgentOutcome.no_changes = some "no_changes"
  final_detail AgentOutcome.failed = some "agent_failed"
  final_detail _ = none

  abbrev pub result_manifest : Run → Evidence → AgentOutcome → ℕ → TaskResultManifest
  result_manifest run evidence outcome now = record {
    task_id = request.task_id;
    execution_id = run.execution.execution_id;
    repository = request.repository;
    task_branch = request.task_branch;
    base_ref = request.base_ref;
    base_sha = run.base_sha;
    head_sha = evidence.head_sha;
    changed_files = evidence.changed_files;
    patch = evidence.patch;
    patch_truncated = evidence.patch_truncated;
    bootstrap = none;
    check = none;
    check_outcome = CheckOutcome.not_run;
    agent_outcome = outcome;
    conversation_id = run.conversation_id;
    outcome_detail = none;
    completed_at = some now;
  }

  unfoldable pub conclude : Evidence → AgentOutcome → Program Run (Unit {0})
  conclude evidence outcome run =
      let manifest = result_manifest run evidence outcome (settings.now run.service.readings) in
      by_service
        (λ execution.
          store_manifest settings (token_of settings github_token) manifest >>= λ reference.
          update_phase settings execution (terminal_phase outcome) (some reference)
            (final_detail outcome))
        (record run { service = tick run.service })

  -- The pipeline up to the agent's run
  unfoldable pub start_agent : Program Run (Unit {0})
  start_agent = do
    enter_phase TaskExecutionPhase.preparing
    prepare
    enter_phase TaskExecutionPhase.running_agent
    bind_conversation

  unfoldable pub pipeline : Program Run (Unit {0})
  pipeline = do
    start_agent
    outcome ← run_agent
    evidence ← gather
    conclude evidence (final_outcome outcome evidence.changed_files)

  abbrev pub failure_of : Run → Error → AgentOutcome → Failure
  failure_of run e outcome = record {
    detail = settings.str e;
    github_token = token_of settings github_token;
    agent_outcome = outcome;
    repository = request.repository;
    task_branch = request.task_branch;
    base_ref = request.base_ref;
    base_sha = run.base_sha;
    conversation_id = run.conversation_id;
  }

  unfoldable pub fail_with : Error → AgentOutcome → Program Run (Unit {0})
  fail_with e outcome run =
      by_service (λ execution. finalize_failure settings execution (failure_of run e outcome)) run

  unfoldable pub handle : Error → Program Run (Unit {0})
  handle e =
      if is_timeout e
      then fail_with e AgentOutcome.timeout
      else if is_caught e
      then fail_with e AgentOutcome.failed
      else raise e

  unfoldable pub run_pipeline : Program Run (Unit {0})
  run_pipeline = catch pipeline handle
