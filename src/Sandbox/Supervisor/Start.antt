-- ===== src/Sandbox/Supervisor/Start.antt =====
-- `start` of sandboxes/gg/server/task_supervisor/service.py.
use gg_agent_server.Prelude.{
  String, Bool, true, false, not, ◌&&◌, ◌||◌, Option, List, [], ◌∷◌, ◌==◌, is_some, if◌then◌else◌,
}
use gg_agent_server.Result.{ok, runtime_error, value_error}
use gg_agent_server.Program.{Program, read, modify, demand, ◌>>=◌, ◌>>◌}
use gg_agent_server.Sdk.Execution.{StartTaskExecutionRequest, TaskExecutionRecord}
use gg_agent_server.Sandbox.Executions.{Admission, admit_or_get}
use gg_agent_server.Sandbox.Supervisor.{Settings, Service, commit, tick}
use gg_agent_server.Sandbox.Supervisor.Pipeline.{is_text, token_of}

abbrev admission : StartTaskExecutionRequest → Admission
admission request = record {
  start_key = request.start_key;
  task_id = request.task_id;
  repository = request.repository;
  task_branch = request.task_branch;
  base_ref = request.base_ref;
  deadline_at = request.deadline_at;
  model = request.model;
}

abbrev is_member : String → List String → Bool
is_member s [] = false
is_member s (t ∷ list) = t == s || is_member s list

-- What `start` does once the execution is admitted: the pipeline is a task of its own.
unfoldable pub activate : TaskExecutionRecord × Bool → Program Service (TaskExecutionRecord × Bool)
activate (execution, false) service = (ok (execution, false), service)
activate (execution, true) service =
    if is_member execution.execution_id service.active
    then (ok (execution, false), service)
    else (ok (execution, true), record service { active = execution.execution_id ∷ service.active })

unfoldable pub start :
    Settings
    → (String → String)
    → StartTaskExecutionRequest
    → Option String
    → Program Service (TaskExecutionRecord × Bool)
start settings digest request github_token = do
  demand
      (λ service.
        not (is_text request.repository) || is_text request.base_ref && is_text request.task_branch)
      value_error
  demand (λ service. not (is_text request.repository) || is_some (token_of settings github_token))
      runtime_error
  now ← read (λ service. ok (settings.now service.readings))
  modify tick
  admitted ← commit (admit_or_get digest (admission request) now)
  activate admitted
