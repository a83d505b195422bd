-- ===== src/Sandbox/Samples.antt =====
-- A sandbox with one execution, for the examples.
use gg_agent_server.Prelude.{String, false, none, some, [], ◌∷◌}
use gg_agent_server.Sdk.Execution.{
  AgentOutcome, CheckOutcome, StartTaskExecutionRequest, TaskExecutionRecord, TaskResultManifest,
}
use gg_agent_server.Sandbox.{SandboxState}
use gg_agent_server.Sandbox.Executions.{Admission, new_execution, execution_row}

abbrev pub empty_state : SandboxState
empty_state = record {
  metadata = [];
  conversations = [];
  events = [];
  message_receipts = [];
  executions = [];
  manifests = [];
}

abbrev pub sample_digest : String → String
sample_digest s = s

abbrev pub sample_admission : Admission
sample_admission = record {
  start_key = "start";
  task_id = "task";
  repository = none;
  task_branch = none;
  base_ref = none;
  deadline_at = 90;
  model = "model";
}

abbrev pub sample_execution : TaskExecutionRecord
sample_execution = new_execution sample_digest sample_admission 5

abbrev pub one_execution : SandboxState
one_execution = record empty_state { executions = execution_row sample_execution ∷ [] }

abbrev pub sample_manifest : TaskResultManifest
sample_manifest = record {
  task_id = "task";
  execution_id = "task:start";
  repository = none;
  task_branch = none;
  base_ref = none;
  base_sha = none;
  head_sha = none;
  changed_files = [];
  patch = none;
  patch_truncated = false;
  bootstrap = none;
  check = none;
  check_outcome = CheckOutcome.not_run;
  agent_outcome = AgentOutcome.succeeded;
  conversation_id = some "conversation";
  outcome_detail = none;
  completed_at = some 9;
}

abbrev pub sample_request : StartTaskExecutionRequest
sample_request = record {
  task_id = "task";
  repository = none;
  prompt = "fix it";
  base_ref = none;
  base_sha = none;
  task_branch = none;
  start_key = "start";
  deadline_at = 90;
  model = "model";
}
