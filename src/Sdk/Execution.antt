-- ===== src/Sdk/Execution.antt =====
-- packages/gg-sdk/gg/sdk/task_execution.py
use gg_agent_server.Prelude.{ℕ, String, Bool, Option, List}

pub data TaskExecutionPhase : Type 0 where
  accepted preparing running_agent running_checks completed failed : TaskExecutionPhase

pub data AgentOutcome : Type 0 where
  succeeded failed cancelled timeout no_changes not_run : AgentOutcome

pub data CheckOutcome : Type 0 where
  passed failed not_run timeout : CheckOutcome

-- The exit code of a process: negative in Python where a signal ended it.
pub data ExitCode : Type 0 where
  exited signalled : ℕ → ExitCode

pub record CommandCapture : Type 0 where
  pub command : String
  pub exit_code : Option ExitCode
  pub duration_ms : ℕ
  pub stdout : String
  pub stderr : String
  pub stdout_truncated : Bool
  pub stderr_truncated : Bool
  pub timed_out : Bool

pub record TaskResultManifest : Type 0 where
  pub task_id : String
  pub execution_id : String
  pub repository : Option String
  pub task_branch : Option String
  pub base_ref : Option String
  pub base_sha : Option String
  pub head_sha : Option String
  pub changed_files : List String
  pub patch : Option String
  pub patch_truncated : Bool
  pub bootstrap : Option CommandCapture
  pub check : Option CommandCapture
  pub check_outcome : CheckOutcome
  pub agent_outcome : AgentOutcome
  pub conversation_id : Option String
  pub outcome_detail : Option String
  pub completed_at : Option ℕ

pub record StartTaskExecutionRequest : Type 0 where
  pub task_id : String
  pub repository : Option String
  pub prompt : String
  pub base_ref : Option String
  pub base_sha : Option String
  pub task_branch : Option String
  pub start_key : String
  pub deadline_at : ℕ
  pub model : String

pub record TaskExecutionRecord : Type 0 where
  pub execution_id : String
  pub task_id : String
  pub model : String
  pub repository : Option String
  pub start_key : String
  pub phase : TaskExecutionPhase
  pub task_branch : Option String
  pub base_ref : Option String
  pub deadline_at : ℕ
  pub conversation_id : Option String
  pub manifest_path : Option String
  pub outcome_detail : Option String
  pub created_at : ℕ
  pub updated_at : ℕ
