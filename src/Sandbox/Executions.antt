-- ===== src/Sandbox/Executions.antt =====
-- `ExecutionStore` of sandboxes/gg/server/task_supervisor/store.py: the identity of executions and
-- the manifests of their results.
pub mod Identity
pub mod Saved
pub mod Rows
pub mod Soundness
pub mod Identified
mod Examples
use Prim.Native.String.{◌++◌}
use gg_agent_server.Prelude.{
  ℕ, String, Bool, true, false, not, ◌&&◌, ◌||◌, Option, none, some, map, ◌==◌, is_some, same_text,
  text_leb, map_option, if◌then◌else◌, List,
}
use gg_agent_server.Result.{
  Result, ok, err, key_error, integrity_error, start_key_conflict_error, fetched, require, ◌>>=◌,
  ◌>>◌,
}
use gg_agent_server.Table.{
  find_where, select_where, update_where, order_by, insert_row, insert_unique,
}
use gg_agent_server.Sdk.Execution.{TaskExecutionPhase, TaskExecutionRecord, TaskResultManifest}
use gg_agent_server.Sandbox.{ExecutionRow, ManifestRow, MetadataRow, SandboxState, Write}

-- The identifier of the generation, drawn by `uuid4` where there is none.
unfoldable pub conversation_id : String → Write String
conversation_id value s = elim (find_where (λ r. r.name == "conversation-id") s.metadata) [
  | some row ↦ ok (row.value, s)
  | none ↦ ok (
    value,
    record s {
      metadata = insert_row (record { name = "conversation-id"; value = value }) s.metadata;
    },
  )
]

-- The arguments of `admit_or_get`.
pub record Admission : Type 0 where
  pub start_key : String
  pub task_id : String
  pub repository : Option String
  pub task_branch : Option String
  pub base_ref : Option String
  pub deadline_at : ℕ
  pub model : String

abbrev pub same_admission : Admission → TaskExecutionRecord → Bool
same_admission a execution =
    execution.task_id == a.task_id
    && same_text execution.repository a.repository
    && same_text execution.task_branch a.task_branch
    && same_text execution.base_ref a.base_ref
    && execution.model == a.model

abbrev pub is_execution : String → ExecutionRow → Bool
is_execution id r = r.execution_id == id

abbrev pub has_start_key : String → ExecutionRow → Bool
has_start_key start_key r = r.start_key == start_key

abbrev pub execution_row : TaskExecutionRecord → ExecutionRow
execution_row execution = record {
  execution_id = execution.execution_id;
  start_key = execution.start_key;
  phase = execution.phase;
  payload = execution;
}

-- `digest` is the first 32 digits of the SHA-256 of a text.
abbrev pub new_execution : (String → String) → Admission → ℕ → TaskExecutionRecord
new_execution digest a now = record {
  execution_id = digest (a.task_id ++ ":" ++ a.start_key);
  task_id = a.task_id;
  model = a.model;
  repository = a.repository;
  start_key = a.start_key;
  phase = TaskExecutionPhase.accepted;
  task_branch = a.task_branch;
  base_ref = a.base_ref;
  deadline_at = a.deadline_at;
  conversation_id = none;
  manifest_path = none;
  outcome_detail = none;
  created_at = now;
  updated_at = now;
}

abbrev pub clashes_execution : TaskExecutionRecord → ExecutionRow → Bool
clashes_execution execution r =
    r.execution_id == execution.execution_id || r.start_key == execution.start_key

unfoldable pub insert_execution : TaskExecutionRecord → Write (TaskExecutionRecord × Bool)
insert_execution execution s = do
  executions ← insert_unique (clashes_execution execution) (execution_row execution) s.executions
  ok ((execution, true), record s { executions = executions })

unfoldable pub admit_or_get : (String → String) → Admission → ℕ → Write (TaskExecutionRecord × Bool)
admit_or_get digest a now s = elim (find_where (has_start_key (a.start_key)) s.executions) [
  | some row ↦
      if same_admission a row.payload
      then ok ((row.payload, false), s)
      else err start_key_conflict_error
  | none ↦ insert_execution (new_execution digest a now) s
]

abbrev pub find_execution : String → SandboxState → Option ExecutionRow
find_execution id s = find_where (is_execution id) s.executions

unfoldable pub load_execution : String → SandboxState → Result TaskExecutionRecord
load_execution id s = do row ← fetched key_error (find_execution id s); ok (row.payload)

abbrev pub same_identity : TaskExecutionRecord → TaskExecutionRecord → Bool
same_identity existing execution =
    existing.start_key == execution.start_key
    && existing.task_id == execution.task_id
    && same_text existing.repository execution.repository
    && same_text existing.task_branch execution.task_branch
    && same_text existing.base_ref execution.base_ref
    && existing.model == execution.model

abbrev pub saved_row : TaskExecutionRecord → ExecutionRow → ExecutionRow
saved_row execution r = record r { phase = execution.phase; payload = execution }

unfoldable pub save_execution : TaskExecutionRecord → Write (Unit {0})
save_execution execution s = do
  row ← fetched key_error (find_execution execution.execution_id s)
  require (same_identity row.payload execution) start_key_conflict_error
  ok (
    tt,
    record s {
      executions =
          update_where (is_execution execution.execution_id) (saved_row execution) s.executions;
    },
  )

abbrev pub is_manifest : String → ManifestRow → Bool
is_manifest id r = r.execution_id == id

abbrev pub find_manifest : String → SandboxState → Option ManifestRow
find_manifest id s = find_where (is_manifest id) s.manifests

-- ON CONFLICT(execution_id) DO UPDATE
unfoldable pub put_manifest : TaskResultManifest → List ManifestRow → List ManifestRow
put_manifest manifest rows =
    if is_some (find_where (is_manifest manifest.execution_id) rows)
    then update_where (is_manifest manifest.execution_id) (λ r. record r { payload = manifest })
        rows
    else insert_row (record { execution_id = manifest.execution_id; payload = manifest }) rows

-- `path` is the database's.
abbrev pub manifest_reference : String → String → String
manifest_reference path id = "sqlite:" ++ path ++ "#manifest/" ++ id

unfoldable pub save_manifest : String → TaskResultManifest → Write String
save_manifest path manifest s = do
  require (is_some (find_execution manifest.execution_id s)) integrity_error
  ok (
    manifest_reference path manifest.execution_id,
    record s { manifests = put_manifest manifest s.manifests },
  )

unfoldable pub load_manifest : String → SandboxState → Result TaskResultManifest
load_manifest id s = do row ← fetched key_error (find_manifest id s); ok (row.payload)

abbrev pub is_terminal_phase : TaskExecutionPhase → Bool
is_terminal_phase TaskExecutionPhase.completed = true
is_terminal_phase TaskExecutionPhase.failed = true
is_terminal_phase _ = false

-- ORDER BY execution_id
abbrev pub execution_before : ExecutionRow → ExecutionRow → Bool
execution_before a b = text_leb a.execution_id b.execution_id

unfoldable pub list_non_terminal : SandboxState → List TaskExecutionRecord
list_non_terminal s =
    map (λ (r : ExecutionRow). r.payload)
      (order_by execution_before (select_where (λ r. not (is_terminal_phase r.phase)) s.executions))
