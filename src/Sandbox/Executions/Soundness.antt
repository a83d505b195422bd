-- ===== src/Sandbox/Executions/Soundness.antt =====
-- The writes of sandboxes/gg/server/task_supervisor/store.py keep one row for each execution.
use gg_agent_server.Prelude.{refl, eq_iff, arith}
use gg_agent_server.Result.{
  AfterOk, returned, AfterOk-bind, key_error, start_key_conflict_error, fetched, require,
}
use gg_agent_server.Table.Rows.{All-update, Distinct-update}
use gg_agent_server.Sdk.Execution.{TaskExecutionRecord}
use gg_agent_server.Sandbox.{SandboxState}
use gg_agent_server.Sandbox.Executions.{
  is_execution, find_execution, same_identity, saved_row, save_execution,
}
use gg_agent_server.Sandbox.Executions.Rows.{IsSound, same_execution}

-- Where the rows of the executions have their records' identifiers and no two rows have the same, this
-- is so after a save that returned.
pub save_execution-IsSound :
    (e : TaskExecutionRecord) (s : SandboxState) → IsSound s → AfterOk IsSound (save_execution e s)
unfolding save_execution
save_execution-IsSound e s (ids, distinct) =
    AfterOk-bind (fetched key_error (find_execution e.execution_id s)) _ λ row _.
      AfterOk-bind (require (same_identity row.payload e) start_key_conflict_error) _ λ _ _.
        returned (
          All-update _ (is_execution e.execution_id) (saved_row e) s.executions
              (λ r hit h. ground (arith, hit, eq_iff r.execution_id e.execution_id)) ids,
          Distinct-update same_execution (is_execution e.execution_id) (saved_row e) (λ r q. refl)
              (λ r q. refl) s.executions distinct,
        )
