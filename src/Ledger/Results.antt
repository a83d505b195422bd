-- ===== src/Ledger/Results.antt =====
-- `TaskLedger`: the archived evidence of a task.
pub mod Soundness
use gg_agent_server.Prelude.{ℕ, String, Bool, Option, some, ◌==◌, is_some, if◌then◌else◌}
use gg_agent_server.Result.{ok, assertion_error, fetched, ◌>>=◌, ◌>>◌}
use gg_agent_server.Table.{find_where, update_where, insert_row}
use gg_agent_server.Sdk.Execution.{TaskResultManifest}
use gg_agent_server.Ledger.Rows.{TaskResultArchive, Ledger}
use gg_agent_server.Ledger.Tasks.{Tx}
use gg_agent_server.Ledger.Sandboxes.{require_payload}

abbrev pub archives : String → TaskResultArchive → Bool
archives task_id r = r.task_id == task_id

pub get_task_result : String → Ledger → Option TaskResultArchive
get_task_result task_id l = find_where (archives task_id) l.results

abbrev pub archived_row :
    String
    → Option String
    → Option TaskResultManifest
    → Bool
    → Option String
    → ℕ
    → TaskResultArchive
archived_row task_id execution_id manifest complete detail now = record {
  task_id = task_id;
  execution_id = execution_id;
  manifest = manifest;
  evidence_complete = complete;
  evidence_detail = detail;
  archived_at = some now;
}

-- INSERT … ON CONFLICT(task_id) DO UPDATE of every other column
pub upsert_result : TaskResultArchive → Ledger → Ledger
upsert_result new l =
    if is_some (get_task_result new.task_id l)
    then record l {
      results =
          update_where (archives new.task_id)
            (λ r. record r {
              execution_id = new.execution_id;
              manifest = new.manifest;
              evidence_complete = new.evidence_complete;
              evidence_detail = new.evidence_detail;
              archived_at = new.archived_at;
            })
            l.results;
    }
    else record l { results = insert_row new l.results }

pub archive_task_result :
    String
    → Option String
    → Option TaskResultManifest
    → Bool
    → Option String
    → ℕ
    → Tx TaskResultArchive
archive_task_result task_id execution_id manifest complete detail now l = do
  require_payload task_id l
  let l' = upsert_result (archived_row task_id execution_id manifest complete detail now) l
  row ← fetched assertion_error (get_task_result task_id l')
  ok (row, l')
