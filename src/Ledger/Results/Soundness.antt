-- ===== src/Ledger/Results/Soundness.antt =====
-- The archive of evidence keeps the ledger sound.
use gg_agent_server.Prelude.{ℕ, String, ◌≡◌, Bool, true, is_some, Option, Bool-cases, inl, inr}
use gg_agent_server.Result.{after_ok}
use gg_agent_server.Table.Rows.{All-insert, All-update}
use gg_agent_server.Sdk.Execution.{TaskResultManifest}
use gg_agent_server.Ledger.Rows.{TaskResultArchive, Ledger}
use gg_agent_server.Ledger.Sandboxes.{has_payload}
use gg_agent_server.Ledger.Sandboxes.Soundness.{AfterOk-require_payload}
use gg_agent_server.Ledger.Results.{
  archives, get_task_result, archived_row, upsert_result, archive_task_result,
}
use gg_agent_server.Ledger.Soundness.{IsSound, KeepsSound, with_results}

upsert_result-IsSound :
    (new : TaskResultArchive) (l : Ledger)
    → has_payload new.task_id l ≡ true
    → IsSound l
    → IsSound (upsert_result new l)
unfolding upsert_result
upsert_result-IsSound new l payload h =
    elim (Bool-cases (is_some (get_task_result new.task_id l))) [
      | inl e ↦ rw e (
          with_results h _ (All-update _ (archives new.task_id) _ l.results (λ r _ p. p) h.results))
      | inr e ↦ rw e (with_results h _ (All-insert _ new l.results payload h.results))
    ]

pub archive_task_result-IsSound :
    (id : String) (execution_id : Option String) (manifest : Option TaskResultManifest)
    (complete : Bool) (detail : Option String) (now : ℕ)
    → KeepsSound (archive_task_result id execution_id manifest complete detail now)
unfolding archive_task_result
archive_task_result-IsSound id execution_id manifest complete detail now l h =
    AfterOk-require_payload id l _ λ payload.
      let sound =
        upsert_result-IsSound (archived_row id execution_id manifest complete detail now) l payload
          h in
      search (after_ok, sound)
