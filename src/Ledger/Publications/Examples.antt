-- ===== src/Ledger/Publications/Examples.antt =====
-- An example of a publication.
use gg_agent_server.Prelude.{◌≡◌, refl, true, false, none, some, [], ◌∷◌, if◌then◌else◌}
use gg_agent_server.Result.{ok, err, publication_identity_error}
use gg_agent_server.Table.{find_where, insert_unique}
use gg_agent_server.Sdk.Tasks.{TaskState}
use gg_agent_server.Sdk.Execution.{AgentOutcome, CheckOutcome}
use gg_agent_server.Sdk.Publication.{PublicationState}
use gg_agent_server.Ledger.Rows.{Ledger}
use gg_agent_server.Ledger.Samples.{ledger_of}
use gg_agent_server.Ledger.Sandboxes.Soundness.{require_payload-ok}
use gg_agent_server.Ledger.Publications.{
  PublicationIntent, published_row, get_publication, insert_publication, begin_publication,
}
use gg_agent_server.Ledger.Publications.Replay.{is_same, begin_publication-again}

abbrev publication : PublicationIntent
publication = record {
  task_id = "a";
  repository = "owner/repo";
  task_branch = "gg/a";
  base_ref = "main";
  task_marker = "gg-task: a";
  commit_sha = some "c0ffee";
  check_outcome = CheckOutcome.passed;
  agent_outcome = AgentOutcome.succeeded;
  state = PublicationState.pending;
  detail = none;
}

abbrev begun : Ledger
begun = record (ledger_of TaskState.finalizing) { publications = published_row publication 5 ∷ [] }

begins :
    begin_publication publication 5 (ledger_of TaskState.finalizing)
    ≡ ok ((published_row publication 5, true), begun)
unfolding begin_publication insert_publication get_publication find_where insert_unique
begins = rw (require_payload-ok "a" (ledger_of TaskState.finalizing) refl) refl

begin_publication-again_example :
    (is_same publication (published_row publication 5) ≡ true)
    × (begin_publication publication 6 begun ≡ (
        if is_same publication (published_row publication 5)
        then ok ((published_row publication 5, false), begun)
        else err publication_identity_error))
begin_publication-again_example =
    begin_publication-again publication 5 (ledger_of TaskState.finalizing) publication 6 begins refl
