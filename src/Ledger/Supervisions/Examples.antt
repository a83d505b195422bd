-- ===== src/Ledger/Supervisions/Examples.antt =====
-- An example of a supervision.
use gg_agent_server.Prelude.{◌≡◌, refl, true, false, none, [], ◌∷◌, if◌then◌else◌}
use gg_agent_server.Result.{ok, err, supervision_identity_error}
use gg_agent_server.Table.{find_where, insert_unique}
use gg_agent_server.Sdk.Tasks.{TaskState}
use gg_agent_server.Ledger.Rows.{Ledger}
use gg_agent_server.Ledger.Samples.{ledger_of}
use gg_agent_server.Ledger.Sandboxes.Soundness.{require_payload-ok}
use gg_agent_server.Ledger.Supervisions.{
  Startup, same_startup, started_row, get_supervision, insert_supervision, begin_supervision,
}
use gg_agent_server.Ledger.Supervisions.Replay.{begin_supervision-again}

abbrev startup : Startup
startup = record {
  task_id = "a";
  execution_id = "execution";
  task_branch = "gg/a";
  start_key = "start";
  conversation_id = none;
}

abbrev begun : Ledger
begun = record (ledger_of TaskState.running) { supervisions = started_row startup 5 ∷ [] }

begins :
    begin_supervision startup 5 (ledger_of TaskState.running)
    ≡ ok ((started_row startup 5, true), begun)
unfolding begin_supervision insert_supervision get_supervision find_where insert_unique
begins = rw (require_payload-ok "a" (ledger_of TaskState.running) refl) refl

begin_supervision-again_example :
    (same_startup startup (started_row startup 5) ≡ true)
    × (begin_supervision startup 6 begun ≡ (
        if same_startup startup (started_row startup 5)
        then ok ((started_row startup 5, false), begun)
        else err supervision_identity_error))
begin_supervision-again_example =
    begin_supervision-again startup 5 (ledger_of TaskState.running) startup 6 begins refl refl
