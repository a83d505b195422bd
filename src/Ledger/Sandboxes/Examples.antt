-- ===== src/Ledger/Sandboxes/Examples.antt =====
-- An example of a creation intent.
use gg_agent_server.Prelude.{◌≡◌, refl, true, false, none, [], ◌∷◌, if◌then◌else◌}
use gg_agent_server.Result.{ok, err, runtime_error}
use gg_agent_server.Table.{find_where, insert_unique}
use gg_agent_server.Sdk.Tasks.{TaskState}
use gg_agent_server.Ledger.Rows.{Ledger}
use gg_agent_server.Ledger.Samples.{ledger_of}
use gg_agent_server.Ledger.Sandboxes.{
  SandboxIntent, same_intent, intended_row, require_payload, get_sandbox_creation, insert_creation,
  begin_sandbox_creation,
}
use gg_agent_server.Ledger.Sandboxes.Replay.{begin_sandbox_creation-again}

abbrev intent : SandboxIntent
intent = record {
  task_id = "a";
  deployment = "prod";
  sandbox_name = "sandbox-a";
  tags_json = "{}";
  session_api_key = "secret";
  credential_version = none;
}

abbrev begun : Ledger
begun = record (ledger_of TaskState.starting) { sandbox_creations = intended_row intent 5 ∷ [] }

begins :
    begin_sandbox_creation intent 5 (ledger_of TaskState.starting)
    ≡ ok ((intended_row intent 5, true), begun)
unfolding begin_sandbox_creation insert_creation require_payload get_sandbox_creation find_where
    insert_unique
begins = refl

begin_sandbox_creation-again_example :
    (same_intent intent (intended_row intent 5) ≡ true)
    × (begin_sandbox_creation intent 6 begun ≡ (
        if same_intent intent (intended_row intent 5)
        then ok ((intended_row intent 5, false), begun)
        else err runtime_error))
begin_sandbox_creation-again_example =
    begin_sandbox_creation-again intent 5 (ledger_of TaskState.starting) intent 6 begins refl
