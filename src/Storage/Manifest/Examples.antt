-- ===== src/Storage/Manifest/Examples.antt =====
-- An example of a manifest whose patch was cut before: the flag is lost.
use Prim.Native.String.{len}
use gg_agent_server.Prelude.{◌≤◌, String, ◌≡◌, refl, true, false, none, some, [], ◌∷◌}
use gg_agent_server.Sdk.Samples.{sample_codec}
use gg_agent_server.Sdk.Execution.{AgentOutcome, CheckOutcome, TaskResultManifest}
use gg_agent_server.Storage.Manifest.{truncate_manifest, truncate_manifest-fits}

abbrev cut_before : TaskResultManifest
cut_before = record {
  task_id = "a";
  execution_id = "execution";
  repository = none;
  task_branch = none;
  base_ref = none;
  base_sha = none;
  head_sha = none;
  changed_files = "x.py" ∷ [];
  patch = some "+1";
  patch_truncated = true;
  bootstrap = none;
  check = none;
  check_outcome = CheckOutcome.passed;
  agent_outcome = AgentOutcome.succeeded;
  conversation_id = none;
  outcome_detail = none;
  completed_at = none;
}

truncate_manifest-fits_example :
    (shorter : String) × ((truncate_manifest sample_codec cut_before 9000).0.patch ≡ some shorter)
    × (len shorter ≤ 4500)
    × ((truncate_manifest sample_codec cut_before 9000).1 ≡ false → shorter ≡ "+1")
    × ((truncate_manifest sample_codec cut_before 9000).0.patch_truncated
        ≡ (truncate_manifest sample_codec cut_before 9000).1)
truncate_manifest-fits_example = truncate_manifest-fits sample_codec cut_before 9000 refl
