-- ===== src/Sandbox/Executions/Examples.antt =====
-- Examples of the store of executions.
use gg_agent_server.Prelude.{◌≡◌, ◌⊎◌, refl, true, false, none, some, String, [], ◌∷◌}
use gg_agent_server.Result.{ok, err, AfterOk, integrity_error, start_key_conflict_error}
use gg_agent_server.Table.{find_where, insert_unique, update_where}
use gg_agent_server.Sdk.Execution.{TaskExecutionPhase, TaskExecutionRecord}
use gg_agent_server.Sandbox.{ExecutionRow, SandboxState}
use gg_agent_server.Sandbox.Executions.{
  Admission, insert_execution, admit_or_get, find_execution, load_execution, save_execution,
  save_manifest, load_manifest,
}
use gg_agent_server.Sandbox.Samples.{
  empty_state, sample_digest, sample_admission, sample_execution, one_execution, sample_manifest,
}
use gg_agent_server.Sandbox.Executions.Identity.{admit_or_get-again}
use gg_agent_server.Sandbox.Executions.Saved.{save_execution-load, save_manifest-load}
use gg_agent_server.Sandbox.Executions.Rows.{IsSound}
use gg_agent_server.Sandbox.Executions.Soundness.{save_execution-IsSound}
use gg_agent_server.Sandbox.Executions.Identified.{
  IsIdentified, StoreCall, after_calls, after_calls-IsIdentified,
}

admits :
    admit_or_get sample_digest sample_admission 5 empty_state
    ≡ ok ((sample_execution, true), one_execution)
unfolding admit_or_get insert_execution find_where insert_unique
admits = refl

abbrev other_admission : Admission
other_admission = record sample_admission { task_id = "other" }

admit_or_get-again_example :
    (admit_or_get sample_digest (record sample_admission { deadline_at = 120 }) 7 one_execution
      ≡ ok ((sample_execution, false), one_execution))
    × (admit_or_get sample_digest other_admission 7 one_execution ≡ err start_key_conflict_error)
admit_or_get-again_example =
    admit_or_get-again sample_digest sample_admission 5 empty_state 120 7 other_admission admits
      refl refl

abbrev preparing : TaskExecutionRecord
preparing = record sample_execution { phase = TaskExecutionPhase.preparing; updated_at = 6 }

abbrev prepared : SandboxState
prepared = record empty_state {
  executions =
      record {
        execution_id = "task:start";
        start_key = "start";
        phase = TaskExecutionPhase.preparing;
        payload = preparing;
      }
      ∷ [];
}

saves : save_execution preparing one_execution ≡ ok (tt, prepared)
unfolding save_execution find_where update_where
saves = refl

save_execution-load_example :
    (load_execution "task:start" prepared ≡ ok preparing)
    × (load_execution "task:other" prepared ≡ load_execution "task:other" one_execution)
save_execution-load_example = save_execution-load preparing one_execution "task:other" saves refl

save_manifest-load_example :
    ((row : ExecutionRow) × (find_execution "task:start" one_execution ≡ some row)
      × (reference : String) × (s' : SandboxState) × (save_manifest "/sandbox.db" sample_manifest
            one_execution
          ≡ ok (reference, s'))
      × (load_manifest "task:start" s' ≡ ok sample_manifest)
      × (s'.executions ≡ one_execution.executions))
    ⊎ ((find_execution "task:start" one_execution ≡ none)
        × (save_manifest "/sandbox.db" sample_manifest one_execution ≡ err integrity_error))
save_manifest-load_example = save_manifest-load "/sandbox.db" sample_manifest one_execution

-- An admission, a save, an admission that is refused, and the manifest.
after_calls-IsIdentified_example : IsIdentified sample_digest (
    after_calls sample_digest
      (StoreCall.admitted sample_admission 5
        ∷ StoreCall.saved preparing
        ∷ StoreCall.admitted other_admission 7
        ∷ StoreCall.saved_manifest "/sandbox.db" sample_manifest
        ∷ [])
      empty_state)
after_calls-IsIdentified_example =
    after_calls-IsIdentified sample_digest
      (StoreCall.admitted sample_admission 5
        ∷ StoreCall.saved preparing
        ∷ StoreCall.admitted other_admission 7
        ∷ StoreCall.saved_manifest "/sandbox.db" sample_manifest
        ∷ [])
      empty_state (tt, tt, tt)

save_execution-IsSound_example : AfterOk IsSound (save_execution preparing one_execution)
save_execution-IsSound_example =
    save_execution-IsSound preparing one_execution ((refl, tt), (tt, tt))
