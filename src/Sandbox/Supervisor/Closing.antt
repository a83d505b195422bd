-- ===== src/Sandbox/Supervisor/Closing.antt =====
-- How an execution of sandboxes/gg/server/task_supervisor/service.py is closed: its manifest is stored,
-- and then its phase.
use gg_agent_server.Prelude.{String, ◌≡◌, refl, ap, sym, ◌∙◌, subst, true, Option, some}
use gg_agent_server.Result.{ok}
use gg_agent_server.Program.{Program, ◌>>=◌}
use gg_agent_server.Sdk.Execution.{TaskExecutionPhase, TaskExecutionRecord, TaskResultManifest}
use gg_agent_server.Sandbox.Executions.{
  find_execution, is_terminal_phase, load_execution, load_manifest, manifest_reference,
}
use gg_agent_server.Sandbox.Executions.Saved.{written, find-written}
use gg_agent_server.Sandbox.Redaction.{redact_secrets}
use gg_agent_server.Sandbox.Supervisor.{
  Settings, Service, tick, secrets, update_phase, store_manifest, phased,
}
use gg_agent_server.Sandbox.Supervisor.Stored.{
  IsStored, Ended, IsClean, IsStored-written, update_phase-eq, with_manifest, store_manifest-eq,
  load-with_manifest,
}

module _ (settings : Settings) (e : TaskExecutionRecord) (token : Option String)
    (m : TaskResultManifest) (same : m.execution_id ≡ e.execution_id) where
  -- The manifest is stored, and then the phase.
  abbrev pub closing : TaskExecutionPhase → Option String → Program Service (Unit {0})
  closing phase detail = store_manifest settings token m >>= λ reference.
      update_phase settings e phase (some reference) detail

  -- What an execution is closed with, in the state that has the manifest.
  abbrev pub Closed : TaskExecutionPhase → Option String → Service → Service → Type 0
  Closed phase detail service service' =
      (e' : TaskExecutionRecord) × (service'.state
        ≡ written e' (with_manifest settings token m service))
      × (e'.execution_id ≡ e.execution_id)
      × (e'.phase ≡ phase)
      × (IsStored e' service.state)

  module _ (service : Service) (there : IsStored e service.state)
      (clean : IsClean (secrets settings token) e.execution_id) where
    pub closing-Closed :
        (phase : TaskExecutionPhase) (detail : Option String)
        → (service' : Service) × (closing phase detail service ≡ (ok tt, service'))
          × Closed phase detail service service'
    unfolding ◌>>=◌
    closing-Closed phase detail =
        let found = ap (λ id. find_execution id service.state) same ∙ there.1 in
        let clean_m = subst (λ id. IsClean (secrets settings token) id) (sym same) clean in
        let reference = manifest_reference settings.path m.execution_id in
        let middle : Service = record service { state = with_manifest settings token m service } in
        let e' = phased e phase (some reference) detail (settings.now middle.readings) in
        (
          record (tick middle) { state = written e' middle.state },
          rw (store_manifest-eq settings token m service (there.0) found clean_m)
              (update_phase-eq settings e middle there phase (some reference) detail),
          (e', refl, refl, refl, there),
        )

    -- An execution that is closed has ended, and others are stored as they were.
    pub Closed-Ended :
        (phase : TaskExecutionPhase) (detail : Option String) (service' : Service)
        → is_terminal_phase phase ≡ true
        → Closed phase detail service service'
        → Ended e.execution_id service'.state
    unfolding written load_execution load_manifest
    Closed-Ended phase detail service' terminal (e', state_eq, id_eq, phase_eq, there') =
        let found = ap (λ id. find_execution id service.state) same ∙ there.1 in
        let clean_m = subst (λ id. IsClean (secrets settings token) id) (sym same) clean in
        let s = with_manifest settings token m service in
        let row = find-written e' s (there'.0) there'.1 in
        (
          e',
          redact_secrets (secrets settings token) m,
          rw (state_eq, ← id_eq) (rw (load_execution, row) refl),
          ap is_terminal_phase phase_eq ∙ terminal,
          rw (state_eq, ← same)
              (load-with_manifest settings token m service (there.0) found clean_m),
        )

    pub Closed-IsStored :
        (phase : TaskExecutionPhase) (detail : Option String) (service' : Service)
        (r : TaskExecutionRecord)
        → Closed phase detail service service'
        → IsStored r service.state
        → IsStored r service'.state
    Closed-IsStored phase detail service' r (e', state_eq, id_eq, phase_eq, there') stored =
        subst (λ s. IsStored r s) (sym state_eq)
          (IsStored-written e' r (with_manifest settings token m service) there' stored)
