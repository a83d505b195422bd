-- ===== src/Sandbox/Supervisor/TakingOver.antt =====
-- `startup` of sandboxes/gg/server/task_supervisor/service.py: what a restart does with one execution
-- that it finds.
use gg_agent_server.Prelude.{
  ℕ, ◌⊎◌, String, ◌≡◌, refl, ◌∙◌, ap, sym, subst, true, false, Option, none, some, List, ◌∷◌, ◌==◌,
  eq_iff, arith, All, Option-cases, Bool-cases, inl, inr,
}
use gg_agent_server.Result.{ok, err, key_error}
use gg_agent_server.Table.{find_where}
use gg_agent_server.Table.Rows.{All-update_cases}
use gg_agent_server.Sdk.Execution.{TaskExecutionPhase, TaskExecutionRecord, TaskResultManifest}
use gg_agent_server.Sandbox.{ManifestRow, SandboxState}
use gg_agent_server.Sandbox.Executions.{
  is_execution, saved_row, find_manifest, put_manifest, load_manifest, load_execution,
  is_terminal_phase, manifest_reference,
}
use gg_agent_server.Sandbox.Executions.Saved.{
  written, find-written, find-written_other, find-put_other,
}
use gg_agent_server.Sandbox.Executions.Rows.{awaits, IsCovered}
use gg_agent_server.Sandbox.Redaction.{redact_secrets}
use gg_agent_server.Sandbox.Supervisor.{
  Settings, Service, tick, secrets, terminal_phase, finalize_failure, failed_manifest,
  redacted_detail, lost, take_over,
}
use gg_agent_server.Sandbox.Supervisor.Stored.{
  IsStored, IsClean, IsStored-written, after_phase, update_phase-eq, with_manifest,
  redact_secrets-id, load-with_manifest,
}
use gg_agent_server.Sandbox.Supervisor.Closing.{closing-Closed}
use gg_agent_server.Sandbox.Supervisor.Ending.{terminal_phase-IsTerminal}

-- A manifest that was there is there.
abbrev pub KeepsManifests : SandboxState → SandboxState → Type 0
KeepsManifests s s' =
    (id : String) (m : TaskResultManifest) → load_manifest id s ≡ ok m → load_manifest id s' ≡ ok m

put-KeepsManifests :
    (m : TaskResultManifest) (s : SandboxState)
    → find_manifest m.execution_id s ≡ none
    → KeepsManifests s (record s { manifests = put_manifest m s.manifests })
unfolding load_manifest
put-KeepsManifests m s missing id kept h = elim (Bool-cases (m.execution_id == id)) [
  | inl e ↦
      let same : m.execution_id ≡ id = ground (arith, e, eq_iff m.execution_id id) in
      let gone : find_manifest id s ≡ none = subst (λ id. find_manifest id s ≡ none) same missing in
      cc (rw (load_manifest, gone) at h)
  | inr e ↦ rw (load_manifest, find-put_other m s id e) h
]

-- The execution is terminal, and the others are as they were.
abbrev pub TakenOver : TaskExecutionRecord → SandboxState → SandboxState → Type 0
TakenOver e s s' =
    (e' : TaskExecutionRecord) × (middle : SandboxState) × (s' ≡ written e' middle)
    × (middle.executions ≡ s.executions)
    × (e'.execution_id ≡ e.execution_id)
    × (is_terminal_phase e'.phase ≡ true)
    × IsStored e' middle
    × KeepsManifests s s'

-- Where the result of an execution comes from, and the phase that goes with it: it was there before, or
-- the work is lost.
abbrev pub Source :
    Settings → SandboxState → TaskExecutionRecord → TaskResultManifest → TaskExecutionPhase → Type 0
Source settings s e m phase =
    ((load_manifest e.execution_id s ≡ ok m) × (phase ≡ terminal_phase m.agent_outcome))
    ⊎ ((load_manifest e.execution_id s ≡ err key_error)
        × (phase ≡ TaskExecutionPhase.failed)
        × (now : ℕ) × (m
            ≡ redact_secrets (secrets settings none)
                (failed_manifest settings e (lost settings e) now)))

-- The execution has a result, and the phase that goes with it.
abbrev pub Recovered : Settings → SandboxState → SandboxState → TaskExecutionRecord → Type 0
Recovered settings s s' e =
    (e' : TaskExecutionRecord) × (m : TaskResultManifest) × (load_execution e.execution_id s'
      ≡ ok e')
    × (load_manifest e.execution_id s' ≡ ok m)
    × Source settings s e m e'.phase

-- What another execution has is as it was.
abbrev pub Untouched : SandboxState → SandboxState → String → Type 0
Untouched s s' id =
    (load_execution id s' ≡ load_execution id s) × (load_manifest id s' ≡ load_manifest id s)

-- Only the one execution is touched.
abbrev pub Spares : TaskExecutionRecord → SandboxState → SandboxState → Type 0
Spares e s s' = (id : String) → (e.execution_id == id) ≡ false → Untouched s s' id

module _ (settings : Settings) (e : TaskExecutionRecord) (service : Service)
    (there : IsStored e service.state)
    (clean : IsClean (secrets settings none) e.execution_id) where
  closed_before :
      (row : ManifestRow)
      → find_manifest e.execution_id service.state ≡ some row
      → (service' : Service) × (take_over settings e service ≡ (ok tt, service'))
        × TakenOver e service.state service'.state
        × Recovered settings service.state service'.state e
        × Spares e service.state service'.state
  unfolding take_over load_manifest load_execution written
  closed_before row found =
      let phase = terminal_phase row.payload.agent_outcome in
      let reference = Option.some (manifest_reference settings.path e.execution_id) in
      let detail = row.payload.outcome_detail in
      let e' = after_phase settings e service there phase reference detail in
      (
        record (tick service) { state = written e' service.state },
        rw (take_over, load_manifest, found)
            (update_phase-eq settings e service there phase reference detail),
        (
          e',
          service.state,
          refl,
          refl,
          refl,
          terminal_phase-IsTerminal row.payload.agent_outcome,
          there,
          λ id m h. h,
        ),
        (
          e',
          row.payload,
          rw (find-written e' service.state (there.0) there.1) refl,
          rw (load_manifest, found) refl,
          inl (rw (load_manifest, found) refl, refl),
        ),
        λ id other. (rw (find-written_other e' service.state id other) refl, refl),
      )

  lost_before :
      find_manifest e.execution_id service.state ≡ none
      → (service' : Service) × (take_over settings e service ≡ (ok tt, service'))
        × TakenOver e service.state service'.state
        × Recovered settings service.state service'.state e
        × Spares e service.state service'.state
  unfolding take_over load_manifest load_execution finalize_failure written
  lost_before missing =
      let f = lost settings e in
      let m = failed_manifest settings e f (settings.now service.readings) in
      let detail = Option.some (redacted_detail settings f) in
      let (service', run, closed) =
        closing-Closed settings e none m refl (tick service) there clean TaskExecutionPhase.failed
          detail in
      let (e', state_eq, id_eq, phase_eq, stored) = closed in
      let middle = with_manifest settings none m (tick service) in
      let stored' : IsStored e' middle = stored in
      let redacted_id = redact_secrets-id (secrets settings none) m clean in
      (
        service',
        rw (take_over, load_manifest, missing) run,
        (
          e',
          middle,
          state_eq,
          refl,
          id_eq,
          ap is_terminal_phase phase_eq,
          stored,
          λ id kept h.
              subst (λ s. load_manifest id s ≡ ok kept) (sym state_eq)
                (put-KeepsManifests (redact_secrets (secrets settings none) m) service.state
                  (ap (λ id. find_manifest id service.state) redacted_id ∙ missing) id kept h),
        ),
        (
          e',
          redact_secrets (secrets settings none) m,
          rw (state_eq, ← id_eq) (rw (find-written e' middle (stored'.0) stored'.1) refl),
          rw state_eq (load-with_manifest settings none m (tick service) (there.0) (there.1) clean),
          inr (rw (load_manifest, missing) refl, phase_eq, settings.now service.readings, refl),
        ),
        λ id other.
            let other' : (e'.execution_id == id) ≡ false = rw id_eq other in
            let not_mine : ((redact_secrets (secrets settings none) m).execution_id == id) ≡ false =
              rw redacted_id other in
            (
              rw (state_eq, find-written_other e' middle id other') refl,
              rw
                  (
                    state_eq,
                    find-put_other (redact_secrets (secrets settings none) m) service.state id
                        not_mine,
                  )
                  refl,
            ),
      )

  pub taken_over :
      (service' : Service) × (take_over settings e service ≡ (ok tt, service'))
      × TakenOver e service.state service'.state
      × Recovered settings service.state service'.state e
      × Spares e service.state service'.state
  taken_over = elim (Option-cases (find_manifest e.execution_id service.state)) [
    | inl missing ↦ lost_before missing
    | inr (row, found) ↦ closed_before row found
  ]

-- One execution less is awaited.
pub IsCovered-next :
    (e : TaskExecutionRecord) (todo : List TaskExecutionRecord) (s s' : SandboxState)
    → TakenOver e s s'
    → All (IsCovered (e ∷ todo)) s.executions
    → All (IsCovered todo) s'.executions
unfolding written awaits
IsCovered-next e todo s s' (e', middle, state_eq, rows_eq, id_eq, terminal, stored, kept) covered =
    let before = subst (λ rows. All (IsCovered (e ∷ todo)) rows) (sym rows_eq) covered in
    let after =
      All-update_cases (IsCovered (e ∷ todo)) (IsCovered todo) (is_execution e'.execution_id)
        (saved_row e') middle.executions (λ r hit h. rw terminal refl)
        (λ r miss h.
          let other : (r.execution_id == e.execution_id) ≡ false = rw id_eq at miss in
          ground (
            arith,
            h,
            other,
            eq_iff r.execution_id e.execution_id,
            eq_iff e.execution_id r.execution_id,
          ))
        before in
    subst (λ s. All (IsCovered todo) s.executions) (sym state_eq) after

pub IsStored-next :
    (e r : TaskExecutionRecord) (s s' : SandboxState)
    → TakenOver e s s'
    → IsStored r s
    → IsStored r s'
IsStored-next e r s s' (e', middle, state_eq, rows_eq, id_eq, terminal, stored, kept) there =
    let there' : IsStored r middle = (
      there.0,
      ap (λ rows. find_where (is_execution r.execution_id) rows) rows_eq ∙ there.1,
      there.2,
    ) in
    subst (λ s. IsStored r s) (sym state_eq) (IsStored-written e' r middle stored there')
