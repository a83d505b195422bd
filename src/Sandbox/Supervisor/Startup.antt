-- ===== src/Sandbox/Supervisor/Startup.antt =====
-- `startup` of sandboxes/gg/server/task_supervisor/service.py: what a restart does with the executions
-- that it finds.
use gg_agent_server.Prelude.{
  ◌⊎◌, String, ◌≡◌, refl, ◌∙◌, sym, true, false, none, List, [], ◌∷◌, ◌==◌, All, Option-cases, inl,
  inr,
}
use gg_agent_server.Result.{ok, err, key_error}
use gg_agent_server.Program.{◌>>=◌, return, for_each}
use gg_agent_server.Table.Rows.{All-imp, All-both, Distinct}
use gg_agent_server.Sdk.Execution.{TaskExecutionRecord}
use gg_agent_server.Sandbox.{SandboxState}
use gg_agent_server.Sandbox.Executions.{find_manifest, load_manifest, list_non_terminal}
use gg_agent_server.Sandbox.Executions.Rows.{
  IsSound, IsCovered, list_non_terminal-IsCovered, list_non_terminal-none,
  list_non_terminal-Distinct, same_id, same_id_sym, list_non_terminal-found,
}
use gg_agent_server.Sandbox.Supervisor.{Settings, Service, secrets, take_over, startup}
use gg_agent_server.Sandbox.Supervisor.Stored.{IsStored, IsClean}
use gg_agent_server.Sandbox.Supervisor.TakingOver.{
  KeepsManifests, Recovered, Untouched, Spares, taken_over, IsCovered-next, IsStored-next,
}

-- The other execution stays as it is.
Recovered-Untouched :
    (settings : Settings) (s t u : SandboxState) (e : TaskExecutionRecord)
    → Untouched t u e.execution_id
    → Recovered settings s t e
    → Recovered settings s u e
Recovered-Untouched settings s t u e (record_eq, manifest_eq) (e', m, there, result, source) =
    (e', m, record_eq ∙ there, manifest_eq ∙ result, source)

-- What was there for an execution before another was taken over.
Recovered-before :
    (settings : Settings) (s t u : SandboxState) (e : TaskExecutionRecord)
    → Untouched s t e.execution_id
    → Recovered settings t u e
    → Recovered settings s u e
Recovered-before settings s t u e (record_eq, manifest_eq) (e', m, there, result, inl (h, k)) =
    (e', m, there, result, inl (sym manifest_eq ∙ h, k))
Recovered-before settings s t u e (record_eq, manifest_eq)
      (e', m, there, result, inr (h, k, now, lost_eq)) =
    (e', m, there, result, inr (sym manifest_eq ∙ h, k, now, lost_eq))

-- The loop over the executions, from one state to another.
abbrev Swept : Settings → List TaskExecutionRecord → SandboxState → SandboxState → Type 0
Swept settings todo s s' =
    All (IsCovered []) s'.executions
    × KeepsManifests s s'
    × All (Recovered settings s s') todo
    × ((id : String) → All (λ e. (e.execution_id == id) ≡ false) todo → Untouched s s' id)

Swept-next :
    (settings : Settings) (e : TaskExecutionRecord) (todo : List TaskExecutionRecord)
    (s t u : SandboxState)
    → All (λ r. same_id e r ≡ false) todo
    → KeepsManifests s t
    → Recovered settings s t e
    → Spares e s t
    → Swept settings todo t u
    → Swept settings (e ∷ todo) s u
Swept-next settings e todo s t u distinct kept recovered spared (done, kept', others, rest) = (
  done,
  λ id m h. kept' id m (kept id m h),
  (
    Recovered-Untouched settings s t u e
        (rest e.execution_id (All-imp _ _ todo (λ r h. same_id_sym e r h) distinct)) recovered,
    All-imp _ _ todo
        (λ r (h : (same_id e r ≡ false) × Recovered settings t u r).
          Recovered-before settings s t u r (spared r.execution_id (h.0)) (h.1))
        (All-both _ _ todo distinct others),
  ),
  λ id (h : ((e.execution_id == id) ≡ false) × All (λ r. (r.execution_id == id) ≡ false) todo).
      let (record_eq, manifest_eq) = spared id (h.0) in
      let (record_eq', manifest_eq') = rest id (h.1) in
      (record_eq' ∙ record_eq, manifest_eq' ∙ manifest_eq),
)

module _ (settings : Settings) where
  loop :
      (todo : List TaskExecutionRecord) (service : Service)
      → All (λ e. IsStored e service.state) todo
      → All (λ e. IsClean (secrets settings none) e.execution_id) todo
      → Distinct same_id todo
      → All (IsCovered todo) service.state.executions
      → (service' : Service) × (for_each (take_over settings) todo service ≡ (ok tt, service'))
        × Swept settings todo service.state service'.state
  unfolding for_each ◌>>=◌ return
  loop [] service there clean distinct covered =
      (service, refl, (covered, (λ id m h. h), tt, λ id h. (refl, refl)))
  loop (e ∷ todo) service there clean distinct covered =
      let (next, run, taken, recovered, spared) =
        taken_over settings e service (there.0) (clean.0) in
      let (last, rest, swept) =
        loop todo next
          (All-imp _ _ todo (λ r h. IsStored-next e r service.state next.state taken h) there.1)
          (clean.1) (distinct.1) (IsCovered-next e todo service.state next.state taken covered) in
      (
        last,
        rw run rest,
        Swept-next settings e todo service.state next.state last.state (distinct.0)
            (let (e', middle, a, b, c, d, f, kept) = taken in kept) recovered spared swept,
      )

-- A start of the service, where each row of the table has its record's identifier and no other row has
-- it, and no identifier has a secret as a part: it returns, and no execution is left that is not
-- terminal. Each execution that was not, has a result and the phase that goes with it: the manifest that
-- was there, or, where there was none, the redacted manifest of a failure that says that ownership was
-- lost. Any manifest that was there is there unchanged.
pub startup-terminal :
    (settings : Settings) (service : Service) (id : String)
    → service.started ≡ false
    → IsSound service.state
    → All (λ e. IsClean (secrets settings none) e.execution_id) (list_non_terminal service.state)
    → (service' : Service) × (startup settings service ≡ (ok tt, service'))
      × (list_non_terminal service'.state ≡ [])
      × All (Recovered settings service.state service'.state) (list_non_terminal service.state)
      × ((load_manifest id service'.state ≡ load_manifest id service.state)
          ⊎ (load_manifest id service.state ≡ err key_error))
unfolding startup load_manifest
startup-terminal settings service id new sound clean =
    let (service', run, (covered, kept, recovered, rest)) =
      loop settings (list_non_terminal service.state) (record service { started = true })
        (list_non_terminal-found service.state sound) clean
        (list_non_terminal-Distinct service.state sound)
        (list_non_terminal-IsCovered service.state sound) in
    (
      service',
      rw (startup, new) run,
      list_non_terminal-none service'.state covered,
      recovered,
      elim (Option-cases (find_manifest id service.state)) [
        | inl e ↦ inr (rw (load_manifest, e) refl)
        | inr (row, e) ↦
            let there : load_manifest id service.state ≡ ok row.payload =
              rw (load_manifest, e) refl in
            inl (kept id row.payload there ∙ sym there)
      ],
    )
