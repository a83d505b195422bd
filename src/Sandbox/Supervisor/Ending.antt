-- ===== src/Sandbox/Supervisor/Ending.antt =====
-- `_run_pipeline` of sandboxes/gg/server/task_supervisor/service.py: how an execution ends.
use gg_agent_server.Prelude.{
  String, ◌≡◌, refl, ◌∙◌, ap, ◌⊎◌, inl, inr, subst, true, false, Option, Bool-cases, sym,
}
use gg_agent_server.Result.{Result, Error, ok, err}
use gg_agent_server.Program.{return-eq, recover, catch, raise}
use gg_agent_server.Program.Runs.{Keeps, Yields, Yields-bind, Keeps-bind}
use gg_agent_server.Sdk.Execution.{
  TaskExecutionPhase, AgentOutcome, StartTaskExecutionRequest, TaskExecutionRecord,
}
use gg_agent_server.Sandbox.Executions.{is_terminal_phase}
use gg_agent_server.Sandbox.Supervisor.{
  Settings, Service, Failure, tick, secrets, finalize_failure, failed_manifest, redacted_detail,
  terminal_phase, succeeded,
}
use gg_agent_server.Sandbox.Supervisor.Pipeline.{
  Evidence, Outside, Run, in_run, by_service, token_of, is_timeout, is_caught, final_detail,
  result_manifest, conclude, pipeline, failure_of, fail_with, handle, run_pipeline,
}
use gg_agent_server.Sandbox.Supervisor.Stored.{IsStored, Ended, IsClean}
use gg_agent_server.Sandbox.Supervisor.Closing.{closing-Closed, Closed-Ended, Closed-IsStored}
use gg_agent_server.Sandbox.Supervisor.Owned.{
  IsOwned, start_agent-Keeps, run_agent-Keeps, gather-Keeps,
}

pub terminal_phase-IsTerminal :
    (outcome : AgentOutcome) → is_terminal_phase (terminal_phase outcome) ≡ true
terminal_phase-IsTerminal outcome = elim (Bool-cases (succeeded outcome)) [
  | inl e ↦ rw e refl
  | inr e ↦ rw e refl
]

-- `finalize_failure` on an execution that is stored.
pub finalize_failure-Ended :
    (settings : Settings) (e : TaskExecutionRecord) (f : Failure) (service : Service)
    → IsStored e service.state
    → IsClean (secrets settings f.github_token) e.execution_id
    → (service' : Service) × (finalize_failure settings e f service ≡ (ok tt, service'))
      × Ended e.execution_id service'.state
unfolding finalize_failure
finalize_failure-Ended settings e f service there clean =
    let m = failed_manifest settings e f (settings.now service.readings) in
    let detail = Option.some (redacted_detail settings f) in
    let (service', run, closed) =
      closing-Closed settings e f.github_token m refl (tick service) there clean
        TaskExecutionPhase.failed detail in
    (
      service',
      run,
      Closed-Ended settings e f.github_token m refl (tick service) there clean
          TaskExecutionPhase.failed detail service' refl closed,
    )

module _ (settings : Settings) (request : StartTaskExecutionRequest) (token : Option String)
    (out : Outside) (id : String) (phase : TaskExecutionPhase)
    (clean : IsClean (secrets settings (token_of settings token)) id) where
  conclude-Ended :
      (evidence : Evidence) (outcome : AgentOutcome) (run : Run)
      → IsOwned settings request token out id phase run
      → (run' : Run) × (conclude settings request token out evidence outcome run ≡ (ok tt, run'))
        × Ended id run'.service.state
        × IsOwned settings request token out id phase run'
  unfolding conclude by_service
  conclude-Ended evidence outcome run ((same, same_phase), there) =
      let e = run.execution in
      let m =
        result_manifest settings request token out run evidence outcome
          (settings.now run.service.readings) in
      let clean_e =
        subst (λ id. IsClean (secrets settings (token_of settings token)) id) (sym same) clean in
      let (service', closed_run, closed) =
        closing-Closed settings e (token_of settings token) m refl (tick run.service) there clean_e
          (terminal_phase outcome) (final_detail settings request token out outcome) in
      (
        record run { service = service' },
        ap (λ r. in_run run r) closed_run,
        subst (λ id. Ended id service'.state) same
            (Closed-Ended settings e (token_of settings token) m refl (tick run.service) there
              clean_e (terminal_phase outcome) (final_detail settings request token out outcome)
              service' (terminal_phase-IsTerminal outcome) closed),
        (
          (same, same_phase),
          Closed-IsStored settings e (token_of settings token) m refl (tick run.service) there
              clean_e (terminal_phase outcome) (final_detail settings request token out outcome)
              service' e closed there,
        ),
      )

  abbrev Owned : Run → Type 0
  Owned = IsOwned settings request token out id phase

  conclude-Keeps :
      (evidence : Evidence) (outcome : AgentOutcome)
      → Keeps Owned (conclude settings request token out evidence outcome)
  unfolding Keeps
  conclude-Keeps evidence outcome run owned =
      let (run', done, ended, kept) = conclude-Ended evidence outcome run owned in
      subst (λ p. Owned p.1) (sym done) kept

  conclude-Yields :
      (evidence : Evidence) (outcome : AgentOutcome)
      → Yields Owned
          (λ u run'. Ended id run'.service.state)
          (conclude settings request token out evidence outcome)
  unfolding Yields
  conclude-Yields evidence outcome run u t owned h =
      let (run', done, ended, kept) = conclude-Ended evidence outcome run owned in
      let (_, same) = return-eq (sym done ∙ h) in
      subst (λ run. Ended id run.service.state) same ended

  pipeline-Keeps : Keeps Owned (pipeline settings request token out)
  unfolding pipeline
  pipeline-Keeps = Keeps-bind Owned _ _ (start_agent-Keeps settings request token out id phase) λ _.
      Keeps-bind Owned _ _ (run_agent-Keeps settings request token out id phase) λ _.
        Keeps-bind Owned _ _ (gather-Keeps settings request token out id phase)
          λ _. conclude-Keeps _ _

  pipeline-Yields :
      Yields Owned (λ u run'. Ended id run'.service.state) (pipeline settings request token out)
  unfolding pipeline
  pipeline-Yields =
      let Q = λ (u : Unit {0}) (run' : Run). Ended id run'.service.state in
      Yields-bind Owned Q _ _ (start_agent-Keeps settings request token out id phase) λ _.
        Yields-bind Owned Q _ _ (run_agent-Keeps settings request token out id phase) λ _.
          Yields-bind Owned Q _ _ (gather-Keeps settings request token out id phase)
            λ _. conclude-Yields _ _

  -- How a pipeline ends: over, or with an exception that no clause catches.
  abbrev Settles : Result (Unit {0}) × Run → Type 0
  Settles p =
      ((run' : Run) × (p ≡ (ok tt, run')) × Ended id run'.service.state)
      ⊎ ((e : Error) × (run' : Run) × (p ≡ (err e, run'))
          × (is_timeout e ≡ false)
          × (is_caught e ≡ false))

  fail_with-Settles :
      (e : Error) (outcome : AgentOutcome) (run : Run)
      → Owned run
      → Settles (fail_with settings request token out e outcome run)
  unfolding fail_with by_service
  fail_with-Settles e outcome run ((same, same_phase), there) =
      let clean_e =
        subst (λ id. IsClean (secrets settings (token_of settings token)) id) (sym same) clean in
      let (service', done, ended) =
        finalize_failure-Ended settings run.execution
          (failure_of settings request token out run e outcome) run.service there clean_e in
      inl (
        record run { service = service' },
        ap (λ r. in_run run r) done,
        subst (λ id. Ended id service'.state) same ended,
      )

  handle-Settles :
      (e : Error) (run : Run) → Owned run → Settles (handle settings request token out e run)
  unfolding handle raise
  handle-Settles e run owned = elim (Bool-cases (is_timeout e)) [
    | inl t ↦ rw (handle, t) (fail_with-Settles e AgentOutcome.timeout run owned)
    | inr t ↦ elim (Bool-cases (is_caught e)) [
      | inl f ↦ rw (handle, t, f) (fail_with-Settles e AgentOutcome.failed run owned)
      | inr f ↦ rw (handle, t, f) (inr (e, run, refl, t, f))
    ]
  ]

  recover-Settles :
      (p : Result (Unit {0}) × Run)
      → Owned p.1
      → ((u : Unit {0}) (run' : Run) → p ≡ (ok u, run') → Ended id run'.service.state)
      → Settles (recover p (handle settings request token out))
  recover-Settles (ok u, run') owned ended = inl (run', refl, ended u run' refl)
  recover-Settles (err e, run') owned ended = handle-Settles e run' owned

-- The pipeline of an execution that is in the database, under an identifier that has no secret as a
-- part: whatever git, the file system, the agent and the conversation service answer, it returns, and
-- then the stored execution is completed or failed and has a manifest; or it raises an exception that
-- is none of `TimeoutError`, `GitPrepError`, `AgentError`, `RuntimeError` and `ValueError`.
pub run_pipeline-Ended :
    (settings : Settings) (request : StartTaskExecutionRequest) (token : Option String)
    (out : Outside) (run : Run)
    → IsClean (secrets settings (token_of settings token)) run.execution.execution_id
    → IsStored run.execution run.service.state
    → ((run' : Run) × (run_pipeline settings request token out run ≡ (ok tt, run'))
        × Ended run.execution.execution_id run'.service.state)
      ⊎ ((e : Error) × (run' : Run) × (run_pipeline settings request token out run ≡ (err e, run'))
          × (is_timeout e ≡ false)
          × (is_caught e ≡ false))
unfolding run_pipeline catch Keeps Yields
run_pipeline-Ended settings request token out run clean there =
    let id = run.execution.execution_id in
    let phase = run.execution.phase in
    recover-Settles settings request token out id phase clean
      (pipeline settings request token out run)
      (pipeline-Keeps settings request token out id phase clean run ((refl, refl), there))
      (λ u run' h.
        pipeline-Yields settings request token out id phase clean run u run' ((refl, refl), there)
          h)
