-- ===== src/Sandbox/Supervisor/Phases.antt =====
-- `_run_pipeline` of sandboxes/gg/server/task_supervisor/service.py: the phase that is stored while the
-- agent runs.
use gg_agent_server.Prelude.{String, ◌≡◌, refl, Option, sym}
use gg_agent_server.Result.{ok}
use gg_agent_server.Program.{return-eq, transact}
use gg_agent_server.Program.Runs.{Yields, Yields-bind, Keeps-modify}
use gg_agent_server.Sdk.Execution.{
  TaskExecutionPhase, StartTaskExecutionRequest, TaskExecutionRecord,
}
use gg_agent_server.Sandbox.Executions.{save_execution, load_execution}
use gg_agent_server.Sandbox.Executions.Saved.{find-written}
use gg_agent_server.Sandbox.Supervisor.{Settings, commit}
use gg_agent_server.Sandbox.Supervisor.Pipeline.{
  Outside, Run, by_service, bind_conversation, start_agent,
}
use gg_agent_server.Sandbox.Supervisor.Stored.{IsStored, save_execution-eq}
use gg_agent_server.Sandbox.Supervisor.Owned.{
  IsOwned, enter_phase-Keeps, prepare-Keeps, drawn-Keeps,
}

module _ (settings : Settings) (request : StartTaskExecutionRequest) (token : Option String)
    (out : Outside) (id : String) (phase : TaskExecutionPhase) where
  abbrev HasPhase : Run → Type 0
  HasPhase run =
      (e : TaskExecutionRecord) × (load_execution id run.service.state ≡ ok e) × (e.phase ≡ phase)

  abbrev Owned : Run → Type 0
  Owned = IsOwned settings request token out id phase

  saved-Yields :
      Yields Owned (λ u. HasPhase) (by_service (λ execution. commit (save_execution execution)))
  unfolding Yields by_service transact load_execution
  saved-Yields run u t ((same, same_phase), (row, found, identity)) h =
      let s = run.service.state in
      let saved = save_execution-eq run.execution s (row, found, identity) in
      let (_, same_run) = return-eq (rw saved at h) in
      let seen = find-written run.execution s row found in
      (run.execution, rw (sym same_run, sym same) (rw (load_execution, seen) refl), same_phase)

  start_agent-Yields : Yields Owned (λ u. HasPhase) (start_agent settings request token out)
  unfolding start_agent bind_conversation
  start_agent-Yields =
      let Q = λ (u : Unit {0}). HasPhase in
      Yields-bind Owned Q _ _
        (enter_phase-Keeps settings request token out id phase TaskExecutionPhase.preparing)
        λ _. Yields-bind Owned Q _ _ (prepare-Keeps settings request token out id phase) λ _.
          Yields-bind Owned Q _ _
            (enter_phase-Keeps settings request token out id phase TaskExecutionPhase.running_agent)
            λ _.
              Yields-bind Owned Q _ _ (drawn-Keeps settings request token out id phase)
                λ bound. Yields-bind Owned Q _ _ (Keeps-modify Owned _ λ run h. h) λ _. saved-Yields

-- When the pipeline hands the work to the agent, the phase that is stored is the one that the execution
-- was admitted with, whatever was stored on the way: the record with the conversation is a copy of the
-- admitted one, and overwrites the phase of the running agent.
pub start_agent-phase :
    (settings : Settings) (request : StartTaskExecutionRequest) (token : Option String)
    (out : Outside) (run : Run) {run' : Run}
    → IsStored run.execution run.service.state
    → start_agent settings request token out run ≡ (ok tt, run')
    → (e : TaskExecutionRecord) × (load_execution run.execution.execution_id run'.service.state
        ≡ ok e)
      × (e.phase ≡ run.execution.phase)
unfolding Yields
start_agent-phase settings request token out run {run'} there h =
    start_agent-Yields settings request token out run.execution.execution_id run.execution.phase run
      tt run' ((refl, refl), there) h
