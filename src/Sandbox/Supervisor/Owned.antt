-- ===== src/Sandbox/Supervisor/Owned.antt =====
-- What every part of `_run_pipeline` of sandboxes/gg/server/task_supervisor/service.py keeps: the
-- execution stays in the database with its identity.
use gg_agent_server.Prelude.{String, ◌≡◌, inl, inr, Option, none, some, Option-cases, ◌==◌}
use gg_agent_server.Result.{Result, ok, err, assertion_error}
use gg_agent_server.Program.{transact}
use gg_agent_server.Program.Runs.{
  Keeps, Keeps-bind, Keeps-return, Keeps-raise, Keeps-demand, Keeps-if, Keeps-read, Keeps-modify,
}
use gg_agent_server.Table.{find_where}
use gg_agent_server.Sdk.Domain.{ConversationStatus}
use gg_agent_server.Sdk.Execution.{TaskExecutionPhase, AgentOutcome, StartTaskExecutionRequest}
use gg_agent_server.Sandbox.{MetadataRow}
use gg_agent_server.Sandbox.Executions.{conversation_id, save_execution}
use gg_agent_server.Sandbox.Supervisor.{Settings, commit}
use gg_agent_server.Sandbox.Supervisor.Pipeline.{
  Outside, Run, by_service, is_text, is_timeout, enter_phase, clone_unless_there, chosen_base,
  resolve_base, checkout_branch, checkout_requested, prepare_repository, prepare, bind_conversation,
  created_or, ended, run_agent, gather, start_agent,
}
use gg_agent_server.Sandbox.Supervisor.Stored.{
  IsStored, IsStored-written, update_phase-eq, save_execution-eq, after_phase,
}

module _ (settings : Settings) (request : StartTaskExecutionRequest) (token : Option String)
    (out : Outside) (id : String) (phase : TaskExecutionPhase) where
  -- The execution of the run is in the database, and the variable has the phase it had.
  abbrev pub IsOwned : Run → Type 0
  IsOwned run =
      ((run.execution.execution_id ≡ id) × (run.execution.phase ≡ phase))
      × IsStored run.execution run.service.state

  pub enter_phase-Keeps :
      (entered : TaskExecutionPhase)
      → Keeps IsOwned (enter_phase settings request token out entered)
  unfolding Keeps enter_phase by_service
  enter_phase-Keeps entered run (same, there) =
      let e = after_phase settings run.execution run.service there entered none none in
      rw (update_phase-eq settings run.execution run.service there entered none none)
        (same, IsStored-written e run.execution run.service.state there there)

  -- The generation's identifier is written to a table of its own.
  pub drawn-Keeps :
      Keeps IsOwned (by_service (λ execution. commit (conversation_id out.drawn_conversation_id)))
  unfolding Keeps by_service transact conversation_id
  drawn-Keeps run (same, there) =
      elim (Option-cases (
        find_where (λ (r : MetadataRow). r.name == "conversation-id") run.service.state.metadata)) [
          | inl e ↦ rw (e, conversation_id) (same, there)
          | inr (row, e) ↦ rw (e, conversation_id) (same, there)
        ]

  pub saved-Keeps : Keeps IsOwned (by_service (λ execution. commit (save_execution execution)))
  unfolding Keeps by_service transact
  saved-Keeps run (same, there) =
      rw (save_execution-eq run.execution run.service.state there)
        (same, IsStored-written run.execution run.execution run.service.state there there)

  pub bind_conversation-Keeps : Keeps IsOwned (bind_conversation settings request token out)
  unfolding bind_conversation
  bind_conversation-Keeps =
      let P = IsOwned in
      Keeps-bind P _ _ drawn-Keeps
        λ bound. Keeps-bind P _ _ (Keeps-modify P _ λ run h. h) λ _. saved-Keeps

  checkout-Keeps :
      (branch : Option String)
      → Keeps IsOwned (checkout_requested settings request token out branch)
  unfolding checkout_requested checkout_branch
  checkout-Keeps none = Keeps-raise (Unit {0}) IsOwned assertion_error
  checkout-Keeps (some branch) =
      Keeps-if IsOwned (out.current_branch == branch) _ _ (Keeps-return IsOwned tt)
        (Keeps-read IsOwned _)

  resolve_base-Keeps : Keeps IsOwned (resolve_base settings request token out)
  unfolding resolve_base chosen_base
  resolve_base-Keeps =
      let P = IsOwned in
      Keeps-bind P _ _
        (Keeps-if P (is_text request.base_sha) _ _ (Keeps-return P _)
          (Keeps-bind P _ _ (Keeps-read P _) λ _. Keeps-return P _))
        λ _. Keeps-modify P _ λ run h. h

  pub prepare-Keeps : Keeps IsOwned (prepare settings request token out)
  unfolding prepare prepare_repository clone_unless_there
  prepare-Keeps =
      let P = IsOwned in
      Keeps-if P (is_text request.repository) _ _
        (Keeps-bind P _ _ (Keeps-demand P _ _) λ _. Keeps-bind P _ _ (Keeps-demand P _ _) λ _.
          Keeps-bind P _ _ (Keeps-if P out.has_repository _ _ (Keeps-return P tt) (Keeps-read P _))
            λ _.
              Keeps-bind P _ _ resolve_base-Keeps
                λ _. Keeps-bind P _ _ (Keeps-demand P _ _) λ _. checkout-Keeps request.task_branch)
        (Keeps-read P _)

  pub start_agent-Keeps : Keeps IsOwned (start_agent settings request token out)
  unfolding start_agent
  start_agent-Keeps =
      let P = IsOwned in
      Keeps-bind P _ _ (enter_phase-Keeps TaskExecutionPhase.preparing) λ _.
        Keeps-bind P _ _ prepare-Keeps λ _.
          Keeps-bind P _ _ (enter_phase-Keeps TaskExecutionPhase.running_agent)
            λ _. bind_conversation-Keeps

  ended-Keeps :
      (result : Result ConversationStatus) → Keeps IsOwned (ended settings request token out result)
  unfolding ended
  ended-Keeps (ok status) = Keeps-return IsOwned _
  ended-Keeps (err e) =
      Keeps-if IsOwned (is_timeout e) _ _
        (Keeps-bind IsOwned _ _ (Keeps-read IsOwned _) λ _. Keeps-return IsOwned _)
        (Keeps-raise AgentOutcome IsOwned e)

  pub run_agent-Keeps : Keeps IsOwned (run_agent settings request token out)
  unfolding run_agent created_or
  run_agent-Keeps =
      let P = IsOwned in
      Keeps-bind P _ _ (Keeps-if P _ _ _ (Keeps-read P _) (Keeps-read P _))
        λ _. Keeps-bind P _ _ (Keeps-read P _) λ _. ended-Keeps out.run

  pub gather-Keeps : Keeps IsOwned (gather settings request token out)
  unfolding gather
  gather-Keeps =
      Keeps-if IsOwned (is_text request.repository) _ _ (Keeps-read IsOwned _)
        (Keeps-return IsOwned _)
