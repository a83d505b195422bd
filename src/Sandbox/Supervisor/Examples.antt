-- ===== src/Sandbox/Supervisor/Examples.antt =====
-- Examples of the supervisor.
use gg_agent_server.Prelude.{◌≡◌, ◌⊎◌, refl, true, false, none, [], ◌∷◌, All}
use gg_agent_server.Result.{Error, ok, err, key_error}
use gg_agent_server.Program.{◌>>=◌, transact, modify, read}
use gg_agent_server.Table.{find_where, select_where, order_by, insert_ordered, update_where}
use gg_agent_server.Sdk.Execution.{TaskExecutionPhase, TaskExecutionRecord}
use gg_agent_server.Sandbox.{SandboxState}
use gg_agent_server.Sandbox.Samples.{
  sample_execution, one_execution, sample_manifest, sample_request,
}
use gg_agent_server.Sandbox.Executions.{
  load_execution, load_manifest, list_non_terminal, save_execution, conversation_id, execution_row,
}
use gg_agent_server.Sandbox.Supervisor.{Settings, Service, update_phase, startup}
use gg_agent_server.Sandbox.Supervisor.Pipeline.{
  Outside, Run, by_service, is_timeout, is_caught, enter_phase, prepare, bind_conversation,
  start_agent, run_pipeline,
}
use gg_agent_server.Sandbox.Supervisor.Stored.{Ended}
use gg_agent_server.Sandbox.Supervisor.Ending.{run_pipeline-Ended}
use gg_agent_server.Sandbox.Supervisor.Phases.{start_agent-phase}
use gg_agent_server.Sandbox.Supervisor.Startup.{startup-terminal}
use gg_agent_server.Sandbox.Supervisor.TakingOver.{Recovered}

abbrev settings : Settings
settings = record {
  github_token = none;
  openrouter_api_key = none;
  path = "/sandbox.db";
  now = λ n. n;
  str = λ e. "failed";
}

abbrev outside : Outside
outside = record {
  has_repository = false;
  clone_repository = ok tt;
  resolve_base_sha = ok "sha";
  has_head = true;
  current_branch = "";
  checkout_task_branch = ok tt;
  make_directory = ok tt;
  drawn_conversation_id = "conversation";
  get_record = err Error.conversation_not_found_error;
  set_github_token = ok tt;
  create_conversation = ok tt;
  send_message = ok tt;
  run = err Error.timeout_error;
  cancel = ok tt;
  collect_git_evidence = err Error.git_prep_error;
}

abbrev service_of : SandboxState → Service
service_of state = record { state = state; active = []; started = false; readings = 5 }

abbrev admitted : Run
admitted = record {
  service = service_of one_execution;
  execution = sample_execution;
  base_sha = none;
  conversation_id = none;
}

run_pipeline-Ended_example :
    ((run' : Run) × (run_pipeline settings sample_request none outside admitted ≡ (ok tt, run'))
      × Ended "task:start" run'.service.state)
    ⊎ ((e : Error) × (run' : Run) × (run_pipeline settings sample_request none outside admitted
          ≡ (err e, run'))
        × (is_timeout e ≡ false)
        × (is_caught e ≡ false))
unfolding find_where
run_pipeline-Ended_example =
    run_pipeline-Ended settings sample_request none outside admitted (refl, (refl, (refl, tt)))
      (execution_row sample_execution, refl, refl)

starts :
    start_agent settings sample_request none outside admitted
    ≡ (ok tt, (start_agent settings sample_request none outside admitted).1)
unfolding start_agent enter_phase by_service update_phase transact prepare bind_conversation ◌>>=◌
    modify read conversation_id save_execution find_where update_where
starts = refl

start_agent-phase_example :
    (e : TaskExecutionRecord) × (load_execution "task:start"
        (start_agent settings sample_request none outside admitted).1.service.state
      ≡ ok e)
    × (e.phase ≡ TaskExecutionPhase.accepted)
unfolding find_where
start_agent-phase_example =
    start_agent-phase settings sample_request none outside admitted
      (execution_row sample_execution, refl, refl) starts

abbrev lost_execution : TaskExecutionRecord
lost_execution = record sample_execution { execution_id = "task:lost"; start_key = "lost" }

-- Two executions are open, and the result of one of them was stored before the server stopped.
abbrev interrupted : SandboxState
interrupted = record one_execution {
  executions = execution_row lost_execution ∷ execution_row sample_execution ∷ [];
  manifests = record { execution_id = "task:start"; payload = sample_manifest } ∷ [];
}

startup-terminal_example :
    (service' : Service) × (startup settings (service_of interrupted) ≡ (ok tt, service'))
    × (list_non_terminal service'.state ≡ [])
    × All (Recovered settings interrupted service'.state) (list_non_terminal interrupted)
    × ((load_manifest "task:start" service'.state ≡ load_manifest "task:start" interrupted)
        ⊎ (load_manifest "task:start" interrupted ≡ err key_error))
unfolding list_non_terminal select_where order_by insert_ordered
startup-terminal_example =
    startup-terminal settings (service_of interrupted) "task:start" refl
      ((refl, (refl, tt)), ((refl, tt), (tt, tt)))
      ((refl, (refl, (refl, tt))), ((refl, (refl, (refl, tt))), tt))
