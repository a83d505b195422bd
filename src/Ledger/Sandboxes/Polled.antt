-- ===== src/Ledger/Sandboxes/Polled.antt =====
-- A sandbox that the provider reports as running.
use gg_agent_server.Prelude.{◌≡◌, refl, none, some, [], ◌∷◌, arith}
use gg_agent_server.Result.{ok}
use gg_agent_server.Table.{find_where, update_where, count_where}
use gg_agent_server.Sdk.Tasks.{TaskState}
use gg_agent_server.Ledger.Rows.{row_to_record, SandboxProviderState, SandboxCreationRecord, Ledger}
use gg_agent_server.Ledger.Samples.{ledger_of, task_in}
use gg_agent_server.Ledger.Tasks.{get, joined_outcome}
use gg_agent_server.Ledger.Soundness.{IsSound}
use gg_agent_server.Ledger.Sandboxes.{get_sandbox_creation, update_sandbox_creation}

abbrev pub created : SandboxCreationRecord
created = record {
  task_id = "a";
  deployment = "prod";
  sandbox_name = "sandbox-a";
  tags_json = "{}";
  session_api_key = "secret";
  credential_version = none;
  provider_id = none;
  provider_state = SandboxProviderState.creating;
  detail = none;
  created_at = 5;
  updated_at = 5;
}

abbrev pub polled : SandboxCreationRecord
polled = record created {
  provider_id = some "sb-1";
  provider_state = SandboxProviderState.running;
  updated_at = 9;
}

abbrev pub holding : SandboxCreationRecord → Ledger
holding row = record (ledger_of TaskState.running) { sandbox_creations = row ∷ [] }

pub polls :
    update_sandbox_creation "a" (some "sb-1") SandboxProviderState.running none 9 (holding created)
    ≡ ok (polled, holding polled, 1)
unfolding update_sandbox_creation get_sandbox_creation find_where update_where count_where
polls = refl

abbrev pub absent : SandboxCreationRecord
absent = record created {
  provider_state = SandboxProviderState.stopped;
  detail = some "provider confirmed deterministic identity absent";
  updated_at = 9;
}

pub stops :
    update_sandbox_creation "a" none SandboxProviderState.stopped
      (some "provider confirmed deterministic identity absent")
      9
      (holding created)
    ≡ ok (absent, holding absent, 1)
unfolding update_sandbox_creation get_sandbox_creation find_where update_where count_where
stops = refl

pub creation_there : get_sandbox_creation "a" (holding created) ≡ some created
unfolding get_sandbox_creation find_where
creation_there = refl

pub holding-IsSound : IsSound (holding created)
unfolding find_where
holding-IsSound = record {
  tasks_distinct = (tt, tt);
  task_seqs = (omega arith, tt);
  retired_seqs = tt;
  unexpired = (λ h. (tt, tt), tt);
  expired = (λ h. cc h, tt);
  reservations_distinct = tt;
  reserved = tt;
  creations = (refl, tt);
  supervisions = tt;
  publications = tt;
  receipts = tt;
  copies = tt;
  results = tt;
}

pub task_there :
    get "a" none (holding polled)
    ≡ some (row_to_record (task_in TaskState.running "a" 1) (joined_outcome (holding polled) "a"))
unfolding get find_where
task_there = refl

pub polled_there : get_sandbox_creation "a" (holding polled) ≡ some polled
unfolding get_sandbox_creation find_where
polled_there = refl

pub stays :
    update_sandbox_creation "a" none SandboxProviderState.running none 9 (holding polled)
    ≡ ok (polled, holding polled, 0)
unfolding update_sandbox_creation get_sandbox_creation find_where update_where count_where
stays = refl
