-- ===== src/Lifecycle/Creation/Examples.antt =====
-- An example of `create` for a task whose sandbox the provider cannot tell of.
use gg_agent_server.Prelude.{refl, ◌≡◌, ◌⊎◌, none, []}
use gg_agent_server.Result.{Error, ok, err}
use gg_agent_server.Ledger.Sandboxes.Polled.{
  created, holding, creation_there, task_there, polled_there, stays,
}
use gg_agent_server.Ledger.Sandboxes.Polled
use gg_agent_server.Lifecycle.{
  looked_up, polled, report, update, reconnect, snapshot, World, Texts, Lookup, Answers,
}
use gg_agent_server.Lifecycle.Confirmed.{IsConfirmed}
use gg_agent_server.Lifecycle.Credentials.{Identity, CreationAnswers}
use gg_agent_server.Lifecycle.Creation.{create, awaken, woken, create_unless}
use gg_agent_server.Lifecycle.Creation.Running.{create-running}
use gg_agent_server.Lifecycle.Shown.{IsStoredAs}
use gg_agent_server.Ledger.Rows.{SandboxProviderState}
use gg_agent_server.Program.{read, return, transact, ◌>>=◌}
use gg_agent_server.Lifecycle.Creation.Guard.{create-IsGuarded}

abbrev texts : Texts
texts = record { now = λ n. n; type_name = λ e. "error"; shown = λ code. "code" }

abbrev identity : Identity
identity = record { deployment = "d"; name = λ id. id; tags = λ id. id; sandbox_env = [] }

abbrev silent : Answers
silent = record {
  from_id = Lookup.failed Error.provider_error;
  find = err Error.provider_error;
  poll = err Error.provider_error;
}

abbrev answers : CreationAnswers
answers = record {
  reconnected = silent;
  resolved = none;
  verified = none;
  credential = none;
  session_api_key = "key";
  created = λ env. ok "sb-2";
  ready = ok tt;
}

abbrev other : CreationAnswers
other = record answers { created = λ env. err Error.provider_error }

abbrev world : World
world = record { ledger = holding created; readings = 9 }

create-IsGuarded_example :
    (create texts identity other "a" world ≡ create texts identity answers "a" world)
    ⊎ IsConfirmed none silent
create-IsGuarded_example =
    create-IsGuarded texts identity answers other "a" created world creation_there

-- The provider has the sandbox, and it runs.
abbrev alive : CreationAnswers
alive = record answers {
  reconnected = record { from_id = Lookup.found; find = ok []; poll = ok none };
}

abbrev running_world : World
running_world = record { ledger = holding Polled.polled; readings = 10 }

finds :
    create texts identity alive "a" (record { ledger = holding Polled.polled; readings = 9 })
    ≡ (ok (snapshot Polled.polled), running_world)
unfolding create awaken woken create_unless reconnect looked_up polled report update read return
    ◌>>=◌ transact
finds = rw (task_there, polled_there, stays) refl

create-running_example :
    ((snapshot Polled.polled).state ≡ SandboxProviderState.running)
    × IsStoredAs "a" SandboxProviderState.running running_world
create-running_example =
    create-running texts identity alive "a"
      (record { ledger = holding Polled.polled; readings = 9 }) finds
