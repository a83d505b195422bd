-- ===== src/Database/Examples.antt =====
-- An example of a provider that is polled.
use gg_agent_server.Prelude.{ℕ, ◌≡◌, refl, none, some}
use gg_agent_server.Result.{ok}
use gg_agent_server.Ledger.Rows.{SandboxProviderState, SandboxCreationRecord}
use gg_agent_server.Database.{Database, write_skip_unchanged}
use gg_agent_server.Database.Polling.{poll, poll-again}
use gg_agent_server.Ledger.Sandboxes.Polled.{created, polled, holding, polls}

abbrev database_of : ℕ → SandboxCreationRecord → Database
database_of revision row = record { revision = revision; ledger = holding row }

first_poll :
    poll "a" (some "sb-1") SandboxProviderState.running none 9 (database_of 3 created)
    ≡ (ok polled, database_of 4 polled)
unfolding write_skip_unchanged
first_poll = rw (write_skip_unchanged, polls) refl

poll-again_example :
    poll "a" (some "sb-1") SandboxProviderState.running none 12 (database_of 4 polled)
    ≡ (ok polled, database_of 4 polled)
poll-again_example =
    poll-again "a" (some "sb-1") SandboxProviderState.running none 9 12 (database_of 3 created)
      first_poll
