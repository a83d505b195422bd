-- ===== src/Lifecycle/Examples.antt =====
-- Examples of the lifecycle: a creation whose sandbox the provider does not know.
use gg_agent_server.Prelude.{◌≡◌, refl, none, []}
use gg_agent_server.Result.{Error, ok, err}
use gg_agent_server.Program.{transact, read, return, ◌>>=◌}
use gg_agent_server.Ledger.Sandboxes.Polled.{created, absent, holding, stops, creation_there}
use gg_agent_server.Lifecycle.{
  snapshot, World, Texts, Lookup, Answers, update, report, discovered, reconnect, creation_of,
  terminate,
}
use gg_agent_server.Lifecycle.Confirmed.{
  IsConfirmed, IsStopped, reconnect-IsConfirmed, terminate-IsStopped,
}

abbrev texts : Texts
texts = record { now = λ n. n; type_name = λ e. "error"; shown = λ code. "code" }

abbrev gone : Answers
gone = record {
  from_id = Lookup.failed Error.provider_error;
  find = ok [];
  poll = err Error.provider_error;
}

abbrev world : World
world = record { ledger = holding created; readings = 9 }

abbrev after : World
after = record { ledger = holding absent; readings = 10 }

reconnects : reconnect texts gone created world ≡ (ok (snapshot absent, none), after)
unfolding reconnect discovered report update transact ◌>>=◌ return
reconnects = rw stops refl

reconnect-IsConfirmed_example : IsConfirmed none gone
reconnect-IsConfirmed_example = reconnect-IsConfirmed texts gone created world reconnects refl

terminates :
    terminate texts gone (err Error.provider_error) gone "a" world ≡ (ok (snapshot absent), after)
unfolding terminate creation_of read return ◌>>=◌
terminates = rw (creation_there, reconnects) refl

terminate-IsStopped_example : IsStopped gone gone
terminate-IsStopped_example =
    terminate-IsStopped texts gone (err Error.provider_error) gone "a" world terminates refl
