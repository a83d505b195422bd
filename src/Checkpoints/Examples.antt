-- ===== src/Checkpoints/Examples.antt =====
-- Examples of checkpoints.
use gg_agent_server.Prelude.{◌≡◌, refl, none, some, [], ◌∷◌, pos}
use gg_agent_server.Result.{Error, ok, err}
use gg_agent_server.Program.{catch, modify, read, ◌>>=◌}
use gg_agent_server.Checkpoints.{
  new_coordinator, Attempt, Turn, Pass, others, wait_durable, checkpoint_locked, checkpoint,
  ensure_durable,
}
use gg_agent_server.Checkpoints.Durability.{Advances, checkpoint-Advances}

-- One transaction of others is not in the copy, and the volume fails.
abbrev failing : Attempt
failing = record { published = ok tt; written_during = 1; committed = err Error.runtime_error }

abbrev passing : Attempt
passing = record failing { committed = ok tt }

-- While the call waits for the lock, others write twice, one of them confirms all of it, and one gives
-- up; then the call's own commit would fail.
abbrev contended : Pass
contended = record {
  turns =
      Turn.wrote 2
      ∷ Turn.checkpointed (some (pos 3)) passing
      ∷ Turn.gave_up Error.timeout_error
      ∷ [];
  acquired = ok tt;
  attempt = failing;
}

checkpoint-Advances_example :
    Advances (new_coordinator 5) (checkpoint none contended (new_coordinator 5)).1
checkpoint-Advances_example = checkpoint-Advances none contended (new_coordinator 5) (refl, refl)

-- The call finds its revision confirmed by another, and does not try its own commit.
coalesces :
    ensure_durable (pos 4) (contended ∷ []) (new_coordinator 5)
    ≡ some (
      ok tt,
      record {
        revision = 8;
        snapshot = some 7;
        confirmed_revision = pos 7;
        last_error = some Error.timeout_error;
      },
    )
unfolding ensure_durable wait_durable checkpoint others checkpoint_locked catch modify read ◌>>=◌
coalesces = refl
