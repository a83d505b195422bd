-- ===== src/Ledger/Steps/Examples.antt =====
-- An example of a sequence of transactions.
use gg_agent_server.Ledger.Tasks.Examples.{first_submission, submits, submitted_ledger}
use gg_agent_server.Ledger.Soundness.{IsSound}
use gg_agent_server.Ledger.Steps.{Step, here, step, reached-IsSound}

reached-IsSound_example : IsSound submitted_ledger
reached-IsSound_example =
    reached-IsSound (step here (Step.submit first_submission 5 "a" (tt, tt) submits))
