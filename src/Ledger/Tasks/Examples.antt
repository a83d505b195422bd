-- ===== src/Ledger/Tasks/Examples.antt =====
-- Examples of admission.
use gg_agent_server.Prelude.{◌≡◌, refl, true, false, none, some, [], ◌∷◌}
use gg_agent_server.Result.{ok}
use gg_agent_server.Table.{find_where, insert_unique}
use gg_agent_server.Ledger.Rows.{Ledger, row_to_record}
use gg_agent_server.Ledger.Samples.{empty_ledger}
use gg_agent_server.Ledger.Tasks.{Submission, submitted_row, submitted_record, admit, submit}
use gg_agent_server.Ledger.Tasks.Idempotency.{submit-again}

abbrev pub first_submission : Submission
first_submission = record {
  idempotency_key = "key";
  repository = some "owner/repo";
  prompt = "fix it";
  base_ref = none;
  retry_of = none;
  model = "model";
  owner_id = none;
}

abbrev pub submitted_ledger : Ledger
submitted_ledger = record empty_ledger {
  task_seq = 1;
  tasks = submitted_row first_submission 5 "a" 1 ∷ [];
}

pub submits :
    submit first_submission 5 "a" empty_ledger
    ≡ ok ((submitted_record first_submission 5 "a" 1, true), submitted_ledger)
unfolding submit admit find_where insert_unique
submits = refl

submit-again_example :
    ((submitted_record first_submission 5 "a" 1).id ≡ "a")
    × ((submitted_record first_submission 5 "a" 1).seq ≡ 1)
    × (submit first_submission 6 "b" submitted_ledger
        ≡ ok (
          (row_to_record (submitted_row first_submission 5 "a" 1) none, false),
          submitted_ledger,
        ))
submit-again_example =
    submit-again first_submission 5 "a" empty_ledger first_submission 6 "b" submits refl refl
