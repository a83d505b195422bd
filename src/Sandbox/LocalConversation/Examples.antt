-- ===== src/Sandbox/LocalConversation/Examples.antt =====
-- Examples of a conversation: two turns, the first of which is cancelled too late.
use Prim.Native.String.{◌++◌}
use gg_agent_server.Prelude.{ℕ, zero, suc, String, ◌≡◌, refl, false, true, none}
use gg_agent_server.Result.{Error, ok, err, message_id_conflict_error}
use gg_agent_server.Program.{transact, ◌>>=◌, modify, return, demand, read}
use gg_agent_server.Table.{find_where, select_where, update_where, insert_unique}
use gg_agent_server.Sdk.Domain.{MessageReceipt, MessageDeliveryStatus}
use gg_agent_server.Sandbox.Samples.{empty_state}
use gg_agent_server.Sandbox.EventLog.{
  open_conversation, save_conversation_state, append, next_seq, max_seq, load_receipt, save_receipt,
  put_receipt,
}
use gg_agent_server.Sandbox.LocalConversation.{
  Environment, LocalConversation, persist_status, append_event, apply_status, is_running,
}
use gg_agent_server.Sandbox.LocalConversation.Messages.{
  send_message, go_idle, steer, forward, accept, delivered, update_receipt,
}
use gg_agent_server.Sandbox.LocalConversation.Runs.{
  cancel, cancel_run, start_run, finish_run, create, hydrate,
}
use gg_agent_server.Sandbox.LocalConversation.Receipts.{steer-again}
use gg_agent_server.Sandbox.LocalConversation.Steps.{
  Step, Reach, IsPersisted, IsClosed, IsConsistent,
}
use gg_agent_server.Sandbox.LocalConversation.Reached.{reached-IsConsistent, hydrate-reached}
use gg_agent_server.Sandbox.LocalConversation.Cancellation.{Session, Session-cancel}

abbrev names : ℕ → String
names zero = ""
names (suc n) = names n ++ "i"

abbrev env : Environment
env = record {
  key = "c";
  id = "c";
  working_dir = "/workspace";
  agent = record {
    model = "model";
    timeout_seconds = 600;
    command_ack_timeout_seconds = 5;
    cancel_grace_seconds = 5;
  };
  running_backend = true;
  uuid4 = names;
  now = λ n. n;
  str = λ e. "failed";
  code = λ e. "agent_error";
}

abbrev new_conversation : LocalConversation
new_conversation = (create env empty_state 0).1

abbrev asked : LocalConversation
asked = (send_message env "fix it" new_conversation).1

abbrev running : LocalConversation
running = (start_run env asked).1

running-Reach : Reach env running
running-Reach =
    Reach.step (Reach.step (Reach.created empty_state 0) (Step.sent "fix it" new_conversation))
      (Step.started asked)

reached-IsConsistent_example : IsConsistent env running
reached-IsConsistent_example = reached-IsConsistent env running-Reach

hydrate-reached_example :
    (c' : LocalConversation) × (hydrate env running.state 9 ≡ ok (env, (ok tt, c')))
    × (is_running c' ≡ false)
    × IsPersisted env c'
    × IsClosed c'
hydrate-reached_example = hydrate-reached env 9 running-Reach

abbrev receipt : MessageReceipt
receipt = record {
  id = "m";
  content = "stop here";
  status = MessageDeliveryStatus.delivered;
  detail = none;
  created_at = 4;
  updated_at = 7;
}

abbrev steered : LocalConversation
steered = (steer env "m" "stop here" (ok (true, none)) running).1

steers : steer env "m" "stop here" (ok (true, none)) running ≡ (ok receipt, steered)
unfolding steer forward accept delivered update_receipt load_receipt save_receipt put_receipt create
    send_message go_idle start_run persist_status append_event apply_status transact ◌>>=◌ modify
    return demand read find_where select_where update_where insert_unique open_conversation
    save_conversation_state append next_seq max_seq
steers = refl

steer-again_example :
    (receipt.content ≡ "stop here")
    × (steer env "m" "stop here" (err Error.agent_error) steered ≡ (ok receipt, steered))
    × (steer env "m" "go on" (err Error.agent_error) steered
        ≡ (err message_id_conflict_error, steered))
steer-again_example =
    steer-again env "m" "stop here" (ok (true, none)) running (err Error.agent_error) "go on" steers
      refl

-- A cancellation that reaches a turn which finishes all the same.
abbrev stopping : LocalConversation
stopping = (cancel env (ok tt) running).1

abbrev done : LocalConversation
done = (finish_run env (ok tt) stopping).1

abbrev asked_again : LocalConversation
asked_again = (send_message env "now this" done).1

abbrev running_again : LocalConversation
running_again = (start_run env asked_again).1

is_stopping : stopping.cancelling ≡ true
unfolding cancel cancel_run create send_message go_idle start_run persist_status append_event
    apply_status transact ◌>>=◌ modify return demand read find_where select_where update_where
    insert_unique open_conversation save_conversation_state append next_seq max_seq
is_stopping = refl

Session-cancel_example : cancel env (ok tt) running_again ≡ (ok tt, running_again)
Session-cancel_example =
    Session-cancel env (ok tt)
      (Session.next
        (Session.next (Session.next (Session.here stopping) (Step.finished (ok tt) stopping) refl)
          (Step.sent "now this" done) refl)
        (Step.started asked_again) refl)
      is_stopping
