-- ===== src/Ledger/Steps.antt =====
-- The ledger over any sequence of transactions: a step is one method of `TaskLedger` that returned.
-- A method that raised is no step, since its transaction is rolled back.
mod Examples
use gg_agent_server.Prelude.{ℕ, String, ◌≡◌, refl, Bool, Option, none, List, []}
use gg_agent_server.Result.{Result, ok, AfterOk-elim}
use gg_agent_server.Sdk.Tasks.{TaskState, TaskRecord}
use gg_agent_server.Sdk.Domain.{MessageReceipt, Event, EventCodec}
use gg_agent_server.Sdk.Execution.{TaskResultManifest}
use gg_agent_server.Sdk.Publication.{PublicationRecord}
use gg_agent_server.Ledger.Rows.{
  ReservationPhase, ReservationRecord, SandboxProviderState, SandboxCreationRecord,
  SupervisionRecord, TaskResultArchive, Ledger,
}
use gg_agent_server.Ledger.Tasks
use gg_agent_server.Ledger.Tasks.{Submission}
use gg_agent_server.Ledger.Tasks.Soundness.{IsFreshId, submit-IsSound, record_base_sha-IsSound}
use gg_agent_server.Ledger.Reservations
use gg_agent_server.Ledger.Reservations.Soundness.{
  reserve_next-IsSound, update_reservation-IsSound, release_reservation-IsSound,
}
use gg_agent_server.Ledger.Lifecycle
use gg_agent_server.Ledger.Lifecycle.Soundness.{
  mark_sandbox_lost-IsSound, settle_successful_tasks-IsSound, cancel_queued_task-IsSound,
  finish_task-IsSound, queue_workspace_message-IsSound, touch_workspace-IsSound,
  try_mark_sleeping-IsSound, expire_workspace-IsSound,
}
use gg_agent_server.Ledger.Sandboxes
use gg_agent_server.Ledger.Sandboxes.{SandboxIntent}
use gg_agent_server.Ledger.Sandboxes.Soundness.{
  begin_sandbox_creation-IsSound, set_sandbox_credential_version-IsSound,
  update_sandbox_creation-IsSound, reset_sandbox_for_wake-IsSound,
}
use gg_agent_server.Ledger.Publications
use gg_agent_server.Ledger.Publications.{PublicationIntent, PublicationUpdate}
use gg_agent_server.Ledger.Publications.Soundness.{
  begin_publication-IsSound, update_publication-IsSound,
}
use gg_agent_server.Ledger.Supervisions
use gg_agent_server.Ledger.Supervisions.{Startup, SupervisionUpdate}
use gg_agent_server.Ledger.Supervisions.Soundness.{
  begin_supervision-IsSound, update_supervision-IsSound, request_task_cancel-IsSound,
}
use gg_agent_server.Ledger.Messages
use gg_agent_server.Ledger.Messages.Soundness.{save_task_message_receipt-IsSound}
use gg_agent_server.Ledger.Results
use gg_agent_server.Ledger.Results.Soundness.{archive_task_result-IsSound}
use gg_agent_server.Ledger.Events
use gg_agent_server.Ledger.Events.Soundness.{
  insert_task_event-IsSound, copy_task_event_page-IsSound,
}
use gg_agent_server.Ledger.Retention
use gg_agent_server.Ledger.Retention.Soundness.{
  expire_terminal_payloads-IsSound, purge_expired_tombstones-IsSound,
}
use gg_agent_server.Ledger.Soundness.{IsSound}
use gg_agent_server.Ledger.Samples.{empty_ledger}

pub data Step (l l' : Ledger) : Type 0 where
  submit :
      (s : Submission) (now : ℕ) (id : String) {r : TaskRecord × Bool}
      → IsFreshId id l
      → Tasks.submit s now id l ≡ ok (r, l')
      → Step l l'
  record_base_sha :
      (id sha : String) (now : ℕ) {r : TaskRecord}
      → Tasks.record_base_sha id sha now l ≡ ok (r, l')
      → Step l l'
  reserve_next :
      (capacity now : ℕ) {r : Option TaskRecord}
      → Reservations.reserve_next capacity now l ≡ ok (r, l')
      → Step l l'
  update_reservation :
      (id : String) (phase : ReservationPhase) (condition : Option String)
      (state : Option TaskState) (now : ℕ) {r : ReservationRecord}
      → Reservations.update_reservation id phase condition state now l ≡ ok (r, l')
      → Step l l'
  release_reservation :
      (id status : String) (now : ℕ) {r : Unit {0}}
      → Reservations.release_reservation id status now l ≡ ok (r, l')
      → Step l l'
  mark_sandbox_lost :
      (id detail : String) (now : ℕ) {r : Unit {0}}
      → Lifecycle.mark_sandbox_lost id detail now l ≡ ok (r, l')
      → Step l l'
  settle_successful_tasks :
      (now : ℕ) {r : Unit {0}} → Lifecycle.settle_successful_tasks now l ≡ ok (r, l') → Step l l'
  cancel_queued_task :
      (id : String) (now : ℕ) {r : Option TaskRecord}
      → Lifecycle.cancel_queued_task id now l ≡ ok (r, l')
      → Step l l'
  finish_task :
      (id : String) (state : TaskState) (detail check : Option String) (now : ℕ)
      {r : Result TaskRecord}
      → Lifecycle.finish_task id state detail check now l ≡ ok (r, l')
      → Step l l'
  queue_workspace_message :
      (id : String) (now : ℕ) {r : Unit {0}}
      → Lifecycle.queue_workspace_message id now l ≡ ok (r, l')
      → Step l l'
  touch_workspace :
      (id : String) (now activity : ℕ) {r : Unit {0}}
      → Lifecycle.touch_workspace id now activity l ≡ ok (r, l')
      → Step l l'
  try_mark_sleeping :
      (id : String) (now : ℕ) {r : Bool}
      → Lifecycle.try_mark_sleeping id now l ≡ ok (r, l')
      → Step l l'
  expire_workspace :
      (id : String) {r : Unit {0}} → Lifecycle.expire_workspace id l ≡ ok (r, l') → Step l l'
  begin_sandbox_creation :
      (i : SandboxIntent) (now : ℕ) {r : SandboxCreationRecord × Bool}
      → Sandboxes.begin_sandbox_creation i now l ≡ ok (r, l')
      → Step l l'
  set_sandbox_credential_version :
      (id : String) (version : Option ℕ) {r : Result SandboxCreationRecord}
      → Sandboxes.set_sandbox_credential_version id version l ≡ ok (r, l')
      → Step l l'
  update_sandbox_creation :
      (id : String) (provider_id : Option String) (state : SandboxProviderState)
      (detail : Option String) (now : ℕ) {r : SandboxCreationRecord} {changes : ℕ}
      → Sandboxes.update_sandbox_creation id provider_id state detail now l ≡ ok (r, l', changes)
      → Step l l'
  reset_sandbox_for_wake :
      (id : String) (now : ℕ) {r : Unit {0}}
      → Sandboxes.reset_sandbox_for_wake id now l ≡ ok (r, l')
      → Step l l'
  begin_publication :
      (i : PublicationIntent) (now : ℕ) {r : PublicationRecord × Bool}
      → Publications.begin_publication i now l ≡ ok (r, l')
      → Step l l'
  update_publication :
      (id : String) (u : PublicationUpdate) (now : ℕ) {r : PublicationRecord}
      → Publications.update_publication id u now l ≡ ok (r, l')
      → Step l l'
  begin_supervision :
      (s : Startup) (now : ℕ) {r : SupervisionRecord × Bool}
      → Supervisions.begin_supervision s now l ≡ ok (r, l')
      → Step l l'
  update_supervision :
      (id : String) (u : SupervisionUpdate) (now : ℕ) {r : SupervisionRecord}
      → Supervisions.update_supervision id u now l ≡ ok (r, l')
      → Step l l'
  request_task_cancel :
      (id : String) (now : ℕ) {r : Option SupervisionRecord}
      → Supervisions.request_task_cancel id now l ≡ ok (r, l')
      → Step l l'
  save_task_message_receipt :
      (id : String) (receipt : MessageReceipt) {r : Unit {0}}
      → Messages.save_task_message_receipt id receipt l ≡ ok (r, l')
      → Step l l'
  archive_task_result :
      (id : String) (execution_id : Option String) (manifest : Option TaskResultManifest)
      (complete : Bool) (detail : Option String) (now : ℕ) {r : TaskResultArchive}
      → Results.archive_task_result id execution_id manifest complete detail now l ≡ ok (r, l')
      → Step l l'
  insert_task_event :
      (id source : String) (seq : ℕ) (payload : String) (now : ℕ) {r : Option ℕ}
      → Events.insert_task_event id source seq payload now l ≡ ok (r, l')
      → Step l l'
  copy_task_event_page :
      (codec : EventCodec) (drawn : Event → String × ℕ) (id source : String)
      (max_log_bytes : Option ℕ) (now : Event → ℕ) (events : List Event) {r : List (ℕ × Event)}
      → Events.copy_task_event_page codec drawn id source max_log_bytes now events l ≡ ok (r, l')
      → Step l l'
  expire_terminal_payloads :
      (before retention now : ℕ) {r : ℕ}
      → Retention.expire_terminal_payloads before retention now l ≡ ok (r, l')
      → Step l l'
  purge_expired_tombstones :
      (before : ℕ) {r : ℕ} → Retention.purge_expired_tombstones before l ≡ ok (r, l') → Step l l'

pub data Reach (l : Ledger) : Ledger → Type 0 where
  here : Reach l l
  step : {m n : Ledger} → Reach l m → Step m n → Reach l n

Step-IsSound : {l l' : Ledger} → Step l l' → IsSound l → IsSound l'
Step-IsSound {l} (submit s now id fresh e) h = AfterOk-elim (submit-IsSound s now id l fresh h) e
Step-IsSound {l} (record_base_sha id sha now e) h =
    AfterOk-elim (record_base_sha-IsSound id sha now l h) e
Step-IsSound {l} (reserve_next capacity now e) h =
    AfterOk-elim (reserve_next-IsSound capacity now l h) e
Step-IsSound {l} (update_reservation id phase condition state now e) h =
    AfterOk-elim (update_reservation-IsSound id phase condition state now l h) e
Step-IsSound {l} (release_reservation id status now e) h =
    AfterOk-elim (release_reservation-IsSound id status now l h) e
Step-IsSound {l} (mark_sandbox_lost id detail now e) h =
    AfterOk-elim (mark_sandbox_lost-IsSound id detail now l h) e
Step-IsSound {l} (settle_successful_tasks now e) h =
    AfterOk-elim (settle_successful_tasks-IsSound now l h) e
Step-IsSound {l} (cancel_queued_task id now e) h =
    AfterOk-elim (cancel_queued_task-IsSound id now l h) e
Step-IsSound {l} (finish_task id state detail check now e) h =
    AfterOk-elim (finish_task-IsSound id state detail check now l h) e
Step-IsSound {l} (queue_workspace_message id now e) h =
    AfterOk-elim (queue_workspace_message-IsSound id now l h) e
Step-IsSound {l} (touch_workspace id now activity e) h =
    AfterOk-elim (touch_workspace-IsSound id now activity l h) e
Step-IsSound {l} (try_mark_sleeping id now e) h =
    AfterOk-elim (try_mark_sleeping-IsSound id now l h) e
Step-IsSound {l} (expire_workspace id e) h = AfterOk-elim (expire_workspace-IsSound id l h) e
Step-IsSound {l} (begin_sandbox_creation i now e) h =
    AfterOk-elim (begin_sandbox_creation-IsSound i now l h) e
Step-IsSound {l} (set_sandbox_credential_version id version e) h =
    AfterOk-elim (set_sandbox_credential_version-IsSound id version l h) e
Step-IsSound {l} (update_sandbox_creation id provider_id state detail now e) h =
    update_sandbox_creation-IsSound id provider_id state detail now l h e
Step-IsSound {l} (reset_sandbox_for_wake id now e) h =
    AfterOk-elim (reset_sandbox_for_wake-IsSound id now l h) e
Step-IsSound {l} (begin_publication i now e) h =
    AfterOk-elim (begin_publication-IsSound i now l h) e
Step-IsSound {l} (update_publication id u now e) h =
    AfterOk-elim (update_publication-IsSound id u now l h) e
Step-IsSound {l} (begin_supervision s now e) h =
    AfterOk-elim (begin_supervision-IsSound s now l h) e
Step-IsSound {l} (update_supervision id u now e) h =
    AfterOk-elim (update_supervision-IsSound id u now l h) e
Step-IsSound {l} (request_task_cancel id now e) h =
    AfterOk-elim (request_task_cancel-IsSound id now l h) e
Step-IsSound {l} (save_task_message_receipt id receipt e) h =
    AfterOk-elim (save_task_message_receipt-IsSound id receipt l h) e
Step-IsSound {l} (archive_task_result id execution_id manifest complete detail now e) h =
    AfterOk-elim (archive_task_result-IsSound id execution_id manifest complete detail now l h) e
Step-IsSound {l} (insert_task_event id source seq payload now e) h =
    AfterOk-elim (insert_task_event-IsSound id source seq payload now l h) e
Step-IsSound {l} (copy_task_event_page codec drawn id source max_log_bytes now events e) h =
    AfterOk-elim (copy_task_event_page-IsSound codec drawn id source max_log_bytes now events l h) e
Step-IsSound {l} (expire_terminal_payloads before retention now e) h =
    AfterOk-elim (expire_terminal_payloads-IsSound before retention now l h) e
Step-IsSound {l} (purge_expired_tombstones before e) h =
    AfterOk-elim (purge_expired_tombstones-IsSound before l h) e

Reach-IsSound : {l l' : Ledger} → Reach l l' → IsSound l → IsSound l'
Reach-IsSound here h = h
Reach-IsSound (step r s) h = Step-IsSound s (Reach-IsSound r h)

empty-IsSound : IsSound empty_ledger
empty-IsSound = record {
  tasks_distinct = tt;
  task_seqs = tt;
  retired_seqs = tt;
  unexpired = tt;
  expired = tt;
  reservations_distinct = tt;
  reserved = tt;
  creations = tt;
  supervisions = tt;
  publications = tt;
  receipts = tt;
  copies = tt;
  results = tt;
}

-- After any sequence of transactions on a new database, in which every identifier that a submission
-- draws is fresh, the ledger is sound: tasks differ in identifier, number and owner's key, a
-- reservation belongs to a task, the rows that hold payload belong to tasks whose payload has not
-- expired, and the key of every expired task is kept under the task's identifier.
pub reached-IsSound : {l : Ledger} → Reach empty_ledger l → IsSound l
reached-IsSound r = Reach-IsSound r empty-IsSound
