-- ===== src/Ledger/Supervisions/Soundness.antt =====
-- The identities of executions keep the ledger sound.
use gg_agent_server.Prelude.{ℕ, String, ◌≡◌, subst, true, Option-cases, inl, inr, All}
use gg_agent_server.Result.{AfterOk, AfterOk-bind, AfterOk-elim, returned, after_ok}
use gg_agent_server.Table.{find_where, insert_unique}
use gg_agent_server.Table.Rows.{All-insert, All-update, insert_unique-eq-ok}
use gg_agent_server.Ledger.Rows.{SupervisionRecord, Ledger}
use gg_agent_server.Ledger.Sandboxes.{has_payload}
use gg_agent_server.Ledger.Sandboxes.Soundness.{AfterOk-require_payload}
use gg_agent_server.Ledger.Supervisions.{
  supervises, get_supervision, Startup, is_bound, started_row, insert_supervision,
  begin_supervision, SupervisionUpdate, updated_supervision, update_supervision, cancel_request,
  request_task_cancel,
}
use gg_agent_server.Ledger.Soundness.{IsSound, KeepsSound, with_supervisions}

insert_supervision-IsSound :
    (s : Startup) (now : ℕ) (l : Ledger)
    → has_payload s.task_id l ≡ true
    → IsSound l
    → AfterOk IsSound (insert_supervision s now l)
unfolding insert_supervision
insert_supervision-IsSound s now l payload h =
    AfterOk-bind (insert_unique (is_bound s) (started_row s now) l.supervisions) _ λ rows inserted.
      let (_, e) = insert_unique-eq-ok (is_bound s) (started_row s now) l.supervisions inserted in
      let sound = with_supervisions h rows (
        subst (All (λ r. has_payload r.task_id l ≡ true)) e (
          All-insert (λ r. has_payload r.task_id l ≡ true) (started_row s now) l.supervisions
            payload h.supervisions)) in
      search (after_ok, sound)

pub begin_supervision-IsSound : (s : Startup) (now : ℕ) → KeepsSound (begin_supervision s now)
unfolding begin_supervision
begin_supervision-IsSound s now l h = AfterOk-require_payload s.task_id l _ λ payload.
    elim (Option-cases (find_where (is_bound s) l.supervisions)) [
      | inl e ↦ rw e (insert_supervision-IsSound s now l payload h)
      | inr (row, e) ↦ rw e (search (after_ok, h))
    ]

pub update_supervision-IsSound :
    (id : String) (u : SupervisionUpdate) (now : ℕ) → KeepsSound (update_supervision id u now)
unfolding update_supervision
update_supervision-IsSound id u now l h =
    let sound = λ (current : SupervisionRecord). with_supervisions h _ (
      All-update _ (supervises id) (updated_supervision u current now) l.supervisions (λ r _ p. p)
        h.supervisions) in
    search (after_ok, sound)

pub request_task_cancel-IsSound : (id : String) (now : ℕ) → KeepsSound (request_task_cancel id now)
unfolding request_task_cancel
request_task_cancel-IsSound id now l h = elim (Option-cases (get_supervision id l)) [
  | inl e ↦ rw (e, request_task_cancel) (returned h)
  | inr (row, e) ↦
      rw (e, request_task_cancel)
        (AfterOk-bind (update_supervision id cancel_request now l) _ λ (row', l') done.
          returned (AfterOk-elim (update_supervision-IsSound id cancel_request now l h) done))
]
