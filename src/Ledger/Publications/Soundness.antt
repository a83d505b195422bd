-- ===== src/Ledger/Publications/Soundness.antt =====
-- The publication journal keeps the ledger sound.
use gg_agent_server.Prelude.{
  ℕ, String, ◌≡◌, subst, true, is_some, ◌||◌, Option-cases, Bool-cases, inl, inr, All,
}
use gg_agent_server.Result.{AfterOk, AfterOk-bind, after_ok}
use gg_agent_server.Table.{insert_unique}
use gg_agent_server.Table.Rows.{All-insert, All-update, insert_unique-eq-ok}
use gg_agent_server.Ledger.Rows.{Ledger}
use gg_agent_server.Ledger.Sandboxes.{has_payload}
use gg_agent_server.Ledger.Sandboxes.Soundness.{AfterOk-require_payload}
use gg_agent_server.Ledger.Publications.{
  publishes, get_publication, PublicationIntent, published_row, insert_publication,
  begin_publication, PublicationUpdate, updated_publication, record_task_outcome,
  update_publication,
}
use gg_agent_server.Ledger.Soundness.{IsSound, KeepsSound, with_publications}
use gg_agent_server.Ledger.Soundness.Updates.{keep_all, update_task-IsSound}

insert_publication-IsSound :
    (i : PublicationIntent) (now : ℕ) (l : Ledger)
    → has_payload i.task_id l ≡ true
    → IsSound l
    → AfterOk IsSound (insert_publication i now l)
unfolding insert_publication
insert_publication-IsSound i now l payload h =
    AfterOk-bind (insert_unique (publishes i.task_id) (published_row i now) l.publications) _
      λ rows inserted.
        let (_, e) =
          insert_unique-eq-ok (publishes i.task_id) (published_row i now) l.publications inserted in
        let sound = with_publications h rows (
          subst (All (λ r. has_payload r.task_id l ≡ true)) e (
            All-insert (λ r. has_payload r.task_id l ≡ true) (published_row i now) l.publications
              payload h.publications)) in
        search (after_ok, sound)

pub begin_publication-IsSound :
    (i : PublicationIntent) (now : ℕ) → KeepsSound (begin_publication i now)
unfolding begin_publication
begin_publication-IsSound i now l h = AfterOk-require_payload i.task_id l _ λ payload.
    elim (Option-cases (get_publication i.task_id l)) [
      | inl e ↦ rw e (insert_publication-IsSound i now l payload h)
      | inr (row, e) ↦ rw e (search (after_ok, h))
    ]

record_task_outcome-IsSound :
    (u : PublicationUpdate) (id : String) (now : ℕ) (l : Ledger)
    → IsSound l
    → IsSound (record_task_outcome u id now l)
unfolding record_task_outcome
record_task_outcome-IsSound u id now l h =
    elim (Bool-cases (is_some u.check_status || is_some u.outcome_detail)) [
      | inl e ↦ rw e (update_task-IsSound id _ l keep_all h)
      | inr e ↦ rw e h
    ]

pub update_publication-IsSound :
    (id : String) (u : PublicationUpdate) (now : ℕ) → KeepsSound (update_publication id u now)
unfolding update_publication
update_publication-IsSound id u now l h =
    let kept = with_publications h _ (
      All-update _ (publishes id) (updated_publication u now) l.publications (λ r _ p. p)
        h.publications) in
    let sound = record_task_outcome-IsSound u id now _ kept in search (after_ok, sound)
