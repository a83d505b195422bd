-- ===== src/Ledger/Publications.antt =====
-- `TaskLedger`: the publication journal.
pub mod Soundness
pub mod Replay
mod Examples
use gg_agent_server.Prelude.{
  ℕ, String, Bool, true, false, ◌&&◌, ◌||◌, Option, none, some, ◌==◌, if◌then◌else◌, is_some,
  coalesce, or_default,
}
use gg_agent_server.Result.{
  ok, key_error, publication_identity_error, assertion_error, require, fetched, ◌>>=◌, ◌>>◌,
}
use gg_agent_server.Table.{find_where, update_where, insert_unique}
use gg_agent_server.Sdk.Execution.{AgentOutcome, CheckOutcome}
use gg_agent_server.Sdk.Publication.{PublicationState, PublicationRecord}
use gg_agent_server.Ledger.Rows.{Ledger}
use gg_agent_server.Ledger.Tasks.{Tx, update_task}
use gg_agent_server.Ledger.Sandboxes.{require_payload}

abbrev pub publishes : String → PublicationRecord → Bool
publishes task_id r = r.task_id == task_id

pub get_publication : String → Ledger → Option PublicationRecord
get_publication task_id l = find_where (publishes task_id) l.publications

-- The arguments of `begin_publication`.
pub record PublicationIntent : Type 0 where
  pub task_id : String
  pub repository : String
  pub task_branch : String
  pub base_ref : String
  pub task_marker : String
  pub commit_sha : Option String
  pub check_outcome : CheckOutcome
  pub agent_outcome : AgentOutcome
  pub state : PublicationState
  pub detail : Option String

abbrev pub same_publication : PublicationIntent → PublicationRecord → Bool
same_publication i r =
    r.repository == i.repository
    && r.task_branch == i.task_branch
    && r.base_ref == i.base_ref
    && r.task_marker == i.task_marker

-- Two commits that are both known are the same.
abbrev pub same_commit : Option String → Option String → Bool
same_commit (some a) (some b) = a == b
same_commit _ _ = true

abbrev pub published_row : PublicationIntent → ℕ → PublicationRecord
published_row i now = record {
  task_id = i.task_id;
  repository = i.repository;
  task_branch = i.task_branch;
  base_ref = i.base_ref;
  task_marker = i.task_marker;
  state = i.state;
  commit_sha = i.commit_sha;
  check_outcome = i.check_outcome;
  agent_outcome = i.agent_outcome;
  pr_number = none;
  pr_url = none;
  pr_draft = none;
  pr_author = none;
  pr_state = none;
  detail = i.detail;
  created_at = now;
  updated_at = now;
}

pub insert_publication : PublicationIntent → ℕ → Tx (PublicationRecord × Bool)
insert_publication i now l = do
  rows ← insert_unique (publishes i.task_id) (published_row i now) l.publications
  let l' = record l { publications = rows }
  row ← fetched assertion_error (get_publication i.task_id l')
  ok ((row, true), l')

pub begin_publication : PublicationIntent → ℕ → Tx (PublicationRecord × Bool)
begin_publication i now l = do
  require_payload i.task_id l
  elim (get_publication i.task_id l) [
    | some existing ↦ do
      require (same_publication i existing) publication_identity_error
      require (same_commit existing.commit_sha i.commit_sha) publication_identity_error
      ok ((existing, false), l)
    | none ↦ insert_publication i now l
  ]

-- The arguments of `update_publication`.
pub record PublicationUpdate : Type 0 where
  pub state : PublicationState
  pub commit_sha : Option String
  pub pr_number : Option ℕ
  pub pr_url : Option String
  pub pr_draft : Option Bool
  pub pr_author : Option String
  pub pr_state : Option String
  pub detail : Option String
  pub check_status : Option String
  pub outcome_detail : Option String
  pub check_outcome : Option CheckOutcome
  pub agent_outcome : Option AgentOutcome

abbrev pub updated_publication : PublicationUpdate → ℕ → PublicationRecord → PublicationRecord
updated_publication u now r = record r {
  state = u.state;
  commit_sha = coalesce u.commit_sha r.commit_sha;
  pr_number = coalesce u.pr_number r.pr_number;
  pr_url = coalesce u.pr_url r.pr_url;
  pr_draft = coalesce u.pr_draft r.pr_draft;
  pr_author = coalesce u.pr_author r.pr_author;
  pr_state = coalesce u.pr_state r.pr_state;
  detail = u.detail;
  check_outcome = or_default u.check_outcome r.check_outcome;
  agent_outcome = or_default u.agent_outcome r.agent_outcome;
  updated_at = now;
}

-- The UPDATE of the task, where a status or an outcome is given.
pub record_task_outcome : PublicationUpdate → String → ℕ → Ledger → Ledger
record_task_outcome u task_id now l =
    if is_some u.check_status || is_some u.outcome_detail
    then update_task task_id
        (λ row. record row {
          check_status = coalesce u.check_status row.check_status;
          outcome_detail = coalesce u.outcome_detail row.outcome_detail;
          updated_at = now;
        })
        l
    else l

pub update_publication : String → PublicationUpdate → ℕ → Tx PublicationRecord
update_publication task_id u now l = do
  current ← fetched key_error (get_publication task_id l)
  let l' = record_task_outcome u task_id now (record l {
    publications = update_where (publishes task_id) (updated_publication u now) l.publications;
  })
  row ← fetched assertion_error (get_publication task_id l')
  ok (row, l')
