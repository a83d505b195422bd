-- ===== src/Sdk/Publication.antt =====
-- packages/gg-sdk/gg/sdk/publication.py
use gg_agent_server.Prelude.{ℕ, String, Bool, Option}
use gg_agent_server.Sdk.Execution.{AgentOutcome, CheckOutcome}

pub data PublicationState : Type 0 where
  pending pushed creating published skipped failed : PublicationState

pub record PublicationRecord : Type 0 where
  pub task_id : String
  pub repository : String
  pub task_branch : String
  pub base_ref : String
  pub task_marker : String
  pub state : PublicationState
  pub commit_sha : Option String
  pub check_outcome : CheckOutcome
  pub agent_outcome : AgentOutcome
  pub pr_number : Option ℕ
  pub pr_url : Option String
  pub pr_draft : Option Bool
  pub pr_author : Option String
  pub pr_state : Option String
  pub detail : Option String
  pub created_at : ℕ
  pub updated_at : ℕ
