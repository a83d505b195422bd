-- ===== src/Ledger/Supervisions.antt =====
-- `TaskLedger`: the identity of a task's execution in its sandbox.
pub mod Soundness
pub mod Replay
mod Examples
use gg_agent_server.Prelude.{
  ℕ, String, Bool, true, false, not, ◌&&◌, ◌||◌, Option, none, some, ◌==◌, if◌then◌else◌, is_some,
  coalesce, or_default,
}
use gg_agent_server.Result.{
  ok, key_error, integrity_error, supervision_identity_error, assertion_error, require, fetched,
  ◌>>=◌, ◌>>◌,
}
use gg_agent_server.Table.{find_where, update_where, insert_unique}
use gg_agent_server.Ledger.Rows.{SupervisionRecord, Ledger}
use gg_agent_server.Ledger.Tasks.{Tx}
use gg_agent_server.Ledger.Sandboxes.{require_payload}

abbrev pub supervises : String → SupervisionRecord → Bool
supervises task_id r = r.task_id == task_id

pub get_supervision : String → Ledger → Option SupervisionRecord
get_supervision task_id l = find_where (supervises task_id) l.supervisions

-- The arguments of `begin_supervision`.
pub record Startup : Type 0 where
  pub task_id : String
  pub execution_id : String
  pub task_branch : String
  pub start_key : String
  pub conversation_id : Option String

-- WHERE task_id = ? OR start_key = ?; also the two unique keys of the table
abbrev pub is_bound : Startup → SupervisionRecord → Bool
is_bound s r = r.task_id == s.task_id || r.start_key == s.start_key

abbrev pub same_startup : Startup → SupervisionRecord → Bool
same_startup s r =
    r.task_id == s.task_id
    && r.start_key == s.start_key
    && r.execution_id == s.execution_id
    && r.task_branch == s.task_branch

abbrev pub started_row : Startup → ℕ → SupervisionRecord
started_row s now = record {
  task_id = s.task_id;
  execution_id = s.execution_id;
  task_branch = s.task_branch;
  start_key = s.start_key;
  conversation_id = s.conversation_id;
  cancel_requested = false;
  tail_gap_possible = false;
  created_at = now;
  updated_at = now;
}

pub insert_supervision : Startup → ℕ → Tx (SupervisionRecord × Bool)
insert_supervision s now l = do
  rows ← insert_unique (is_bound s) (started_row s now) l.supervisions
  let l' = record l { supervisions = rows }
  row ← fetched assertion_error (get_supervision s.task_id l')
  ok ((row, true), l')

pub begin_supervision : Startup → ℕ → Tx (SupervisionRecord × Bool)
begin_supervision s now l = do
  require_payload s.task_id l
  elim (find_where (is_bound s) l.supervisions) [
    | some existing ↦ do
      require (same_startup s existing) supervision_identity_error
      ok ((existing, false), l)
    | none ↦ insert_supervision s now l
  ]

-- The arguments of `update_supervision`.
pub record SupervisionUpdate : Type 0 where
  pub execution_id : Option String
  pub start_key : Option String
  pub conversation_id : Option String
  pub cancel_requested : Option Bool
  pub tail_gap_possible : Option Bool

-- `given or current` on a text: an empty text counts as absent
abbrev pub or_text : Option String → String → String
or_text none current = current
or_text (some s) current = if s == "" then current else s

abbrev pub updated_supervision :
    SupervisionUpdate → SupervisionRecord → ℕ → SupervisionRecord → SupervisionRecord
updated_supervision u current now r = record r {
  execution_id = or_text u.execution_id current.execution_id;
  start_key = or_text u.start_key current.start_key;
  conversation_id = coalesce u.conversation_id current.conversation_id;
  cancel_requested = or_default u.cancel_requested current.cancel_requested;
  tail_gap_possible = or_default u.tail_gap_possible current.tail_gap_possible;
  updated_at = now;
}

-- Another task's row that has the new start key: the UPDATE would break UNIQUE(start_key).
abbrev pub takes_key : String → String → SupervisionRecord → Bool
takes_key task_id key r = not (supervises task_id r) && r.start_key == key

pub update_supervision : String → SupervisionUpdate → ℕ → Tx SupervisionRecord
update_supervision task_id u now l = do
  current ← fetched key_error (get_supervision task_id l)
  require
      (not (
        is_some
          (find_where (takes_key task_id (or_text u.start_key current.start_key)) l.supervisions)))
      integrity_error
  let l' = record l {
    supervisions =
        update_where (supervises task_id) (updated_supervision u current now) l.supervisions;
  }
  row ← fetched assertion_error (get_supervision task_id l')
  ok (row, l')

abbrev pub cancel_request : SupervisionUpdate
cancel_request = record {
  execution_id = none;
  start_key = none;
  conversation_id = none;
  cancel_requested = some true;
  tail_gap_possible = none;
}

-- The two calls are two transactions; `none` writes nothing.
pub request_task_cancel : String → ℕ → Tx (Option SupervisionRecord)
request_task_cancel task_id now l = elim (get_supervision task_id l) [
  | none ↦ ok (none, l)
  | some supervision ↦ do
    (row, l') ← update_supervision task_id cancel_request now l
    ok (some row, l')
]
