-- ===== src/Ledger/Sandboxes.antt =====
-- `TaskLedger`: the creation intents of sandboxes, and the payload guard that the writers share.
pub mod Soundness
pub mod Replay
pub mod Unchanged
pub mod Polled
mod Examples
use gg_agent_server.Prelude.{
  false, ℕ, String, Bool, true, false, not, ◌&&◌, ◌||◌, Option, none, some, ◌==◌, coalesce,
  same_text,
}
use gg_agent_server.Result.{
  Result, ok, key_error, runtime_error, assertion_error, require, fetched, ◌>>=◌, ◌>>◌,
}
use gg_agent_server.Table.{find_where, update_where, count_where, insert_unique}
use gg_agent_server.Ledger.Rows.{TaskRow, SandboxProviderState, SandboxCreationRecord, Ledger}
use gg_agent_server.Ledger.Tasks.{Tx, find_task}

-- A task that exists and whose payload has not expired.
abbrev pub payload_of : Option TaskRow → Bool
payload_of none = false
payload_of (some row) = not row.payload_expired

abbrev pub has_payload : String → Ledger → Bool
has_payload task_id l = payload_of (find_task task_id l)

-- `_require_payload`
pub require_payload : String → Ledger → Result (Unit {0})
require_payload task_id l = require (has_payload task_id l) key_error

abbrev pub creates : String → SandboxCreationRecord → Bool
creates task_id r = r.task_id == task_id

pub get_sandbox_creation : String → Ledger → Option SandboxCreationRecord
get_sandbox_creation task_id l = find_where (creates task_id) l.sandbox_creations

-- The arguments of `begin_sandbox_creation`.
pub record SandboxIntent : Type 0 where
  pub task_id : String
  pub deployment : String
  pub sandbox_name : String
  pub tags_json : String
  pub session_api_key : String
  pub credential_version : Option ℕ

abbrev pub same_intent : SandboxIntent → SandboxCreationRecord → Bool
same_intent i r =
    r.deployment == i.deployment
    && r.sandbox_name == i.sandbox_name
    && r.tags_json == i.tags_json
    && r.session_api_key == i.session_api_key

abbrev pub intended_row : SandboxIntent → ℕ → SandboxCreationRecord
intended_row i now = record {
  task_id = i.task_id;
  deployment = i.deployment;
  sandbox_name = i.sandbox_name;
  tags_json = i.tags_json;
  session_api_key = i.session_api_key;
  credential_version = i.credential_version;
  provider_id = none;
  provider_state = SandboxProviderState.creating;
  detail = none;
  created_at = now;
  updated_at = now;
}

-- The primary key, and UNIQUE(deployment, sandbox_name).
abbrev pub clashes_creation : SandboxIntent → SandboxCreationRecord → Bool
clashes_creation i r =
    creates i.task_id r || r.deployment == i.deployment && r.sandbox_name == i.sandbox_name

pub insert_creation : SandboxIntent → ℕ → Tx (SandboxCreationRecord × Bool)
insert_creation i now l = do
  rows ← insert_unique (clashes_creation i) (intended_row i now) l.sandbox_creations
  let l' = record l { sandbox_creations = rows }
  row ← fetched assertion_error (get_sandbox_creation i.task_id l')
  ok ((row, true), l')

pub begin_sandbox_creation : SandboxIntent → ℕ → Tx (SandboxCreationRecord × Bool)
begin_sandbox_creation i now l = do
  require_payload i.task_id l
  elim (get_sandbox_creation i.task_id l) [
    | some existing ↦ do require (same_intent i existing) runtime_error; ok ((existing, false), l)
    | none ↦ insert_creation i now l
  ]

abbrev pub update_creation :
    (SandboxCreationRecord → Bool)
    → (SandboxCreationRecord → SandboxCreationRecord)
    → Ledger
    → Ledger
update_creation test change l = record l {
  sandbox_creations = update_where test change l.sandbox_creations;
}

-- The KeyError comes after the commit: it is a result of the transaction.
pub set_sandbox_credential_version : String → Option ℕ → Tx (Result SandboxCreationRecord)
set_sandbox_credential_version task_id version l =
    let l' = update_creation (creates task_id) (λ r. record r { credential_version = version }) l in
    ok (fetched key_error (get_sandbox_creation task_id l'), l')

abbrev pub same_provider_state : SandboxProviderState → SandboxProviderState → Bool
same_provider_state SandboxProviderState.creating SandboxProviderState.creating = true
same_provider_state SandboxProviderState.running SandboxProviderState.running = true
same_provider_state SandboxProviderState.stopped SandboxProviderState.stopped = true
same_provider_state SandboxProviderState.unknown SandboxProviderState.unknown = true
same_provider_state _ _ = false

-- The row differs from what the UPDATE would write.
abbrev pub is_outdated :
    String → Option String → SandboxProviderState → Option String → SandboxCreationRecord → Bool
is_outdated task_id provider_id provider_state detail r =
    creates task_id r
    && (not (same_text r.provider_id (coalesce provider_id r.provider_id))
        || not (same_provider_state r.provider_state provider_state)
        || not (same_text r.detail detail))

-- The UPDATE of the rows that differ.
abbrev pub provider_updated :
    String → Option String → SandboxProviderState → Option String → ℕ → Ledger → Ledger
provider_updated task_id provider_id provider_state detail now l =
    update_creation (is_outdated task_id provider_id provider_state detail)
      (λ r. record r {
        provider_id = coalesce provider_id r.provider_id;
        provider_state = provider_state;
        detail = detail;
        updated_at = now;
      })
      l

-- The result, the new ledger and `total_changes`, which the transaction reads: an UPDATE that
-- changes no row leaves the revision alone. Where the row is missing, nothing has changed and nothing
-- is left, whether the KeyError comes before the commit or after it.
pub update_sandbox_creation :
    String
    → Option String
    → SandboxProviderState
    → Option String
    → ℕ
    → Ledger
    → Result (SandboxCreationRecord × Ledger × ℕ)
update_sandbox_creation task_id provider_id provider_state detail now l =
    let l' = provider_updated task_id provider_id provider_state detail now l in
    do
      row ← fetched key_error (get_sandbox_creation task_id l')
      ok (
        row,
        l',
        count_where (is_outdated task_id provider_id provider_state detail) l.sandbox_creations,
      )

abbrev pub is_stopped : String → SandboxCreationRecord → Bool
is_stopped task_id r =
    creates task_id r && same_provider_state r.provider_state SandboxProviderState.stopped

pub reset_sandbox_for_wake : String → ℕ → Tx (Unit {0})
reset_sandbox_for_wake task_id now l = ok (
  tt,
  update_creation (is_stopped task_id)
      (λ r. record r {
        provider_id = none;
        provider_state = SandboxProviderState.creating;
        detail = none;
        updated_at = now;
      })
      l,
)
