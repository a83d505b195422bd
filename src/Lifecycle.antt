-- ===== src/Lifecycle.antt =====
-- `ModalSandboxLifecycle` of backend/gg/runtime/modal_sandbox.py over the ledger. The provider's answers
-- to one call of `_reconnect` are an argument, and an error among them is an Exception, not a
-- cancellation; a handle is its `object_id`.
pub mod Confirmed
pub mod Creation
pub mod Credentials
pub mod Health
pub mod Shown
mod Examples
use Prim.Native.String.{slice, ◌++◌}
use gg_agent_server.Prelude.{
  ℕ, suc, String, Bool, true, false, Option, none, some, List, [], ◌∷◌, ℤ, if◌then◌else◌, is_some,
  ◌&&◌, ◌==◌,
}
use gg_agent_server.Result.{
  Result, Error, ok, err, ambiguous_provider_state_error, conflicting_sandboxes_error,
  modal_lifecycle_error, sandbox_not_found_error, fetched,
}
use gg_agent_server.Program.{Program, return, raise, transact, read, catch, ◌>>=◌, ◌>>◌}
use gg_agent_server.Ledger.Rows.{Ledger, SandboxCreationRecord, SandboxProviderState}
use gg_agent_server.Ledger.Sandboxes.{
  get_sandbox_creation, update_sandbox_creation, same_provider_state,
}

pub record SandboxSnapshot : Type 0 where
  pub task_id : String
  pub provider_id : Option String
  pub state : SandboxProviderState
  pub detail : Option String

abbrev pub snapshot : SandboxCreationRecord → SandboxSnapshot
snapshot r = record {
  task_id = r.task_id;
  provider_id = r.provider_id;
  state = r.provider_state;
  detail = r.detail;
}

-- The ledger, and the readings of the clock.
pub record World : Type 0 where
  pub ledger : Ledger
  pub readings : ℕ

-- The clock, and `type(exc).__name__` and the exit codes as texts.
pub record Texts : Type 0 where
  pub now : ℕ → ℕ
  pub type_name : Error → String
  pub shown : ℤ → String

-- What `from_id` answers: a handle, that there is no such sandbox, or another exception.
pub data Lookup : Type 0 where
  found missing : Lookup
  failed : Error → Lookup

-- The provider's answers to one `_reconnect`.
pub record Answers : Type 0 where
  pub from_id : Lookup
  pub find : Result (List String)
  pub poll : Result (Option ℤ)

abbrev pub without_changes :
    World → Result (SandboxCreationRecord × Ledger × ℕ) → Result (SandboxCreationRecord × World)
without_changes w (ok (row, l, changes)) =
    ok (row, record { ledger = l; readings = suc w.readings })
without_changes w (err e) = err e

-- `SandboxConnection`: its `base_url` is encrypted.
unfoldable pub connection : String → String → String → Program World (String × String × String)
connection url token session_api_key =
    if slice url 0 8 == "https://"
    then return (url, token, session_api_key)
    else raise modal_lifecycle_error

module _ (texts : Texts) where
  unfoldable pub update :
      String
      → Option String
      → SandboxProviderState
      → Option String
      → Program World SandboxCreationRecord
  update task_id provider_id state detail = transact (λ w.
      without_changes w
        (update_sandbox_creation task_id provider_id state detail (texts.now w.readings) w.ledger))

  -- The snapshot of what is stored, and no handle or one.
  unfoldable pub report :
      String
      → SandboxProviderState
      → Option String
      → Option String
      → Program World (SandboxSnapshot × Option String)
  report task_id state detail handle =
      update task_id none state detail >>= λ updated. return (snapshot updated, handle)

  abbrev poll_detail : ℤ → Option String
  poll_detail code = some ("provider exit code " ++ texts.shown code)

  unfoldable pub polled :
      String → String → Result (Option ℤ) → Program World (SandboxSnapshot × Option String)
  polled task_id handle (err e) =
      report task_id SandboxProviderState.unknown
        (some ("provider status failed: " ++ texts.type_name e)) (some handle)
  polled task_id handle (ok none) = report task_id SandboxProviderState.running none (some handle)
  polled task_id handle (ok (some code)) =
      report task_id SandboxProviderState.stopped (poll_detail code) (some handle)

  unfoldable pub looked_up :
      String → String → Answers → Lookup → Program World (SandboxSnapshot × Option String)
  looked_up task_id provider_id answers Lookup.found = polled task_id provider_id answers.poll
  looked_up task_id provider_id answers Lookup.missing =
      report task_id SandboxProviderState.stopped (some "provider confirmed sandbox absent") none
  looked_up task_id provider_id answers (Lookup.failed e) =
      report task_id SandboxProviderState.unknown
        (some ("provider lookup failed: " ++ texts.type_name e)) none

  unfoldable pub discovered :
      String → Answers → Result (List String) → Program World (SandboxSnapshot × Option String)
  discovered task_id answers (err e) =
      report task_id SandboxProviderState.unknown
        (some ("identity discovery failed: " ++ texts.type_name e)) none
  discovered task_id answers (ok []) =
      report task_id SandboxProviderState.stopped
        (some "provider confirmed deterministic identity absent") none
  discovered task_id answers (ok (handle ∷ [])) =
      update task_id (some handle) SandboxProviderState.creating none >>= λ creation.
      polled creation.task_id handle answers.poll
  discovered task_id answers (ok (handle ∷ other ∷ more)) =
      update task_id none SandboxProviderState.unknown
        (some "multiple provider sandboxes match deterministic identity")
      >>= λ updated. raise conflicting_sandboxes_error

  abbrev pub located :
      String → Answers → Option String → Program World (SandboxSnapshot × Option String)
  located task_id answers none = discovered task_id answers answers.find
  located task_id answers (some id) = looked_up task_id id answers answers.from_id

  unfoldable pub reconnect :
      Answers → SandboxCreationRecord → Program World (SandboxSnapshot × Option String)
  reconnect answers creation = located creation.task_id answers creation.provider_id

  -- `_record`
  unfoldable pub creation_of : String → Program World SandboxCreationRecord
  creation_of task_id =
      read (λ w. fetched sandbox_not_found_error (get_sandbox_creation task_id w.ledger))

  unfoldable pub inspect : Answers → String → Program World SandboxSnapshot
  inspect answers task_id = do
    creation ← creation_of task_id
    seen ← reconnect answers creation
    return (seen.0)

  -- `except Exception`: the state is unknown from here on.
  unfoldable pub unresolved : String → String → Error → Program World SandboxSnapshot
  unresolved task_id what e = do
    _ ← update task_id none SandboxProviderState.unknown (some (what ++ texts.type_name e))
    raise ambiguous_provider_state_error

  unfoldable pub stop_handle :
      Answers → Result (Unit {0}) → String → Option String → Program World SandboxSnapshot
  stop_handle after terminated task_id none = raise ambiguous_provider_state_error
  stop_handle after terminated task_id (some handle) =
      catch (read (λ w. terminated) >> inspect after task_id)
        (unresolved task_id "termination response unresolved: ")

  -- `terminate`, with the provider's answers before and after its own
  unfoldable pub terminate :
      Answers → Result (Unit {0}) → Answers → String → Program World SandboxSnapshot
  terminate before terminated after task_id = do
    creation ← creation_of task_id
    seen ← reconnect before creation
    if same_provider_state (seen.0).state SandboxProviderState.stopped
        then return (seen.0)
        else stop_handle after terminated task_id (seen.1)

  abbrev pub is_running : SandboxSnapshot → Option String → Bool
  is_running s handle = same_provider_state s.state SandboxProviderState.running && is_some handle

  unfoldable pub asked_token :
      String → String → Result (String × String) → Program World (String × String × String)
  asked_token task_id session_api_key (ok (url, token)) = connection url token session_api_key
  asked_token task_id session_api_key (err e) =
      unresolved task_id "connect request failed: " e >>= λ s. raise ambiguous_provider_state_error

  -- `connect`: the URL, the token and the session key
  unfoldable pub connect :
      Answers → Result (String × String) → String → Program World (String × String × String)
  connect answers connect_token task_id = do
    creation ← creation_of task_id
    seen ← reconnect answers creation
    if is_running (seen.0) (seen.1)
        then asked_token task_id creation.session_api_key connect_token
        else raise modal_lifecycle_error

  unfoldable pub detached :
      String → SandboxSnapshot → Result (Unit {0}) → Option String → Program World SandboxSnapshot
  detached task_id s answer none = return s
  detached task_id s (ok done) (some handle) = return s
  detached task_id s (err e) (some handle) = unresolved task_id "detach failed: " e

  unfoldable pub detach : Answers → Result (Unit {0}) → String → Program World SandboxSnapshot
  detach answers answer task_id = do
    creation ← creation_of task_id
    seen ← reconnect answers creation
    detached task_id (seen.0) answer (seen.1)

  unfoldable pub sync : Answers → Result (Unit {0}) → String → Program World (Unit {0})
  sync answers answer task_id = do
    creation ← creation_of task_id
    seen ← reconnect answers creation
    if is_running (seen.0) (seen.1) then read (λ w. answer) else raise modal_lifecycle_error
