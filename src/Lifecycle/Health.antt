-- ===== src/Lifecycle/Health.antt =====
-- `health` of backend/gg/runtime/modal_sandbox.py.
use Prim.Native.String.{◌++◌}
use gg_agent_server.Prelude.{String, Bool, true, false, Option, none, some, if◌then◌else◌}
use gg_agent_server.Result.{Result, Error}
use gg_agent_server.Program.{Program, return, raise, read, catch, ◌>>=◌, ◌>>◌}
use gg_agent_server.Ledger.Rows.{SandboxProviderState}
use gg_agent_server.Lifecycle.{SandboxSnapshot, snapshot, World, Texts, Answers, update, connect}

-- `except (httpx.HTTPError, AmbiguousProviderStateError)`
abbrev pub is_unhealthy : Error → Bool
is_unhealthy Error.http_error = true
is_unhealthy Error.ambiguous_provider_state_error = true
is_unhealthy _ = false

module _ (texts : Texts) where
  unfoldable pub unhealthy : String → Error → Program World (Option SandboxSnapshot)
  unhealthy task_id e =
      if is_unhealthy e
      then (update texts task_id none SandboxProviderState.unknown
            (some ("health request failed: " ++ texts.type_name e))
          >>= λ updated. return (some (snapshot updated)))
      else raise e

  unfoldable pub healthy : String → Option SandboxSnapshot → Program World SandboxSnapshot
  healthy task_id (some s) = return s
  healthy task_id none = update texts task_id none SandboxProviderState.running none >>= λ updated.
      return (snapshot updated)

  -- `health`, with what the sandbox's server answers
  unfoldable pub health :
      Answers
      → Result (String × String)
      → Result (Unit {0})
      → String
      → Program World SandboxSnapshot
  health answers connect_token response task_id = do
    stored ←
        catch
          (connect texts answers connect_token task_id >>= λ c. read (λ w. response) >> return none)
          (unhealthy task_id)
    healthy task_id stored
