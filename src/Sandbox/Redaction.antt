-- ===== src/Sandbox/Redaction.antt =====
-- sandboxes/gg/server/secret_redaction.py, and what the supervisor of
-- sandboxes/gg/server/task_supervisor/service.py does with it.
mod Tests
use Prim.Native.String.{len, slice, ◌++◌}
use text.Mathlib.Text.{find?}
use gg_agent_server.Prelude.{
  ℕ, zero, suc, ◌+◌, String, Bool, Option, none, some, List, [], ◌∷◌, ◌==◌, map_option,
  if◌then◌else◌,
}
use gg_agent_server.Sdk.Execution.{CommandCapture, TaskResultManifest}

-- `str.replace`: the occurrences from the left, none of which overlap.
replace_first : String → String → ℕ → String → String
replace_first old new zero s = s
replace_first old new (suc fuel) s = elim (find? s old) [
  | none ↦ s
  | some i ↦ slice s 0 i ++ new ++ replace_first old new fuel (slice s (i + len old) (len s))
]

-- Each occurrence of a text that is not empty takes a byte, so the length is enough fuel.
unfoldable pub replace : String → String → String → String
unfolding replace_first
replace old new s = replace_first old new (len s) s

-- `redact_secret` on a text
abbrev pub redact_text : String → String → String
redact_text secret s = replace secret "[REDACTED]" s

-- `if secret: detail = detail.replace(secret, "[REDACTED]")` of the supervisor
abbrev pub redact_given : Option String → String → String
redact_given none detail = detail
redact_given (some secret) detail = if secret == "" then detail else redact_text secret detail

abbrev redact_option : String → Option String → Option String
redact_option secret o = map_option (redact_text secret) o

unfoldable pub redact_capture : String → CommandCapture → CommandCapture
redact_capture secret c = record c {
  command = redact_text secret c.command;
  stdout = redact_text secret c.stdout;
  stderr = redact_text secret c.stderr;
}

-- `redact_secret` on the dump of a manifest, whose `changed_files` are a tuple: neither a text, nor a
-- list, nor a dict. The names of the fields and of the outcomes have no secret in them.
unfoldable pub redact_manifest_secret : String → TaskResultManifest → TaskResultManifest
redact_manifest_secret secret m = record m {
  task_id = redact_text secret m.task_id;
  execution_id = redact_text secret m.execution_id;
  repository = redact_option secret m.repository;
  task_branch = redact_option secret m.task_branch;
  base_ref = redact_option secret m.base_ref;
  base_sha = redact_option secret m.base_sha;
  head_sha = redact_option secret m.head_sha;
  patch = redact_option secret m.patch;
  bootstrap = map_option (redact_capture secret) m.bootstrap;
  check = map_option (redact_capture secret) m.check;
  conversation_id = redact_option secret m.conversation_id;
  outcome_detail = redact_option secret m.outcome_detail;
}

-- `for secret in secrets: if secret: …`
unfoldable pub redact_secrets : List (Option String) → TaskResultManifest → TaskResultManifest
redact_secrets [] m = m
redact_secrets (none ∷ secrets) m = redact_secrets secrets m
redact_secrets (some secret ∷ secrets) m =
    redact_secrets secrets (if secret == "" then m else redact_manifest_secret secret m)
