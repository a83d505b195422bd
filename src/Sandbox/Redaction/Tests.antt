-- ===== src/Sandbox/Redaction/Tests.antt =====
-- Tests of `str.replace`.
use gg_agent_server.Prelude.{◌≡◌, refl}
use gg_agent_server.Sandbox.Redaction.{replace, replace_first}

replaces : replace "ab" "[R]" "xabyababz" ≡ "x[R]y[R][R]z"
unfolding replace replace_first
replaces = refl

keeps : replace "ab" "[R]" "ba" ≡ "ba"
unfolding replace replace_first
keeps = refl
