-- ===== src/Ledger/Retention/Soundness.antt =====
-- The passes of retention keep the ledger sound.
use gg_agent_server.Prelude.{ℕ, subst, sym}
use gg_agent_server.Result.{AfterOk, returned}
use gg_agent_server.Ledger.Retention.{expire_terminal_payloads, purge_expired_tombstones}
use gg_agent_server.Ledger.Retention.Expiry.{expire_terminal_payloads_lem}
use gg_agent_server.Ledger.Retention.Purge.{purge_expired_tombstones_lem}
use gg_agent_server.Ledger.Soundness.{IsSound, KeepsSound}

pub expire_terminal_payloads-IsSound :
    (before retention now : ℕ) → KeepsSound (expire_terminal_payloads before retention now)
expire_terminal_payloads-IsSound before retention now l h =
    let (l', e, sound, rest, more) = expire_terminal_payloads_lem before retention now l h in
    subst (λ r. AfterOk IsSound r) (sym e) (returned sound)

pub purge_expired_tombstones-IsSound : (before : ℕ) → KeepsSound (purge_expired_tombstones before)
purge_expired_tombstones-IsSound before l h =
    let (l', e, sound, rest, more, last) = purge_expired_tombstones_lem before l h in
    subst (λ r. AfterOk IsSound r) (sym e) (returned sound)
