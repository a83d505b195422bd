-- ===== src/Ledger/Sandboxes/Soundness.antt =====
-- The creation intents keep the ledger sound.
use gg_agent_server.Prelude.{
  ℕ, String, ◌≡◌, refl, subst, Bool, true, Option, Option-cases, inl, inr, All, arith,
}
use gg_agent_server.Result.{Result, ok, AfterOk, AfterOk-bind, returned, after_ok, ◌>>◌}
use gg_agent_server.Table.{insert_unique}
use gg_agent_server.Table.Rows.{All-insert, All-update, insert_unique-eq-ok}
use gg_agent_server.Ledger.Rows.{SandboxProviderState, SandboxCreationRecord, Ledger}
use gg_agent_server.Ledger.Sandboxes.{
  has_payload, require_payload, creates, get_sandbox_creation, SandboxIntent, intended_row,
  clashes_creation, insert_creation, begin_sandbox_creation, set_sandbox_credential_version,
  is_outdated, provider_updated, update_creation, update_sandbox_creation, is_stopped,
  reset_sandbox_for_wake,
}
use gg_agent_server.Ledger.Soundness.{IsSound, KeepsSound, with_creations}

pub require_payload-eq-ok :
    (id : String) (l : Ledger) {a : Unit {0}}
    → require_payload id l ≡ ok a
    → has_payload id l ≡ true
unfolding require_payload
require_payload-eq-ok id l h = ground arith

pub require_payload-ok :
    (id : String) (l : Ledger) → has_payload id l ≡ true → require_payload id l ≡ ok tt
unfolding require_payload
require_payload-ok id l h = rw h refl

-- What follows the guard may use that the task has a payload.
pub AfterOk-require_payload :
    {B : Type 0} (id : String) (l : Ledger) (m : Result (B × Ledger))
    → (has_payload id l ≡ true → AfterOk IsSound m)
    → AfterOk IsSound (require_payload id l >> m)
AfterOk-require_payload id l m h =
    AfterOk-bind (require_payload id l) (λ _. m) λ a e. h (require_payload-eq-ok id l e)

insert_creation-IsSound :
    (i : SandboxIntent) (now : ℕ) (l : Ledger)
    → has_payload i.task_id l ≡ true
    → IsSound l
    → AfterOk IsSound (insert_creation i now l)
unfolding insert_creation
insert_creation-IsSound i now l payload h =
    AfterOk-bind (insert_unique (clashes_creation i) (intended_row i now) l.sandbox_creations) _
      λ rows inserted.
        let (_, e) =
          insert_unique-eq-ok (clashes_creation i) (intended_row i now) l.sandbox_creations
            inserted in
        let sound = with_creations h rows (
          subst (All (λ r. has_payload r.task_id l ≡ true)) e (
            All-insert (λ r. has_payload r.task_id l ≡ true) (intended_row i now)
              l.sandbox_creations payload h.creations)) in
        search (after_ok, sound)

pub begin_sandbox_creation-IsSound :
    (i : SandboxIntent) (now : ℕ) → KeepsSound (begin_sandbox_creation i now)
unfolding begin_sandbox_creation
begin_sandbox_creation-IsSound i now l h = AfterOk-require_payload i.task_id l _ λ payload.
    elim (Option-cases (get_sandbox_creation i.task_id l)) [
      | inl e ↦ rw e (insert_creation-IsSound i now l payload h)
      | inr (row, e) ↦ rw e (search (after_ok, h))
    ]

-- A change of other columns.
update_creation-IsSound :
    (test : SandboxCreationRecord → Bool) (change : SandboxCreationRecord → SandboxCreationRecord)
    (l : Ledger)
    → ((r : SandboxCreationRecord) → (change r).task_id ≡ r.task_id)
    → IsSound l
    → IsSound (update_creation test change l)
update_creation-IsSound test change l keep h =
    with_creations h _
      (All-update _ test change l.sandbox_creations (λ r _ p. rw (keep r) p) h.creations)

pub set_sandbox_credential_version-IsSound :
    (id : String) (version : Option ℕ) → KeepsSound (set_sandbox_credential_version id version)
unfolding set_sandbox_credential_version
set_sandbox_credential_version-IsSound id version l h = returned (
    update_creation-IsSound (creates id) (λ r. record r { credential_version = version }) l
      (λ r. refl) h)

pub update_sandbox_creation-IsSound :
    (id : String) (provider_id : Option String) (state : SandboxProviderState)
    (detail : Option String) (now : ℕ) (l : Ledger) {row : SandboxCreationRecord} {l' : Ledger}
    {changes : ℕ}
    → IsSound l
    → update_sandbox_creation id provider_id state detail now l ≡ ok (row, l', changes)
    → IsSound l'
unfolding update_sandbox_creation
update_sandbox_creation-IsSound id provider_id state detail now l {l' = l'} h e =
    let updated = provider_updated id provider_id state detail now l in
    let sound : IsSound updated =
      update_creation-IsSound (is_outdated id provider_id state detail) _ l (λ r. refl) h in
    elim (Option-cases (get_sandbox_creation id updated)) [
      | inl none_found ↦ cc (rw none_found at e)
      | inr (row, found) ↦ let same : updated ≡ l' = cc (rw found at e) in subst IsSound same sound
    ]

pub reset_sandbox_for_wake-IsSound :
    (id : String) (now : ℕ) → KeepsSound (reset_sandbox_for_wake id now)
unfolding reset_sandbox_for_wake
reset_sandbox_for_wake-IsSound id now l h =
    returned (update_creation-IsSound (is_stopped id) _ l (λ r. refl) h)
