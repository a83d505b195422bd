-- ===== src/Ledger/Sandboxes/Unchanged.antt =====
-- `update_sandbox_creation` of backend/gg/runtime/ledger.py: polling the provider changes no row that
-- has the polled state already.
use gg_agent_server.Prelude.{
  eq_iff, ℕ, String, ◌≡◌, refl, ap, sym, ◌∙◌, subst, Bool, true, false, Option, none, some, List,
  [], ◌∷◌, eq_refl, coalesce, same_text, All, arith, Option-cases, inl, inr,
}
use gg_agent_server.Result.{ok}
use gg_agent_server.Table.{update_where, count_where}
use gg_agent_server.Table.Rows.{All-update_none}
use gg_agent_server.Table.Find.{find_where_All, find_where_test}
use gg_agent_server.Ledger.Rows.{SandboxProviderState, SandboxCreationRecord, Ledger}
use gg_agent_server.Ledger.Sandboxes.{
  creates, get_sandbox_creation, same_provider_state, is_outdated, provider_updated,
  update_sandbox_creation,
}

module _ {R : Type 0} (test : R → Bool) (change : R → R) where
  count-none : (rows : List R) → All (λ r. test r ≡ false) rows → count_where test rows ≡ 0
  unfolding count_where
  count-none [] a = refl
  count-none (r ∷ rows) a = rw (a.0) (count-none rows a.1)

  update-none :
      (rows : List R) → All (λ r. test r ≡ false) rows → update_where test change rows ≡ rows
  unfolding update_where
  update-none [] a = refl
  update-none (r ∷ rows) a = rw (a.0) (ap (λ rs. r ∷ rs) (update-none rows a.1))

same_text_refl : (o : Option String) → same_text o o ≡ true
same_text_refl none = refl
same_text_refl (some a) = eq_refl a

coalesce_twice : (o p : Option String) → coalesce o (coalesce o p) ≡ coalesce o p
coalesce_twice none p = refl
coalesce_twice (some a) p = refl

same_provider_state_refl : (s : SandboxProviderState) → same_provider_state s s ≡ true
same_provider_state_refl SandboxProviderState.creating = refl
same_provider_state_refl SandboxProviderState.running = refl
same_provider_state_refl SandboxProviderState.stopped = refl
same_provider_state_refl SandboxProviderState.unknown = refl

pub same_provider_state_eq : (a b : SandboxProviderState) → same_provider_state a b ≡ true → a ≡ b
same_provider_state_eq SandboxProviderState.creating SandboxProviderState.creating h = refl
same_provider_state_eq SandboxProviderState.creating SandboxProviderState.running h = cc h
same_provider_state_eq SandboxProviderState.creating SandboxProviderState.stopped h = cc h
same_provider_state_eq SandboxProviderState.creating SandboxProviderState.unknown h = cc h
same_provider_state_eq SandboxProviderState.running SandboxProviderState.creating h = cc h
same_provider_state_eq SandboxProviderState.running SandboxProviderState.running h = refl
same_provider_state_eq SandboxProviderState.running SandboxProviderState.stopped h = cc h
same_provider_state_eq SandboxProviderState.running SandboxProviderState.unknown h = cc h
same_provider_state_eq SandboxProviderState.stopped SandboxProviderState.creating h = cc h
same_provider_state_eq SandboxProviderState.stopped SandboxProviderState.running h = cc h
same_provider_state_eq SandboxProviderState.stopped SandboxProviderState.stopped h = refl
same_provider_state_eq SandboxProviderState.stopped SandboxProviderState.unknown h = cc h
same_provider_state_eq SandboxProviderState.unknown SandboxProviderState.creating h = cc h
same_provider_state_eq SandboxProviderState.unknown SandboxProviderState.running h = cc h
same_provider_state_eq SandboxProviderState.unknown SandboxProviderState.stopped h = cc h
same_provider_state_eq SandboxProviderState.unknown SandboxProviderState.unknown h = refl

module _ (id : String) (provider_id : Option String) (state : SandboxProviderState)
    (detail : Option String) where
  -- No row is outdated after the update.
  updated-current :
      (now : ℕ) (l : Ledger)
      → All
          (λ r. is_outdated id provider_id state detail r ≡ false)
          (provider_updated id provider_id state detail now l).sandbox_creations
  updated-current now l =
      All-update_none (is_outdated id provider_id state detail) _ l.sandbox_creations λ r.
        rw
          (
            coalesce_twice provider_id r.provider_id,
            same_text_refl (coalesce provider_id r.provider_id),
            same_provider_state_refl state,
            same_text_refl detail,
          )
          (ground arith)

  -- The row that is returned is the stored one, and has the state that was given.
  pub update_sandbox_creation-state :
      (now : ℕ) (l : Ledger) {row : SandboxCreationRecord} {l' : Ledger} {changes : ℕ}
      → update_sandbox_creation id provider_id state detail now l ≡ ok (row, l', changes)
      → (row.provider_state ≡ state) × (get_sandbox_creation id l' ≡ some row)
  unfolding update_sandbox_creation get_sandbox_creation
  update_sandbox_creation-state now l {row} {l'} h =
      let updated = provider_updated id provider_id state detail now l in
      elim (Option-cases (get_sandbox_creation id updated)) [
        | inl none_found ↦ cc (rw none_found at h)
        | inr (found, e) ↦
            let done = rw e at h in
            let row_eq : found ≡ row = cc done in
            let ledger_eq : updated ≡ l' = cc done in
            let current =
              find_where_All (λ r. is_outdated id provider_id state detail r ≡ false) (creates id)
                updated.sandbox_creations (updated-current now l) e in
            let mine = find_where_test (creates id) updated.sandbox_creations e in
            let agrees : same_provider_state found.provider_state state ≡ true =
              ground (arith, current, mine) in
            (
              ap (λ r. r.provider_state) (sym row_eq)
                  ∙ same_provider_state_eq found.provider_state state agrees,
              subst (λ l. get_sandbox_creation id l ≡ some row) ledger_eq (e ∙ ap some row_eq),
            )
      ]

  -- Once `update_sandbox_creation` has returned a row, the same update at a later time returns the
  -- same row, leaves the ledger as it is and reports no change.
  pub update_sandbox_creation-again :
      (now later : ℕ) (l : Ledger) {row : SandboxCreationRecord} {l' : Ledger} {changes : ℕ}
      → update_sandbox_creation id provider_id state detail now l ≡ ok (row, l', changes)
      → update_sandbox_creation id provider_id state detail later l' ≡ ok (row, l', 0)
  unfolding update_sandbox_creation
  update_sandbox_creation-again now later l {row} {l'} h =
      let updated = provider_updated id provider_id state detail now l in
      let current = updated-current now l in
      let still : provider_updated id provider_id state detail later updated ≡ updated =
        ap (λ rows. record updated { sandbox_creations = rows })
          (update-none (is_outdated id provider_id state detail) _ updated.sandbox_creations
            current) in
      let zero_changes =
        count-none (is_outdated id provider_id state detail) (λ r. r) updated.sandbox_creations
          current in
      elim (Option-cases (get_sandbox_creation id updated)) [
        | inl missing ↦ cc (rw missing at h)
        | inr (found, e) ↦
            let ledger_eq : updated ≡ l' = cc (rw e at h) in
            let row_eq : found ≡ row = cc (rw e at h) in
            let again : update_sandbox_creation id provider_id state detail later updated
                ≡ ok (found, updated, 0) =
              rw (update_sandbox_creation, still, e, zero_changes) refl in
            subst
              (λ m. update_sandbox_creation id provider_id state detail later m ≡ ok (row, m, 0))
              ledger_eq
              (subst
                (λ r.
                  update_sandbox_creation id provider_id state detail later updated
                  ≡ ok (r, updated, 0))
                row_eq again)
      ]

-- A creation is found under its task's identifier.
pub get_sandbox_creation-id :
    (id : String) (l : Ledger) {row : SandboxCreationRecord}
    → get_sandbox_creation id l ≡ some row
    → row.task_id ≡ id
unfolding get_sandbox_creation
get_sandbox_creation-id id l {row} h =
    (eq_iff row.task_id id).0 (find_where_test (creates id) l.sandbox_creations h)
