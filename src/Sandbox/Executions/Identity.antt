-- ===== src/Sandbox/Executions/Identity.antt =====
-- `ExecutionStore` of sandboxes/gg/server/task_supervisor/store.py: an execution is admitted once for
-- each start key, and what is saved is what is loaded.
use gg_agent_server.Prelude.{
  ℕ, String, ◌≡◌, refl, subst, Bool, true, false, Option, none, some, eq_refl, same_text,
  Option-cases, Bool-cases, inl, inr,
}
use gg_agent_server.Result.{ok, err, start_key_conflict_error, >>=-eq-ok}
use gg_agent_server.Table.{find_where, insert_unique}
use gg_agent_server.Table.Find.{find-insert_new}
use gg_agent_server.Table.Rows.{insert_unique-eq-ok}
use gg_agent_server.Sdk.Execution.{TaskExecutionRecord}
use gg_agent_server.Sandbox.{ExecutionRow, SandboxState}
use gg_agent_server.Sandbox.Executions.{
  Admission, same_admission, has_start_key, execution_row, new_execution, clashes_execution,
  insert_execution, admit_or_get,
}

pub same_text_refl : (o : Option String) → same_text o o ≡ true
same_text_refl none = refl
same_text_refl (some a) = eq_refl a

module _ (digest : String → String) (a : Admission) (now : ℕ) (s : SandboxState) where
  -- The execution that is admitted is found by its key, and is the one that was asked for.
  abbrev Admitted : TaskExecutionRecord → SandboxState → Type 0
  Admitted r s' =
      (row : ExecutionRow) × (find_where (has_start_key (a.start_key)) s'.executions ≡ some row)
      × (row.payload ≡ r)
      × (same_admission a r ≡ true)

  insert-Admitted :
      {r : TaskExecutionRecord} {created : Bool} {s' : SandboxState}
      → find_where (has_start_key (a.start_key)) s.executions ≡ none
      → insert_execution (new_execution digest a now) s ≡ ok ((r, created), s')
      → Admitted r s'
  unfolding insert_execution
  insert-Admitted {r} {created} {s'} fresh h =
      let new = new_execution digest a now in
      let (executions, inserted, done) =
        >>=-eq-ok (insert_unique (clashes_execution new) (execution_row new) s.executions) _ h in
      let (_, rows_eq) =
        insert_unique-eq-ok (clashes_execution new) (execution_row new) s.executions inserted in
      let record_eq : new ≡ r = cc done in
      let state_eq : record s { executions = executions } ≡ s' = cc done in
      let same : same_admission a new ≡ true =
        rw
          (
            eq_refl a.task_id,
            same_text_refl a.repository,
            same_text_refl a.task_branch,
            same_text_refl a.base_ref,
            eq_refl a.model,
          )
          refl in
      (
        execution_row new,
        subst
            (λ s'.
              find_where (has_start_key (a.start_key)) s'.executions ≡ some (execution_row new))
            state_eq
            (subst
              (λ rows. find_where (has_start_key (a.start_key)) rows ≡ some (execution_row new))
              rows_eq
              (find-insert_new (has_start_key (a.start_key)) (execution_row new) s.executions fresh
                (eq_refl a.start_key))),
        record_eq,
        subst (λ r. same_admission a r ≡ true) record_eq same,
      )

  admit-Admitted :
      {r : TaskExecutionRecord} {created : Bool} {s' : SandboxState}
      → admit_or_get digest a now s ≡ ok ((r, created), s')
      → Admitted r s'
  unfolding admit_or_get
  admit-Admitted {r} {created} {s'} h =
      elim (Option-cases (find_where (has_start_key (a.start_key)) s.executions)) [
        | inl e ↦ insert-Admitted e (rw (e, admit_or_get) at h)
        | inr (row, e) ↦ elim (Bool-cases (same_admission a row.payload)) [
          | inr f ↦ cc (rw (e, f, admit_or_get) at h)
          | inl f ↦
              let done = rw (e, f, admit_or_get) at h in
              let record_eq : row.payload ≡ r = cc done in
              let state_eq : s ≡ s' = cc done in
              (
                row,
                subst (λ s'. find_where (has_start_key (a.start_key)) s'.executions ≡ some row)
                    state_eq e,
                record_eq,
                subst (λ r. same_admission a r ≡ true) record_eq f,
              )
        ]
      ]

-- Where an execution has been admitted for a start key, the same admission again, whatever its
-- deadline and whenever it comes, returns the record that was returned, reports that it created none
-- and writes nothing; another task, repository, branch, base or model with that start key is refused
-- with a `StartKeyConflictError`.
pub admit_or_get-again :
    (digest : String → String) (a : Admission) (now : ℕ) (s : SandboxState)
    {r : TaskExecutionRecord} {created : Bool} {s' : SandboxState} (deadline_at later : ℕ)
    (other : Admission)
    → admit_or_get digest a now s ≡ ok ((r, created), s')
    → other.start_key ≡ a.start_key
    → same_admission other r ≡ false
    → (admit_or_get digest (record a { deadline_at = deadline_at }) later s' ≡ ok ((r, false), s'))
      × (admit_or_get digest other later s' ≡ err start_key_conflict_error)
unfolding admit_or_get
admit_or_get-again digest a now s {r} {created} {s'} deadline_at later other h key differs =
    let (row, found, payload, same) = admit-Admitted digest a now s h in
    (
      rw (admit_or_get, found, payload, same) refl,
      rw (admit_or_get, key, found, payload, differs) refl,
    )
