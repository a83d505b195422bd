-- ===== src/Sandbox/Executions/Identified.antt =====
-- The identity of the executions of sandboxes/gg/server/task_supervisor/store.py, over any calls of the
-- store.
use Prim.Native.String.{◌++◌}
use gg_agent_server.Prelude.{
  ℕ, String, ◌≡◌, refl, ap, sym, ◌∙◌, subst, Bool, true, false, some, List, [], ◌∷◌, ◌==◌, eq_iff,
  arith, All, Option-cases, Bool-cases, inl, inr, is_some,
}
use gg_agent_server.Result.{
  Result, Error, ok, err, integrity_error, AfterOk, returned, raised, AfterOk-bind, key_error,
  start_key_conflict_error, fetched, fetched-eq-ok, require,
}
use gg_agent_server.Table.{find_where, insert_unique}
use gg_agent_server.Table.Rows.{
  All-imp, All-both, All-insert, All-update_cases, All-of_find_none, Distinct, Distinct-insert,
  Distinct-update, insert_unique-eq-ok,
}
use gg_agent_server.Sdk.Execution.{TaskExecutionRecord, TaskResultManifest}
use gg_agent_server.Sandbox.{ExecutionRow, SandboxState}
use gg_agent_server.Sandbox.Executions.{
  Admission, is_execution, has_start_key, find_execution, execution_row, new_execution,
  clashes_execution, same_admission, same_identity, saved_row, insert_execution, admit_or_get,
  save_execution, save_manifest,
}
use gg_agent_server.Sandbox.Executions.Rows.{same_execution, found_rows}

abbrev same_start_key : ExecutionRow → ExecutionRow → Bool
same_start_key a b = a.start_key == b.start_key

-- The columns of a row are those of its record, and its identifier is the digest of the record's task
-- and start key.
abbrev pub IsNamed : (String → String) → ExecutionRow → Type 0
IsNamed digest r =
    (r.payload.start_key ≡ r.start_key)
    × (r.execution_id ≡ digest (r.payload.task_id ++ ":" ++ r.payload.start_key))

abbrev pub IsIdentified : (String → String) → SandboxState → Type 0
IsIdentified digest s =
    All (IsNamed digest) s.executions
    × Distinct same_execution s.executions
    × Distinct same_start_key s.executions

insert_execution-IsIdentified :
    (digest : String → String) (a : Admission) (now : ℕ) (s : SandboxState)
    → IsIdentified digest s
    → AfterOk (IsIdentified digest) (insert_execution (new_execution digest a now) s)
unfolding insert_execution
insert_execution-IsIdentified digest a now s (named, ids, keys) =
    let e = new_execution digest a now in
    AfterOk-bind (insert_unique (clashes_execution e) (execution_row e) s.executions) _
      λ rows inserted.
        let (fresh, rows_eq) =
          insert_unique-eq-ok (clashes_execution e) (execution_row e) s.executions inserted in
        let none_clashes = All-of_find_none (clashes_execution e) s.executions fresh in
        returned (
          subst (λ rows. IsIdentified digest (record s { executions = rows })) rows_eq
            (
              All-insert (IsNamed digest) (execution_row e) s.executions (refl, refl) named,
              Distinct-insert same_execution (execution_row e) s.executions
                  (All-imp _ _ s.executions (λ r h. ground (arith, h)) none_clashes) ids,
              Distinct-insert same_start_key (execution_row e) s.executions
                  (All-imp _ _ s.executions (λ r h. ground (arith, h)) none_clashes) keys,
            ))

admit_or_get-IsIdentified :
    (digest : String → String) (a : Admission) (now : ℕ) (s : SandboxState)
    → IsIdentified digest s
    → AfterOk (IsIdentified digest) (admit_or_get digest a now s)
unfolding admit_or_get
admit_or_get-IsIdentified digest a now s sound =
    elim (Option-cases (find_where (has_start_key (a.start_key)) s.executions)) [
      | inl e ↦ rw (e, admit_or_get) (insert_execution-IsIdentified digest a now s sound)
      | inr (row, e) ↦ elim (Bool-cases (same_admission a row.payload)) [
        | inl f ↦ rw (e, f, admit_or_get) (returned sound)
        | inr f ↦ rw (e, f, admit_or_get) raised
      ]
    ]

-- A record that may replace another has its task and its start key.
same_identity-names :
    (a b : TaskExecutionRecord)
    → same_identity a b ≡ true
    → (a.start_key ≡ b.start_key) × (a.task_id ≡ b.task_id)
same_identity-names a b h = (
  ground (arith, h, eq_iff a.start_key b.start_key),
  ground (arith, h, eq_iff a.task_id b.task_id),
)

saved-IsNamed :
    (digest : String → String) (e : TaskExecutionRecord) (row r : ExecutionRow)
    → some r ≡ some row
    → same_identity row.payload e ≡ true
    → IsNamed digest r
    → IsNamed digest (saved_row e r)
saved-IsNamed digest e row r one same (key, id) =
    let row_eq : row ≡ r = cc one in
    let (key_eq, task_eq) =
      same_identity-names r.payload e
        (subst (λ (q : ExecutionRow). same_identity q.payload e ≡ true) row_eq same) in
    (
      sym key_eq ∙ key,
      id
          ∙ ap (λ key. digest (r.payload.task_id ++ ":" ++ key)) key_eq
          ∙ ap (λ task. digest (task ++ ":" ++ e.start_key)) task_eq,
    )

required : (b : Bool) (e : Error) {u : Unit {0}} → require b e ≡ ok u → b ≡ true
required true e h = refl
required false e h = cc h

save_execution-IsIdentified :
    (digest : String → String) (e : TaskExecutionRecord) (s : SandboxState)
    → IsIdentified digest s
    → AfterOk (IsIdentified digest) (save_execution e s)
unfolding save_execution
save_execution-IsIdentified digest e s (named, ids, keys) =
    AfterOk-bind (fetched key_error (find_execution e.execution_id s)) _ λ row there.
      AfterOk-bind (require (same_identity row.payload e) start_key_conflict_error) _ λ _ passed.
        let found = fetched-eq-ok key_error _ there in
        let same = required (same_identity row.payload e) start_key_conflict_error passed in
        let stored =
          λ (r : ExecutionRow). find_where (is_execution r.execution_id) s.executions ≡ some r in
        returned (
          All-update_cases (λ r. IsNamed digest r × stored r) (IsNamed digest)
              (is_execution e.execution_id) (saved_row e) s.executions
              (λ r hit h.
                let id_eq : r.execution_id ≡ e.execution_id =
                  (eq_iff r.execution_id e.execution_id).0 hit in
                saved-IsNamed digest e row r
                  (sym (h.1) ∙ ap (λ id. find_execution id s) id_eq ∙ found) same (h.0))
              (λ r miss h. h.0) (All-both _ _ s.executions named (found_rows s.executions ids)),
          Distinct-update same_execution (is_execution e.execution_id) (saved_row e) (λ r q. refl)
              (λ r q. refl) s.executions ids,
          Distinct-update same_start_key (is_execution e.execution_id) (saved_row e) (λ r q. refl)
              (λ r q. refl) s.executions keys,
        )

-- A call of the store.
pub data StoreCall : Type 0 where
  admitted : (a : Admission) (now : ℕ) → StoreCall
  saved : TaskExecutionRecord → StoreCall
  saved_manifest : (path : String) (m : TaskResultManifest) → StoreCall

abbrev left {ℓ} : {A : Type ℓ} → SandboxState → Result (A × SandboxState) → SandboxState
left s (ok (a, s')) = s'
left s (err e) = s

abbrev after_call : (String → String) → StoreCall → SandboxState → SandboxState
after_call digest (admitted a now) s = left s (admit_or_get digest a now s)
after_call digest (saved e) s = left s (save_execution e s)
after_call digest (saved_manifest path m) s = left s (save_manifest path m s)

-- The calls one after the other, each that raises being without effect.
unfoldable pub after_calls : (String → String) → List StoreCall → SandboxState → SandboxState
after_calls digest [] s = s
after_calls digest (call ∷ calls) s = after_calls digest calls (after_call digest call s)

left-IsIdentified {ℓ} :
    {A : Type ℓ} (digest : String → String) (s : SandboxState) (r : Result (A × SandboxState))
    → IsIdentified digest s
    → AfterOk (IsIdentified digest) r
    → IsIdentified digest (left s r)
left-IsIdentified digest s (ok (a, s')) h (returned k) = k
left-IsIdentified digest s (err e) h raised = h

save_manifest-IsIdentified :
    (digest : String → String) (name : String) (m : TaskResultManifest) (s : SandboxState)
    → IsIdentified digest s
    → AfterOk (IsIdentified digest) (save_manifest name m s)
unfolding save_manifest
save_manifest-IsIdentified digest name m s h =
    AfterOk-bind (require (is_some (find_execution m.execution_id s)) integrity_error) _
      λ _ _. returned h

after_call-IsIdentified :
    (digest : String → String) (call : StoreCall) (s : SandboxState)
    → IsIdentified digest s
    → IsIdentified digest (after_call digest call s)
after_call-IsIdentified digest (admitted a now) s h =
    left-IsIdentified digest s (admit_or_get digest a now s) h
      (admit_or_get-IsIdentified digest a now s h)
after_call-IsIdentified digest (saved e) s h =
    left-IsIdentified digest s (save_execution e s) h (save_execution-IsIdentified digest e s h)
after_call-IsIdentified digest (saved_manifest path m) s h =
    left-IsIdentified digest s (save_manifest path m s) h
      (save_manifest-IsIdentified digest path m s h)

-- Where each row of the executions has its record's start key, and the identifier that the digest of
-- the record's task and start key is, and no two rows have the same identifier or the same start key,
-- this is so after any admissions and saves, of records and of manifests, each that raises being
-- without effect.
pub after_calls-IsIdentified :
    (digest : String → String) (calls : List StoreCall) (s : SandboxState)
    → IsIdentified digest s
    → IsIdentified digest (after_calls digest calls s)
unfolding after_calls
after_calls-IsIdentified digest [] s h = h
after_calls-IsIdentified digest (call ∷ calls) s h =
    after_calls-IsIdentified digest calls (after_call digest call s)
      (after_call-IsIdentified digest call s h)
