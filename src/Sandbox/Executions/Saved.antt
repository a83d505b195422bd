-- ===== src/Sandbox/Executions/Saved.antt =====
-- `save_execution` and `save_manifest` of sandboxes/gg/server/task_supervisor/store.py: what is saved
-- is what is loaded.
use gg_agent_server.Prelude.{
  String, ◌≡◌, ◌⊎◌, refl, sym, ◌∙◌, Bool, true, false, Option, none, some, ◌==◌, eq_refl, eq_iff,
  arith, coalesce, map_option, Option-cases, inl, inr,
}
use gg_agent_server.Result.{
  Error, ok, err, key_error, integrity_error, start_key_conflict_error, fetched, require, >>=-eq-ok,
  fetched-eq-ok,
}
use gg_agent_server.Table.{find_where, update_where}
use gg_agent_server.Table.Find.{find-insert, find-insert_new, find-update, find_where_test}
use gg_agent_server.Sdk.Execution.{TaskExecutionRecord, TaskResultManifest}
use gg_agent_server.Sandbox.{ExecutionRow, ManifestRow, SandboxState}
use gg_agent_server.Sandbox.Executions.{
  is_execution, find_execution, load_execution, same_identity, saved_row, save_execution,
  is_manifest, find_manifest, put_manifest, manifest_reference, save_manifest, load_manifest,
}

-- `if not test: raise e` that was passed.
pub require-eq-ok : {u : Unit {0}} (b : Bool) (e : Error) → require b e ≡ ok u → b ≡ true
require-eq-ok true e h = refl
require-eq-ok false e h = cc h

unfoldable pub written : TaskExecutionRecord → SandboxState → SandboxState
written execution s = record s {
  executions =
      update_where (is_execution execution.execution_id) (saved_row execution) s.executions;
}

module _ (execution : TaskExecutionRecord) (s : SandboxState) where
  pub save_execution-eq-ok :
      {u : Unit {0}} {s' : SandboxState}
      → save_execution execution s ≡ ok (u, s')
      → (row : ExecutionRow) × (find_execution execution.execution_id s ≡ some row)
        × (s' ≡ written execution s)
  unfolding save_execution written
  save_execution-eq-ok {u} {s'} h =
      let (row, found, h) =
        >>=-eq-ok (fetched key_error (find_execution execution.execution_id s)) _ h in
      let (_, _, h) =
        >>=-eq-ok (require (same_identity row.payload execution) start_key_conflict_error) _ h in
      let same : written execution s ≡ s' = cc h in (row, fetched-eq-ok key_error _ found, sym same)

  pub find-written :
      (row : ExecutionRow)
      → find_execution execution.execution_id s ≡ some row
      → find_execution execution.execution_id (written execution s) ≡ some (saved_row execution row)
  unfolding written
  find-written row e =
      let mine = is_execution execution.execution_id in
      let seen = find_where_test mine s.executions e in
      find-update mine mine (saved_row execution) s.executions (λ r. refl) ∙ rw (e, seen) refl

  pub find-written_other :
      (other : String)
      → (execution.execution_id == other) ≡ false
      → find_execution other (written execution s) ≡ find_execution other s
  unfolding written
  find-written_other other differs =
      let mine = is_execution execution.execution_id in
      let changed =
        find-update mine (is_execution other) (saved_row execution) s.executions (λ r. refl) in
      elim (Option-cases (find_execution other s)) [
        | inl e ↦ changed ∙ rw e refl
        | inr (row, e) ↦
            let seen = find_where_test (is_execution other) s.executions e in
            let not_mine : mine row ≡ false = ground (
              arith,
              seen,
              differs,
              eq_iff row.execution_id other,
              eq_iff execution.execution_id other,
              eq_iff row.execution_id execution.execution_id,
            ) in
            changed ∙ rw (e, not_mine) refl
      ]

-- An execution that is saved is what is loaded under its identifier, and every other execution is
-- loaded as before.
pub save_execution-load :
    (execution : TaskExecutionRecord) (s : SandboxState) {u : Unit {0}} {s' : SandboxState}
    (other : String)
    → save_execution execution s ≡ ok (u, s')
    → (execution.execution_id == other) ≡ false
    → (load_execution execution.execution_id s' ≡ ok execution)
      × (load_execution other s' ≡ load_execution other s)
unfolding load_execution
save_execution-load execution s {u} {s'} other h differs =
    let (row, found, same) = save_execution-eq-ok execution s h in
    (
      rw (same, find-written execution s row found) refl,
      rw (same, find-written_other execution s other differs) refl,
    )

find-put :
    (manifest : TaskResultManifest) (s : SandboxState)
    → map_option
        (λ (r : ManifestRow). r.payload)
        (find_manifest manifest.execution_id
          (record s { manifests = put_manifest manifest s.manifests }))
      ≡ some manifest
unfolding put_manifest
find-put manifest s =
    let mine = is_manifest manifest.execution_id in
    let new : ManifestRow = record { execution_id = manifest.execution_id; payload = manifest } in
    elim (Option-cases (find_where mine s.manifests)) [
      | inl e ↦
          let found = find-insert_new mine new s.manifests e (eq_refl manifest.execution_id) in
          rw (put_manifest, e, found) refl
      | inr (old, e) ↦
          let found =
            find-update mine mine (λ r. record r { payload = manifest }) s.manifests (λ r. refl) in
          let seen = find_where_test mine s.manifests e in rw (put_manifest, e, found, e, seen) refl
    ]

load-put :
    (o : Option ManifestRow) (manifest : TaskResultManifest)
    → map_option (λ (r : ManifestRow). r.payload) o ≡ some manifest
    → (row : ManifestRow) × (o ≡ some row) × (row.payload ≡ manifest)
load-put none manifest h = cc h
load-put (some row) manifest h = (row, refl, cc h)

coalesce-none : (o : Option ManifestRow) → coalesce o none ≡ o
coalesce-none none = refl
coalesce-none (some row) = refl

pub put-load :
    (manifest : TaskResultManifest) (s : SandboxState)
    → load_manifest manifest.execution_id
        (record s { manifests = put_manifest manifest s.manifests })
      ≡ ok manifest
unfolding load_manifest
put-load manifest s =
    let s' = record s { manifests = put_manifest manifest s.manifests } in
    let (kept, found, same) =
      load-put (find_manifest manifest.execution_id s') manifest (find-put manifest s) in
    rw (load_manifest, found, same) refl

-- The manifests of other executions stay.
pub find-put_other :
    (manifest : TaskResultManifest) (s : SandboxState) (other : String)
    → (manifest.execution_id == other) ≡ false
    → find_manifest other (record s { manifests = put_manifest manifest s.manifests })
      ≡ find_manifest other s
unfolding put_manifest
find-put_other manifest s other differs =
    let mine = is_manifest manifest.execution_id in
    let new : ManifestRow = record { execution_id = manifest.execution_id; payload = manifest } in
    let change = λ (r : ManifestRow). record r { payload = manifest } in
    let changed = find-update mine (is_manifest other) change s.manifests (λ r. refl) in
    elim (Option-cases (find_where mine s.manifests)) [
      | inl e ↦
          rw (put_manifest, e)
            (find-insert (is_manifest other) new s.manifests ∙ rw differs (coalesce-none _))
      | inr (old, e) ↦ elim (Option-cases (find_manifest other s)) [
        | inl f ↦ rw (put_manifest, e) (changed ∙ rw f refl)
        | inr (row, f) ↦
            let seen = find_where_test (is_manifest other) s.manifests f in
            let not_mine : mine row ≡ false = ground (
              arith,
              seen,
              differs,
              eq_iff row.execution_id other,
              eq_iff manifest.execution_id other,
              eq_iff row.execution_id manifest.execution_id,
            ) in
            rw (put_manifest, e) (changed ∙ rw (f, not_mine) refl)
      ]
    ]

-- A manifest is saved where its execution is stored, and it is then what is loaded for the execution;
-- where the execution is not stored, the foreign key refuses it.
pub save_manifest-load :
    (path : String) (manifest : TaskResultManifest) (s : SandboxState)
    → ((row : ExecutionRow) × (find_execution manifest.execution_id s ≡ some row)
        × (reference : String) × (s' : SandboxState) × (save_manifest path manifest s
            ≡ ok (reference, s'))
        × (load_manifest manifest.execution_id s' ≡ ok manifest)
        × (s'.executions ≡ s.executions))
      ⊎ ((find_execution manifest.execution_id s ≡ none)
          × (save_manifest path manifest s ≡ err integrity_error))
unfolding save_manifest load_manifest
save_manifest-load path manifest s = elim (Option-cases (find_execution manifest.execution_id s)) [
  | inl e ↦ inr (e, rw (save_manifest, e) refl)
  | inr (row, e) ↦
      let s' = record s { manifests = put_manifest manifest s.manifests } in
      let (kept, found, same) =
        load-put (find_manifest manifest.execution_id s') manifest (find-put manifest s) in
      inl (
        row,
        e,
        manifest_reference path manifest.execution_id,
        s',
        rw (save_manifest, e) refl,
        rw (load_manifest, found, same) refl,
        refl,
      )
]
