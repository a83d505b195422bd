-- ===== src/Sandbox/Supervisor/Stored.antt =====
-- What the writes of sandboxes/gg/server/task_supervisor/service.py come to, where the execution is in
-- the database with its identity.
use gg_agent_server.Prelude.{
  String, ◌≡◌, refl, ap, sym, ◌∙◌, subst, true, Option, none, some, List, [], ◌∷◌, ◌==◌, eq_iff,
  arith, same_text, Bool-cases, inl, inr, All,
}
use gg_agent_server.Result.{ok}
use gg_agent_server.Program.{transact}
use gg_agent_server.Sdk.Execution.{TaskExecutionPhase, TaskExecutionRecord, TaskResultManifest}
use gg_agent_server.Sandbox.{ExecutionRow, SandboxState}
use gg_agent_server.Sandbox.Executions.{
  find_execution, same_identity, saved_row, save_execution, put_manifest, manifest_reference,
  save_manifest, load_execution, load_manifest, is_terminal_phase,
}
use gg_agent_server.Sandbox.Executions.Saved.{written, find-written, find-written_other, put-load}
use gg_agent_server.Sandbox.Redaction.{
  redact_given, redact_text, redact_secrets, redact_manifest_secret,
}
use gg_agent_server.Sandbox.Supervisor.{
  Settings, Service, phased, tick, secrets, update_phase, store_manifest,
}

-- The execution is in the table, with the same identity.
abbrev pub IsStored : TaskExecutionRecord → SandboxState → Type 0
IsStored e s =
    (row : ExecutionRow) × (find_execution e.execution_id s ≡ some row)
    × (same_identity row.payload e ≡ true)

-- The stored execution is over, and has a manifest.
abbrev pub Ended : String → SandboxState → Type 0
Ended id s =
    (e : TaskExecutionRecord) × (m : TaskResultManifest) × (load_execution id s ≡ ok e)
    × (is_terminal_phase e.phase ≡ true)
    × (load_manifest id s ≡ ok m)

same_text_euclid :
    (a b c : Option String) → same_text a b ≡ true → same_text a c ≡ true → same_text b c ≡ true
same_text_euclid none none none h k = refl
same_text_euclid none none (some c) h k = cc k
same_text_euclid none (some b) c h k = cc h
same_text_euclid (some a) none c h k = cc h
same_text_euclid (some a) (some b) none h k = cc k
same_text_euclid (some a) (some b) (some c) h k =
    ground (arith, h, k, eq_iff a b, eq_iff a c, eq_iff b c)

text_euclid : (a b c : String) → (a == b) ≡ true → (a == c) ≡ true → (b == c) ≡ true
text_euclid a b c h k = ground (arith, h, k, eq_iff a b, eq_iff a c, eq_iff b c)

same_identity_euclid :
    (a b c : TaskExecutionRecord)
    → same_identity a b ≡ true
    → same_identity a c ≡ true
    → same_identity b c ≡ true
same_identity_euclid a b c h k = ground (
  arith,
  h,
  k,
  text_euclid a.start_key b.start_key c.start_key,
  text_euclid a.task_id b.task_id c.task_id,
  same_text_euclid a.repository b.repository c.repository,
  same_text_euclid a.task_branch b.task_branch c.task_branch,
  same_text_euclid a.base_ref b.base_ref c.base_ref,
  text_euclid a.model b.model c.model,
)

pub save_execution-eq :
    (e : TaskExecutionRecord) (s : SandboxState)
    → IsStored e s
    → save_execution e s ≡ ok (tt, written e s)
unfolding save_execution written
save_execution-eq e s (row, found, same) = rw (save_execution, found, same) refl

pub IsStored-written :
    (e r : TaskExecutionRecord) (s : SandboxState)
    → IsStored e s
    → IsStored r s
    → IsStored r (written e s)
IsStored-written e r s (row, found, same) (row', found', same') =
    elim (Bool-cases (e.execution_id == r.execution_id)) [
      | inl f ↦
          let id_eq : e.execution_id ≡ r.execution_id =
            ground (arith, f, eq_iff e.execution_id r.execution_id) in
          let one : some row ≡ some row' =
            sym found ∙ ap (λ id. find_execution id s) id_eq ∙ found' in
          let row_eq : row ≡ row' = cc one in
          (
            saved_row e row,
            ap (λ id. find_execution id (written e s)) (sym id_eq) ∙ find-written e s row found,
            same_identity_euclid row.payload e r same
                (subst (λ row. same_identity row.payload r ≡ true) (sym row_eq) same'),
          )
      | inr f ↦ (row', find-written_other e s r.execution_id f ∙ found', same')
    ]

-- No secret that is redacted is a part of the identifier.
abbrev pub IsClean : List (Option String) → String → Type 0
IsClean list id = All (λ secret. redact_given secret id ≡ id) list

pub redact_secrets-id :
    (list : List (Option String)) (m : TaskResultManifest)
    → IsClean list m.execution_id
    → (redact_secrets list m).execution_id ≡ m.execution_id
unfolding redact_secrets redact_manifest_secret
redact_secrets-id [] m clean = refl
redact_secrets-id (none ∷ list) m clean = redact_secrets-id list m clean.1
redact_secrets-id (some secret ∷ list) m clean = elim (Bool-cases (secret == "")) [
  | inl e ↦ rw (e, redact_secrets) (redact_secrets-id list m clean.1)
  | inr e ↦
      let first : redact_text secret m.execution_id ≡ m.execution_id = rw e at clean.0 in
      let redacted = redact_manifest_secret secret m in
      rw (e, redact_secrets)
        (redact_secrets-id list redacted (subst (λ id. IsClean list id) (sym first) clean.1)
          ∙ first)
]

module _ (settings : Settings) (e : TaskExecutionRecord) (service : Service)
    (there : IsStored e service.state) where
  abbrev pub after_phase : TaskExecutionPhase → Option String → Option String → TaskExecutionRecord
  after_phase phase manifest_path outcome_detail =
      phased e phase manifest_path outcome_detail (settings.now service.readings)

  pub update_phase-eq :
      (phase : TaskExecutionPhase) (manifest_path outcome_detail : Option String)
      → update_phase settings e phase manifest_path outcome_detail service ≡ (
        ok tt,
        record (tick service) {
          state = written (after_phase phase manifest_path outcome_detail) service.state;
        },
      )
  unfolding update_phase transact
  update_phase-eq phase manifest_path outcome_detail =
      rw (save_execution-eq (after_phase phase manifest_path outcome_detail) service.state there)
        refl

module _ (settings : Settings) (token : Option String) (m : TaskResultManifest)
    (service : Service) where
  abbrev pub with_manifest : SandboxState
  with_manifest = record service.state {
    manifests = put_manifest (redact_secrets (secrets settings token) m) service.state.manifests;
  }

module _ (settings : Settings) (token : Option String) (m : TaskResultManifest) (service : Service)
    (row : ExecutionRow) (found : find_execution m.execution_id service.state ≡ some row)
    (clean : IsClean (secrets settings token) m.execution_id) where
  pub store_manifest-eq : store_manifest settings token m service ≡ (
    ok (manifest_reference settings.path m.execution_id),
    record service { state = with_manifest settings token m service },
  )
  unfolding store_manifest transact save_manifest
  store_manifest-eq =
      let id_eq = redact_secrets-id (secrets settings token) m clean in
      rw (store_manifest, save_manifest, id_eq, found) refl

  pub load-with_manifest :
      load_manifest m.execution_id (with_manifest settings token m service)
      ≡ ok (redact_secrets (secrets settings token) m)
  load-with_manifest =
      let id_eq = redact_secrets-id (secrets settings token) m clean in
      subst
        (λ id.
          load_manifest id (with_manifest settings token m service)
          ≡ ok (redact_secrets (secrets settings token) m))
        id_eq (put-load (redact_secrets (secrets settings token) m) service.state)
