-- ===== src/Sandbox/Executions/Rows.antt =====
-- The rows of `executions` in sandboxes/gg/server/task_supervisor/store.py: one for each identifier.
use gg_agent_server.Prelude.{
  String, ◌≡◌, refl, ◌∙◌, ap, sym, subst, Bool, true, false, not, ◌||◌, some, List, [], ◌∷◌, map,
  ◌==◌, eq_refl, eq_iff, false, arith, All, Bool-cases, inl, inr,
}
use gg_agent_server.Table.{find_where, select_where, order_by, insert_ordered}
use gg_agent_server.Table.Rows.{All-imp, All-both, All-select, Distinct, Distinct-select}
use gg_agent_server.Table.Order.{All-order_by, Distinct-order_by}
use gg_agent_server.Sdk.Execution.{TaskExecutionRecord}
use gg_agent_server.Sandbox.{ExecutionRow, SandboxState}
use gg_agent_server.Sandbox.Executions.{
  is_execution, find_execution, execution_before, is_terminal_phase, list_non_terminal,
  same_identity,
}
use gg_agent_server.Sandbox.Executions.Identity.{same_text_refl}

abbrev pub same_execution : ExecutionRow → ExecutionRow → Bool
same_execution a b = a.execution_id == b.execution_id

-- The identifier of a row is its record's, and no other row has it.
abbrev pub IsSound : SandboxState → Type 0
IsSound s =
    All (λ r. r.payload.execution_id ≡ r.execution_id) s.executions
    × Distinct same_execution s.executions

-- A row is found by its identifier.
pub found_rows :
    (rows : List ExecutionRow)
    → Distinct same_execution rows
    → All (λ r. find_where (is_execution r.execution_id) rows ≡ some r) rows
unfolding find_where
found_rows [] distinct = tt
found_rows (r ∷ rows) distinct = (
  rw (eq_refl r.execution_id) refl,
  All-imp _ _ rows
      (λ q h. let other : (r.execution_id == q.execution_id) ≡ false = h.0 in rw other (h.1))
      (All-both _ _ rows (distinct.0) (found_rows rows distinct.1)),
)

pub same_identity_refl : (e : TaskExecutionRecord) → same_identity e e ≡ true
same_identity_refl e =
    rw
      (
        eq_refl e.start_key,
        eq_refl e.task_id,
        same_text_refl e.repository,
        same_text_refl e.task_branch,
        same_text_refl e.base_ref,
        eq_refl e.model,
      )
      refl

-- Whether one of the records has the identifier.
unfoldable pub awaits : List TaskExecutionRecord → String → Bool
awaits [] id = false
awaits (e ∷ todo) id = e.execution_id == id || awaits todo id

abbrev payloads : List ExecutionRow → List TaskExecutionRecord
payloads rows = map (λ (r : ExecutionRow). r.payload) rows

awaits-insert_ordered :
    (r : ExecutionRow) (rows : List ExecutionRow) (id : String)
    → awaits (payloads (insert_ordered execution_before r rows)) id
      ≡ awaits (payloads (r ∷ rows)) id
unfolding insert_ordered awaits
awaits-insert_ordered r [] id = refl
awaits-insert_ordered r (s ∷ rows) id = elim (Bool-cases (execution_before r s)) [
  | inl e ↦ rw (e, insert_ordered) refl
  | inr e ↦ rw (e, insert_ordered) (ground (arith, awaits-insert_ordered r rows id))
]

awaits-order_by :
    (rows : List ExecutionRow) (id : String)
    → awaits (payloads (order_by execution_before rows)) id ≡ awaits (payloads rows) id
unfolding order_by awaits
awaits-order_by [] id = refl
awaits-order_by (r ∷ rows) id =
    awaits-insert_ordered r (order_by execution_before rows) id
    ∙ ap (λ b. r.payload.execution_id == id || b) (awaits-order_by rows id)

abbrev is_open : ExecutionRow → Bool
is_open r = not (is_terminal_phase r.phase)

-- A row is terminal, or is awaited.
abbrev pub IsCovered : List TaskExecutionRecord → ExecutionRow → Type 0
IsCovered todo r = (is_terminal_phase r.phase || awaits todo r.execution_id) ≡ true

IsCovered-select :
    (rows : List ExecutionRow)
    → All (λ r. r.payload.execution_id ≡ r.execution_id) rows
    → All (IsCovered (payloads (select_where is_open rows))) rows
unfolding select_where awaits
IsCovered-select [] sound = tt
IsCovered-select (r ∷ rows) sound = elim (Bool-cases (is_terminal_phase r.phase)) [
  | inl e ↦
      let same : select_where is_open (r ∷ rows) ≡ select_where is_open rows =
        rw (select_where, e) refl in
      subst (λ list. All (IsCovered (payloads list)) (r ∷ rows)) (sym same)
        (rw e refl, IsCovered-select rows sound.1)
  | inr e ↦
      let same : select_where is_open (r ∷ rows) ≡ r ∷ select_where is_open rows =
        rw (select_where, e) refl in
      subst (λ list. All (IsCovered (payloads list)) (r ∷ rows)) (sym same)
        (
          rw (sound.0, eq_refl r.execution_id, e) refl,
          All-imp _ _ rows (λ q h. ground (arith, h)) (IsCovered-select rows sound.1),
        )
]

pub list_non_terminal-IsCovered :
    (s : SandboxState) → IsSound s → All (IsCovered (list_non_terminal s)) s.executions
unfolding list_non_terminal
list_non_terminal-IsCovered s sound =
    All-imp _ _ s.executions
      (λ r h.
        ap (λ b. is_terminal_phase r.phase || b)
          (awaits-order_by (select_where is_open s.executions) r.execution_id)
        ∙ h)
      (IsCovered-select s.executions (sound.0))

none_open : (rows : List ExecutionRow) → All (IsCovered []) rows → select_where is_open rows ≡ []
unfolding select_where awaits
none_open [] covered = refl
none_open (r ∷ rows) covered =
    let terminal : is_terminal_phase r.phase ≡ true = ground (arith, covered.0) in
    rw (terminal, select_where) (none_open rows covered.1)

pub list_non_terminal-none :
    (s : SandboxState) → All (IsCovered []) s.executions → list_non_terminal s ≡ []
unfolding list_non_terminal order_by
list_non_terminal-none s covered = rw (none_open s.executions covered) refl

All-payloads :
    (P : TaskExecutionRecord → Type 0) (rows : List ExecutionRow)
    → All (λ (r : ExecutionRow). P r.payload) rows
    → All P (payloads rows)
All-payloads P [] a = tt
All-payloads P (r ∷ rows) a = (a.0, All-payloads P rows a.1)

-- What is listed is in the table, under its identifier.
pub list_non_terminal-found :
    (s : SandboxState)
    → IsSound s
    → All
        (λ e.
          (row : ExecutionRow) × (find_execution e.execution_id s ≡ some row)
          × (same_identity row.payload e ≡ true))
        (list_non_terminal s)
unfolding list_non_terminal
list_non_terminal-found s sound =
    let P = λ (e : TaskExecutionRecord).
      (row : ExecutionRow) × (find_execution e.execution_id s ≡ some row)
      × (same_identity row.payload e ≡ true) in
    All-payloads P (order_by execution_before (select_where is_open s.executions)) (
      All-order_by (λ (r : ExecutionRow). P r.payload) execution_before
        (select_where is_open s.executions)
        (All-select (λ (r : ExecutionRow). P r.payload) is_open s.executions
          (All-imp _ _ s.executions
            (λ r h. (r, ap (λ id. find_execution id s) (h.0) ∙ h.1, same_identity_refl r.payload))
            (All-both _ _ s.executions (sound.0) (found_rows s.executions (sound.1))))))

-- Two records have the same identifier.
abbrev pub same_id : TaskExecutionRecord → TaskExecutionRecord → Bool
same_id a b = a.execution_id == b.execution_id

abbrev same_payload : ExecutionRow → ExecutionRow → Bool
same_payload a b = same_id a.payload b.payload

Distinct-payloads :
    (rows : List ExecutionRow) → Distinct same_payload rows → Distinct same_id (payloads rows)
Distinct-payloads [] d = tt
Distinct-payloads (r ∷ rows) d =
    (All-payloads (λ e. same_id r.payload e ≡ false) rows (d.0), Distinct-payloads rows (d.1))

Distinct-ids :
    (rows : List ExecutionRow)
    → All (λ r. r.payload.execution_id ≡ r.execution_id) rows
    → Distinct same_execution rows
    → Distinct same_payload rows
Distinct-ids [] ids d = tt
Distinct-ids (r ∷ rows) ids d = (
  All-imp _ _ rows
      (λ q (h : (q.payload.execution_id ≡ q.execution_id) × (same_execution r q ≡ false)).
        rw (ids.0, h.0) (h.1))
      (All-both _ _ rows (ids.1) (d.0)),
  Distinct-ids rows (ids.1) (d.1),
)

pub same_id_sym : (a b : TaskExecutionRecord) → same_id a b ≡ false → same_id b a ≡ false
same_id_sym a b h =
    ground (arith, h, eq_iff a.execution_id b.execution_id, eq_iff b.execution_id a.execution_id)

-- No two that are listed have the same identifier.
pub list_non_terminal-Distinct :
    (s : SandboxState) → IsSound s → Distinct same_id (list_non_terminal s)
unfolding list_non_terminal
list_non_terminal-Distinct s sound =
    Distinct-payloads (order_by execution_before (select_where is_open s.executions)) (
      Distinct-order_by same_payload (λ r q. same_id_sym r.payload q.payload) execution_before
        (select_where is_open s.executions)
        (Distinct-select same_payload is_open s.executions
          (Distinct-ids s.executions (sound.0) (sound.1))))
