-- ===== src/Lifecycle/Confirmed.antt =====
-- `_reconnect` and `terminate` of backend/gg/runtime/modal_sandbox.py: a sandbox is reported stopped
-- only where the provider said so.
use gg_agent_server.Prelude.{
  ℕ, String, ◌≡◌, ◌⊎◌, inl, inr, refl, ap, sym, ◌∙◌, subst, false, Option, none, some, List, [],
  ◌∷◌, ℤ, Bool-cases,
}
use gg_agent_server.Result.{Result, Error, ok, err, conflicting_sandboxes_error}
use gg_agent_server.Program.{
  Program, return, raise, transact, read, catch, settle, recover, return-eq, raise-absurd,
  >>=-returned,
}
use gg_agent_server.Program.Runs.{Returns, Returns-bind}
use gg_agent_server.Ledger.Rows.{Ledger, SandboxCreationRecord, SandboxProviderState}
use gg_agent_server.Ledger.Sandboxes.{same_provider_state, update_sandbox_creation}
use gg_agent_server.Ledger.Sandboxes.Unchanged.{
  update_sandbox_creation-state, same_provider_state_eq,
}
use gg_agent_server.Lifecycle.{
  SandboxSnapshot, snapshot, World, Texts, Lookup, Answers, without_changes, update, report, polled,
  looked_up, discovered, located, reconnect, creation_of, inspect, unresolved, stop_handle,
  terminate,
}

-- The provider said that the sandbox is gone, or with which code it exited.
abbrev pub IsConfirmed : Option String → Answers → Type 0
IsConfirmed none answers =
    (answers.find ≡ ok [])
    ⊎ ((handle : String) × (code : ℤ) × (answers.find ≡ ok (handle ∷ []))
        × (answers.poll ≡ ok (some code)))
IsConfirmed (some id) answers =
    (answers.from_id ≡ Lookup.missing)
    ⊎ ((code : ℤ) × (answers.from_id ≡ Lookup.found) × (answers.poll ≡ ok (some code)))

abbrev Seen : Type 0
Seen = SandboxSnapshot × Option String

-- Where the state is stopped, the statement holds.
abbrev Stops : Type 0 → Seen → World → Type 0
Stops P seen w = (seen.0).state ≡ SandboxProviderState.stopped → P

updated :
    (w : World) (state : SandboxProviderState) (r : Result (SandboxCreationRecord × Ledger × ℕ))
    {row : SandboxCreationRecord} {w' : World}
    → ((row : SandboxCreationRecord) (l : Ledger) (changes : ℕ)
        → r ≡ ok (row, l, changes)
        → row.provider_state ≡ state)
    → settle w (without_changes w r) ≡ (ok row, w')
    → row.provider_state ≡ state
updated w state (ok (row, l, changes)) h e =
    let (same, _) = return-eq e in ap (λ r. r.provider_state) (sym same) ∙ h row l changes refl
updated w state (err e) h x = raise-absurd x

always : (P : Type 0) → P → (m : Program World Seen) → Returns (Stops P) m
unfolding Returns
always P p m w seen w' h stopped = p

never : (P : Type 0) (e : Error) → Returns (Stops P) (raise e)
unfolding Returns raise
never P e w seen w' h stopped = raise-absurd h

module _ (texts : Texts) where
  update-state :
      (id : String) (provider_id : Option String) (state : SandboxProviderState)
      (detail : Option String)
      → Returns (λ row w. row.provider_state ≡ state) (update texts id provider_id state detail)
  unfolding Returns update transact
  update-state id provider_id state detail w row w' h =
      updated w state
        (update_sandbox_creation id provider_id state detail (texts.now w.readings) w.ledger)
        (λ row l changes e.
          (update_sandbox_creation-state id provider_id state detail (texts.now w.readings) w.ledger
            e).0)
        h

  report-state :
      (id : String) (state : SandboxProviderState) (detail handle : Option String)
      → Returns (λ (seen : Seen) w. (seen.0).state ≡ state) (report texts id state detail handle)
  unfolding Returns report return
  report-state id state detail handle w seen w' h =
      let (row, v, stored, done) =
        >>=-returned (update texts id none state detail)
          (λ updated. return (snapshot updated, handle)) w h in
      let (same, _) = return-eq done in
      ap (λ (s : Seen). (s.0).state) (sym same) ∙ update-state id none state detail w row v stored

  report-other :
      (P : Type 0) (id : String) (state : SandboxProviderState) (detail handle : Option String)
      → same_provider_state state SandboxProviderState.stopped ≡ false
      → Returns (Stops P) (report texts id state detail handle)
  unfolding Returns
  report-other P id state detail handle other w seen w' h stopped =
      let same = sym (report-state id state detail handle w seen w' h) ∙ stopped in
      cc (subst (λ s. same_provider_state s SandboxProviderState.stopped ≡ false) same other)

  polled-Stops :
      (P : Type 0) (id handle : String) (poll : Result (Option ℤ))
      → ((code : ℤ) → poll ≡ ok (some code) → P)
      → Returns (Stops P) (polled texts id handle poll)
  unfolding Returns polled
  polled-Stops P id handle (err e) confirm =
      report-other P id SandboxProviderState.unknown _ (some handle) refl
  polled-Stops P id handle (ok none) confirm =
      report-other P id SandboxProviderState.running none (some handle) refl
  polled-Stops P id handle (ok (some code)) confirm = λ w seen w' h stopped. confirm code refl

  looked_up-Stops :
      (P : Type 0) (id provider_id : String) (answers : Answers) (lookup : Lookup)
      → (lookup ≡ Lookup.missing → P)
      → ((code : ℤ) → lookup ≡ Lookup.found → answers.poll ≡ ok (some code) → P)
      → Returns (Stops P) (looked_up texts id provider_id answers lookup)
  unfolding Returns looked_up
  looked_up-Stops P id provider_id answers Lookup.found gone exited =
      polled-Stops P id provider_id answers.poll (λ code h. exited code refl h)
  looked_up-Stops P id provider_id answers Lookup.missing gone exited =
      λ w seen w' h stopped. gone refl
  looked_up-Stops P id provider_id answers (Lookup.failed e) gone exited =
      report-other P id SandboxProviderState.unknown _ none refl

  discovered-Stops :
      (P : Type 0) (id : String) (answers : Answers) (find : Result (List String))
      → (find ≡ ok [] → P)
      → ((handle : String) (code : ℤ) → find ≡ ok (handle ∷ []) → answers.poll ≡ ok (some code) → P)
      → Returns (Stops P) (discovered texts id answers find)
  unfolding discovered
  discovered-Stops P id answers (err e) gone exited =
      report-other P id SandboxProviderState.unknown _ none refl
  discovered-Stops P id answers (ok []) gone exited = always P (gone refl) _
  discovered-Stops P id answers (ok (handle ∷ [])) gone exited =
      Returns-bind (Stops P) _ _ λ creation.
        polled-Stops P creation.task_id handle answers.poll (λ code h. exited handle code refl h)
  discovered-Stops P id answers (ok (handle ∷ other ∷ more)) gone exited =
      Returns-bind (Stops P) _ _ λ row. never P conflicting_sandboxes_error

  located-Stops :
      (answers : Answers) (id : String) (provider_id : Option String)
      → Returns (Stops (IsConfirmed provider_id answers)) (located texts id answers provider_id)
  located-Stops answers id none =
      discovered-Stops (IsConfirmed none answers) id answers answers.find (λ h. inl h)
        (λ handle code h k. inr (handle, code, h, k))
  located-Stops answers id (some provider_id) =
      looked_up-Stops (IsConfirmed (some provider_id) answers) id provider_id answers
        answers.from_id (λ h. inl h) (λ code h k. inr (code, h, k))

  reconnect-Stops :
      (answers : Answers) (creation : SandboxCreationRecord)
      → Returns
          (Stops (IsConfirmed creation.provider_id answers))
          (reconnect texts answers creation)
  unfolding reconnect
  reconnect-Stops answers creation = located-Stops answers creation.task_id creation.provider_id

-- `_reconnect` returns a snapshot that is stopped only where the provider answered that the sandbox is
-- absent, or with its exit code: a failed lookup, discovery or poll is no answer.
pub reconnect-IsConfirmed :
    (texts : Texts) (answers : Answers) (creation : SandboxCreationRecord) (w : World)
    {seen : SandboxSnapshot × Option String} {w' : World}
    → reconnect texts answers creation w ≡ (ok seen, w')
    → (seen.0).state ≡ SandboxProviderState.stopped
    → IsConfirmed creation.provider_id answers
unfolding Returns
reconnect-IsConfirmed texts answers creation w {seen} {w'} h stopped =
    reconnect-Stops texts answers creation w seen w' h stopped

-- The provider confirmed it before or after it was asked to terminate.
abbrev pub IsStopped : Answers → Answers → Type 0
IsStopped before after = (p : Option String) × (IsConfirmed p before ⊎ IsConfirmed p after)

abbrev Ends : Type 0 → SandboxSnapshot → World → Type 0
Ends P s w = s.state ≡ SandboxProviderState.stopped → P

module _ (texts : Texts) (before after : Answers) where
  inspect-Ends : (id : String) → Returns (Ends (IsStopped before after)) (inspect texts after id)
  unfolding Returns inspect return
  inspect-Ends id w s w' h stopped =
      let (creation, u, first, rest) = >>=-returned (creation_of texts id) _ w h in
      let (seen, v, second, done) = >>=-returned (reconnect texts after creation) _ u rest in
      let (same, _) = return-eq done in
      (
        creation.provider_id,
        inr (
            reconnect-IsConfirmed texts after creation u second
              (ap (λ (s : SandboxSnapshot). s.state) same ∙ stopped)),
      )

  recover-Ends :
      (P : Type 0) (id what : String) (p : Result SandboxSnapshot × World)
      → ((s : SandboxSnapshot) (w : World) → p ≡ (ok s, w) → Ends P s w)
      → (s : SandboxSnapshot) (w : World) → recover p (unresolved texts id what) ≡ (ok s, w)
      → Ends P s w
  unfolding unresolved raise
  recover-Ends P id what (ok s', w') ended s w h = ended s w h
  recover-Ends P id what (err e, w') ended s w h =
      let (row, v, first, rest) = >>=-returned _ _ w' h in raise-absurd rest

  stop_handle-Ends :
      (terminated : Result (Unit {0})) (id : String) (handle : Option String)
      → Returns (Ends (IsStopped before after)) (stop_handle texts after terminated id handle)
  unfolding Returns stop_handle raise catch
  stop_handle-Ends terminated id none w s w' h = raise-absurd h
  stop_handle-Ends terminated id (some handle) w s w' h =
      recover-Ends (IsStopped before after) id "termination response unresolved: " _
        (λ s w'' e.
          let (u, v, first, rest) = >>=-returned (read (λ w. terminated)) _ w e in
          inspect-Ends id v s w'' rest)
        s w' h

-- `terminate` returns a snapshot that is stopped only where the provider's answers, before it was asked
-- to terminate the sandbox or after, say that the sandbox is absent or has exited; whether the request
-- itself was answered does not count.
pub terminate-IsStopped :
    (texts : Texts) (before : Answers) (terminated : Result (Unit {0})) (after : Answers)
    (id : String) (w : World) {s : SandboxSnapshot} {w' : World}
    → terminate texts before terminated after id w ≡ (ok s, w')
    → s.state ≡ SandboxProviderState.stopped
    → IsStopped before after
unfolding terminate return Returns
terminate-IsStopped texts before terminated after id w {s} {w'} h stopped =
    let (creation, u, first, rest) = >>=-returned (creation_of texts id) _ w h in
    let (seen, v, second, done) = >>=-returned (reconnect texts before creation) _ u rest in
    elim (Bool-cases (same_provider_state (seen.0).state SandboxProviderState.stopped)) [
      | inl e ↦
          let state = same_provider_state_eq (seen.0).state SandboxProviderState.stopped e in
          (creation.provider_id, inl (reconnect-IsConfirmed texts before creation u second state))
      | inr e ↦
          stop_handle-Ends texts before after terminated id (seen.1) v s w' (rw e at done) stopped
    ]
