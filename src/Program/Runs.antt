-- ===== src/Program/Runs.antt =====
-- What runs of a program keep and lead to, whether they return or raise.
use gg_agent_server.Prelude.{◌≡◌, subst, Bool, true, false, if◌then◌else◌, Bool-cases, inl, inr}
use gg_agent_server.Result.{Result, Error, ok, err, AfterOk, returned}
use gg_agent_server.Program.{
  Program, return, raise, settle, transact, read, recover, catch, finally, modify, demand, proceed,
  ◌>>=◌, ◌>>◌, >>=-returned,
}

-- What holds of the value and of the state, wherever the program returns.
unfoldable pub Returns {ℓ κ μ} :
    {S : Type ℓ} {A : Type κ} → (A → S → Type μ) → Program S A → Type (ℓ ⊔ κ ⊔ μ)
Returns {S = S} {A = A} Q m = (s : S) (a : A) (t : S) → m s ≡ (ok a, t) → Q a t

pub Returns-bind {ℓ κ μ ν} :
    {S : Type ℓ} {A : Type κ} {B : Type μ} (Q : B → S → Type ν) (m : Program S A)
    (continue : A → Program S B)
    → ((a : A) → Returns Q (continue a))
    → Returns Q (m >>= continue)
unfolding Returns
Returns-bind Q m continue post s b t h =
    let (a, u, first, rest) = >>=-returned m continue s h in post a u b t rest

-- What every run of the program keeps, whether it returns or raises.
unfoldable pub Keeps {ℓ κ μ} : {S : Type ℓ} {A : Type κ} → (S → Type μ) → Program S A → Type (ℓ ⊔ μ)
Keeps {S = S} P m = (s : S) → P s → P (m s).1

pub Keeps-raise {ℓ κ μ} :
    {S : Type ℓ} (A : Type κ) (P : S → Type μ) (e : Error) → Keeps P (raise {S = S} {A = A} e)
unfolding Keeps raise
Keeps-raise A P e s h = h

module _ {ℓ μ} {S : Type ℓ} (P : S → Type μ) where
  pub Keeps-modify : (change : S → S) → ((s : S) → P s → P (change s)) → Keeps P (modify change)
  unfolding Keeps modify
  Keeps-modify change keep s h = keep s h

  pub Keeps-demand : (test : S → Bool) (e : Error) → Keeps P (demand test e)
  unfolding Keeps demand
  Keeps-demand test e s h = h

module _ {ℓ κ μ} {S : Type ℓ} {A : Type κ} (P : S → Type μ) where
  pub Keeps-return : (a : A) → Keeps P (return {S = S} a)
  unfolding Keeps return
  Keeps-return a s h = h

  pub Keeps-read : (f : S → Result A) → Keeps P (read f)
  unfolding Keeps read
  Keeps-read f s h = h

  pub settle-keeps : (s : S) (r : Result (A × S)) → P s → AfterOk P r → P (settle s r).1
  settle-keeps s (ok (a, t)) h (returned p) = p
  settle-keeps s (err e) h p = h

  pub Keeps-transact :
      (body : S → Result (A × S)) → ((s : S) → P s → AfterOk P (body s)) → Keeps P (transact body)
  unfolding Keeps transact
  Keeps-transact body keep s h = settle-keeps s (body s) h (keep s h)

  recover-keeps :
      (r : Result A × S) (handler : Error → Program S A)
      → P r.1
      → ((e : Error) → Keeps P (handler e))
      → P (recover r handler).1
  unfolding Keeps
  recover-keeps (ok a, s) handler h keep = h
  recover-keeps (err e, s) handler h keep = keep e s h

  pub Keeps-catch :
      (m : Program S A) (handler : Error → Program S A)
      → Keeps P m
      → ((e : Error) → Keeps P (handler e))
      → Keeps P (catch m handler)
  unfolding Keeps catch
  Keeps-catch m handler hm hh s h = recover-keeps (m s) handler (hm s h) hh

  pub Keeps-finally :
      (m : Program S A) (last : S → S)
      → Keeps P m
      → ((s : S) → P s → P (last s))
      → Keeps P (finally m last)
  unfolding Keeps finally
  Keeps-finally m last hm hl s h = hl (m s).1 (hm s h)

  pub Keeps-if :
      (b : Bool) (m n : Program S A) → Keeps P m → Keeps P n → Keeps P (if b then m else n)
  unfolding Keeps
  Keeps-if true m n hm hn = hm
  Keeps-if false m n hm hn = hn

module _ {ℓ κ μ ν} {S : Type ℓ} {A : Type κ} {B : Type μ} (P : S → Type ν) where
  proceed-keeps :
      (r : Result A × S) (continue : A → Program S B)
      → P r.1
      → ((a : A) → Keeps P (continue a))
      → P (proceed r continue).1
  unfolding Keeps
  proceed-keeps (ok a, s) continue h keep = keep a s h
  proceed-keeps (err e, s) continue h keep = h

  pub Keeps-bind :
      (m : Program S A) (continue : A → Program S B)
      → Keeps P m
      → ((a : A) → Keeps P (continue a))
      → Keeps P (m >>= continue)
  unfolding Keeps ◌>>=◌
  Keeps-bind m continue hm hc s h = proceed-keeps (m s) continue (hm s h) hc

-- What holds of the value and of the state, wherever the program returns from a state of a kind.
unfoldable pub Yields {ℓ κ μ ν} :
    {S : Type ℓ} {A : Type κ} → (S → Type μ) → (A → S → Type ν) → Program S A → Type (ℓ ⊔ κ ⊔ μ ⊔ ν)
Yields {S = S} {A = A} P Q m = (s : S) (a : A) (t : S) → P s → m s ≡ (ok a, t) → Q a t

module _ {ℓ κ μ ν ξ} {S : Type ℓ} {A : Type κ} {B : Type μ} (P : S → Type ν)
    (Q : B → S → Type ξ) where
  pub Yields-bind :
      (m : Program S A) (continue : A → Program S B)
      → Keeps P m
      → ((a : A) → Yields P Q (continue a))
      → Yields P Q (m >>= continue)
  unfolding Yields Keeps
  Yields-bind m continue keep later s b t h e =
      let (a, u, first, rest) = >>=-returned m continue s e in
      later a u b t (subst (λ p. P p.1) first (keep s h)) rest

-- What a run leads to, whether it returns or raises.
unfoldable pub Leads {ℓ κ μ ν} :
    {S : Type ℓ} {A : Type κ} → (S → Type μ) → (S → Type ν) → Program S A → Type (ℓ ⊔ μ ⊔ ν)
Leads {S = S} P Q m = (s : S) → P s → Q (m s).1

module _ {ℓ κ μ ν} {S : Type ℓ} {A : Type κ} {B : Type μ} (P Q R : S → Type ν) where
  proceed-leads :
      (r : Result A × S) (continue : A → Program S B)
      → Q r.1
      → ((s : S) → Q s → R s)
      → ((a : A) → Leads Q R (continue a))
      → R (proceed r continue).1
  unfolding Leads
  proceed-leads (ok a, s) continue q early late = late a s q
  proceed-leads (err e, s) continue q early late = early s q

  pub Leads-bind :
      (m : Program S A) (continue : A → Program S B)
      → Leads P Q m
      → ((s : S) → Q s → R s)
      → ((a : A) → Leads Q R (continue a))
      → Leads P R (m >>= continue)
  unfolding Leads ◌>>=◌
  Leads-bind m continue hm early late s h = proceed-leads (m s) continue (hm s h) early late

module _ {ℓ κ μ} {S : Type ℓ} {A : Type κ} (P Q R : S → Type μ) where
  pub Leads-finally :
      (m : Program S A) (last : S → S)
      → Leads P Q m
      → ((s : S) → Q s → R (last s))
      → Leads P R (finally m last)
  unfolding Leads finally
  Leads-finally m last hm hl s h = hl (m s).1 (hm s h)

module _ {ℓ κ μ ν} {S : Type ℓ} {B : Type κ} (P : S → Type μ) (Q : S → Type ν) where
  -- What follows `if not test: raise e` runs where the test holds.
  pub Leads-demand :
      (test : S → Bool) (e : Error) (later : Program S B)
      → ((s : S) → P s → test s ≡ false → Q s)
      → Leads (λ s. P s × (test s ≡ true)) Q later
      → Leads P Q (demand test e >> later)
  unfolding Leads ◌>>=◌ demand
  Leads-demand test e later failed passed s h = elim (Bool-cases (test s)) [
    | inl t ↦ rw t (passed s (h, t))
    | inr f ↦ rw f (failed s h f)
  ]
