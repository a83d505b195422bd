-- ===== src/Program.antt =====
-- Python code that runs several transactions: an exception ends what follows it, and what was written
-- before it stays.
pub mod Runs
use gg_agent_server.Prelude.{
  ◌≡◌, refl, ap, subst, Bool, true, false, if◌then◌else◌, List, [], ◌∷◌, Bool-cases, inl, inr,
}
use gg_agent_server.Result.{Result, Error, ok, err, AfterOk, returned}

abbrev pub Program {ℓ κ} : Type ℓ → Type κ → Type (ℓ ⊔ κ)
Program S A = S → Result A × S

module _ {ℓ κ} {S : Type ℓ} {A : Type κ} where
  unfoldable pub return : A → Program S A
  return a s = (ok a, s)

  unfoldable pub raise : Error → Program S A
  raise e s = (err e, s)

  -- One transaction: the new state, or the old one and an error.
  abbrev pub settle : S → Result (A × S) → Result A × S
  settle s (ok (a, t)) = (ok a, t)
  settle s (err e) = (err e, s)

  unfoldable pub transact : (S → Result (A × S)) → Program S A
  transact body s = settle s (body s)

  -- A read, which may raise.
  unfoldable pub read : (S → Result A) → Program S A
  read f s = (f s, s)

  -- except e: …
  abbrev pub recover : Result A × S → (Error → Program S A) → Result A × S
  recover (ok a, s) handler = (ok a, s)
  recover (err e, s) handler = handler e s

  unfoldable pub catch : Program S A → (Error → Program S A) → Program S A
  catch m handler s = recover (m s) handler

  -- finally: …
  unfoldable pub finally : Program S A → (S → S) → Program S A
  finally m last s = let r = m s in (r.0, last r.1)

unfoldable pub modify {ℓ} : {S : Type ℓ} → (S → S) → Program S (Unit {0})
modify change s = (ok tt, change s)

-- `if not test: raise e`
unfoldable pub demand {ℓ} : {S : Type ℓ} → (S → Bool) → Error → Program S (Unit {0})
demand test e s = (if test s then ok tt else err e, s)

module _ {ℓ κ μ} {S : Type ℓ} {A : Type κ} {B : Type μ} where
  abbrev pub proceed : Result A × S → (A → Program S B) → Result B × S
  proceed (ok a, s) continue = continue a s
  proceed (err e, s) continue = (err e, s)

  proceed-returned :
      (r : Result A × S) (continue : A → Program S B) {b : B} {t : S}
      → proceed r continue ≡ (ok b, t)
      → (a : A) × (u : S) × (r ≡ (ok a, u)) × (continue a u ≡ (ok b, t))
  proceed-returned (ok a, u) continue h = (a, u, refl, h)
  proceed-returned (err e, u) continue {b = b} h =
      let wrong : err e ≡ ok b = ap (λ p. p.0) h in cc wrong

  infixl 5 ◌>>=◌
  unfoldable pub ◌>>=◌ : Program S A → (A → Program S B) → Program S B
  (m >>= continue) s = proceed (m s) continue

  -- Both parts of what returned have returned.
  pub >>=-returned :
      (m : Program S A) (continue : A → Program S B) (s : S) {b : B} {t : S}
      → (m >>= continue) s ≡ (ok b, t)
      → (a : A) × (u : S) × (m s ≡ (ok a, u)) × (continue a u ≡ (ok b, t))
  unfolding ◌>>=◌
  >>=-returned m continue s h = proceed-returned (m s) continue h

module _ {ℓ κ} {S : Type ℓ} {A : Type κ} where
  pub return-eq : {a b : A} {s t : S} → Path (Result A × S) (ok a, s) (ok b, t) → (a ≡ b) × (s ≡ t)
  return-eq {a = a} {b = b} h =
      let value : ok a ≡ ok b = ap (λ p. p.0) h in (cc value, ap (λ p. p.1) h)

  pub raise-absurd {μ} :
      {e : Error} {b : A} {s t : S} {C : Type μ} → Path (Result A × S) (err e, s) (ok b, t) → C
  raise-absurd {e = e} {b = b} h = let value : err e ≡ ok b = ap (λ p. p.0) h in cc value

infixl 5 ◌>>◌
abbrev pub ◌>>◌ {ℓ κ} : {S : Type ℓ} {B : Type κ} → Program S (Unit {0}) → Program S B → Program S B
m >> later = m >>= λ _. later

-- for a in list: …
module _ {ℓ κ} {S : Type ℓ} {A : Type κ} where
  unfoldable pub for_each : (A → Program S (Unit {0})) → List A → Program S (Unit {0})
  for_each body [] = return tt
  for_each body (a ∷ list) = body a >> for_each body list
