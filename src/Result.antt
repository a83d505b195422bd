-- ===== src/Result.antt =====
-- Python's exceptions as values. The messages are left out: callers catch by class.
use gg_agent_server.Prelude.{
  ◌≡◌, ◌⊎◌, inl, inr, refl, Bool, true, false, Option, none, some, subst, if◌then◌else◌,
}

-- `assertion_error` is a failed `assert`, `integrity_error` a violated constraint of the schema.
pub data Error : Type 0 where
  key_error value_error runtime_error : Error
  supervision_identity_error publication_identity_error : Error
  integrity_error assertion_error : Error
  start_key_conflict_error timeout_error git_prep_error agent_error : Error
  file_not_found_error subscriber_limit_exceeded_error http_exception : Error
  modal_lifecycle_error credential_unavailable_error ambiguous_provider_state_error : Error
  sandbox_not_found_error conflicting_sandboxes_error provider_error http_error : Error
  invalid_token_error sqlite_error repository_access_error : Error
  conversation_already_running_error invalid_conversation_state_error : Error
  conversation_not_found_error message_id_conflict_error agent_control_error : Error
  agent_cancelled_error : Error

pub data Result {ℓ} (A : Type ℓ) : Type ℓ where
  ok : A → Result A
  err : Error → Result A

-- What follows runs on the value of what returned; an exception passes through.
module _ {ℓ κ} {A : Type ℓ} {B : Type κ} where
  infixl 5 ◌>>=◌
  abbrev pub ◌>>=◌ : Result A → (A → Result B) → Result B
  err e >>= continue = err e
  ok a >>= continue = continue a

  -- Both parts of a block that returned have returned.
  pub >>=-eq-ok :
      (m : Result A) (continue : A → Result B) {b : B}
      → (m >>= continue) ≡ ok b
      → (a : A) × (m ≡ ok a) × (continue a ≡ ok b)
  >>=-eq-ok (err e) continue h = cc
  >>=-eq-ok (ok a) continue h = (a, refl, h)

infixl 5 ◌>>◌
abbrev pub ◌>>◌ {ℓ} : {B : Type ℓ} → Result (Unit {0}) → Result B → Result B
m >> later = m >>= λ _. later

-- `if not test: raise e`
abbrev pub require : Bool → Error → Result (Unit {0})
require true e = ok tt
require false e = err e

-- `row = cursor.fetchone()` and a raise if there is none
abbrev pub fetched {ℓ} : {A : Type ℓ} → Error → Option A → Result A
fetched e none = err e
fetched e (some a) = ok a

pub Result-cases {ℓ} :
    {A : Type ℓ} (m : Result A) → ((a : A) × (m ≡ ok a)) ⊎ ((e : Error) × (m ≡ err e))
Result-cases (ok a) = inl (a, refl)
Result-cases (err e) = inr (e, refl)

pub fetched-eq-ok {ℓ} :
    {A : Type ℓ} (e : Error) (o : Option A) {a : A} → fetched e o ≡ ok a → o ≡ some a
fetched-eq-ok e none h = cc
fetched-eq-ok e (some b) h = cc

-- A property of the state that a successful result comes with.
pub data AfterOk {ℓ κ μ} {A : Type ℓ} {S : Type κ} (P : S → Type μ)
    : Result (A × S) → Type (ℓ ⊔ κ ⊔ μ) where
  returned : {a : A} {s : S} → P s → AfterOk P (ok (a, s))
  raised : {e : Error} → AfterOk P (err e)

module _ {ℓ κ μ} {A : Type ℓ} {S : Type κ} {P : S → Type μ} where
  AfterOk-inv : {a : A} {s : S} → AfterOk P (ok (a, s)) → P s
  AfterOk-inv (returned p) = p

  pub AfterOk-elim : {m : Result (A × S)} {a : A} {s : S} → AfterOk P m → m ≡ ok (a, s) → P s
  AfterOk-elim h e = AfterOk-inv (subst (λ r. AfterOk P r) e h)

  pub AfterOk-if :
      (b : Bool) (m n : Result (A × S))
      → (b ≡ true → AfterOk P m)
      → (b ≡ false → AfterOk P n)
      → AfterOk P (if b then m else n)
  AfterOk-if true m n hm hn = hm refl
  AfterOk-if false m n hm hn = hn refl

pub AfterOk-imp {ℓ κ μ ν} :
    {A : Type ℓ} {S : Type κ} {P : S → Type μ} {Q : S → Type ν} {m : Result (A × S)}
    → ((s : S) → P s → Q s)
    → AfterOk P m
    → AfterOk Q m
AfterOk-imp f (returned {s = s} p) = returned (f s p)
AfterOk-imp f raised = raised

module _ {ℓ κ μ ν} {A : Type ℓ} {B : Type κ} {S : Type μ} {P : S → Type ν} where
  pub AfterOk-bind :
      (m : Result A) (f : A → Result (B × S))
      → ((a : A) → m ≡ ok a → AfterOk P (f a))
      → AfterOk P (m >>= f)
  AfterOk-bind (ok a) f h = h a refl
  AfterOk-bind (err e) f h = raised

pub ruleset after_ok = (returned, raised, AfterOk-if, AfterOk-bind)
