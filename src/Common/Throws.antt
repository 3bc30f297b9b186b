-- ===== src/Common/Throws.antt =====
-- The result of code that may throw: a value, or the error that was thrown.
use mathlib.Core.Bool.{Bool, true, false}
use mathlib.Core.Path.{◌≡◌, refl}

pub data Outcome {ℓ κ} (E : Type ℓ) (A : Type κ) : Type (ℓ ⊔ κ) where
  ok : A → Outcome E A
  throw : E → Outcome E A

module _ {ℓ κ} {E : Type ℓ} {A : Type κ} where
  infixl 5 ◌>>=◌
  abbrev pub ◌>>=◌ {μ} : {X : Type μ} → Outcome E A → (A → Outcome E X) → Outcome E X
  ok value >>= next = next value
  throw error >>= next = throw error

  -- A chain that returns went through its first part.
  pub >>=-eq-ok {μ} :
      {X : Type μ} (first : Outcome E A) (next : A → Outcome E X) {x : X}
      → (first >>= next) ≡ ok x
      → (value : A) × (first ≡ ok value) × (next value ≡ ok x)
  >>=-eq-ok (ok value) next h = (value, refl, h)
  >>=-eq-ok (throw error) next h = cc

  pub ok-injective : {a b : A} → ◌≡◌ {A = Outcome E A} (ok a) (ok b) → a ≡ b
  ok-injective e = cc

infixl 5 ◌>>◌
abbrev pub ◌>>◌ {ℓ μ} : {E : Type ℓ} {X : Type μ} → Outcome E (Unit {0}) → Outcome E X → Outcome E X
check >> rest = check >>= λ done. rest

-- `if (test) throw error;`
abbrev pub throw_if {ℓ} : {E : Type ℓ} → Bool → E → Outcome E (Unit {0})
throw_if true error = throw error
throw_if false error = ok tt
