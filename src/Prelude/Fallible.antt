-- ===== src/Prelude/Fallible.antt =====
-- Rust's `Result`, and its `?` as `◌>>=◌`.
use mathlib.Core.Path.{◌≡◌, refl}
use mathlib.Core.Bool.{Bool, true, false}
use mathlib.Core.Logic.{◌⊎◌, inl, inr}
use mathlib.Core.Option.{Option, none, some}

pub data Result {ℓ κ} (E : Type ℓ) (A : Type κ) : Type (ℓ ⊔ κ) where
  err : E → Result E A
  ok : A → Result E A

-- An early `return Err(reason)` where the test holds.
abbrev pub reject_if {ℓ} : {E : Type ℓ} → Bool → E → Result E (Unit {0})
reject_if failing reason = elim failing [ false ↦ ok tt | true ↦ err reason ]

module _ {ℓ κ} {E : Type ℓ} {A : Type κ} where
  -- `ok_or_else`
  abbrev pub or_fail : Option A → E → Result E A
  or_fail (some value) reason = ok value
  or_fail none reason = err reason

  pub ok-injective : {value other : A} → ◌≡◌ {A = Result E A} (ok value) (ok other) → value ≡ other
  ok-injective same = cc

  pub Result-cases :
      (answer : Result E A)
      → ((value : A) × (answer ≡ ok value)) ⊎ ((reason : E) × (answer ≡ err reason))
  Result-cases (err reason) = inr (reason, refl)
  Result-cases (ok value) = inl (value, refl)

module _ {ℓ κ μ} {E : Type ℓ} {A : Type κ} {B : Type μ} where
  infixl 5 ◌>>=◌
  abbrev pub ◌>>=◌ : Result E A → (A → Result E B) → Result E B
  err reason >>= next = err reason
  ok value >>= next = next value

  -- Two continuations that agree on all values.
  pub >>=-ext :
      (answer : Result E A) (next other : A → Result E B)
      → ((value : A) → next value ≡ other value)
      → (answer >>= next) ≡ (answer >>= other)
  >>=-ext (err reason) next other agree = refl
  >>=-ext (ok value) next other agree = agree value

  -- What came before the last result, if that is a success.
  pub >>=-eq-ok :
      (answer : Result E A) (next : A → Result E B) {last : B}
      → (answer >>= next) ≡ ok last
      → (value : A) × (answer ≡ ok value) × (next value ≡ ok last)
  >>=-eq-ok (err reason) next success = cc
  >>=-eq-ok (ok value) next success = (value, refl, success)

infixl 5 ◌>>◌
abbrev pub ◌>>◌ {ℓ κ} : {E : Type ℓ} {B : Type κ} → Result E (Unit {0}) → Result E B → Result E B
unless_err >> rest = unless_err >>= (λ _. rest)
