-- ===== src/Prelude/Errno.antt =====
-- Results that carry an error code, and the chain of calls that stops at the first error.
use mathlib.Core.Path.{◌≡◌, refl}
use mathlib.Core.Bool.{Bool, true, false}

pub data Result {ℓ κ} (E : Type κ) (A : Type ℓ) : Type (ℓ ⊔ κ) where
  ok : A → Result E A
  fail : E → Result E A

module _ {κ μ} {E : Type κ} {B : Type μ} where
  infixl 5 ◌>>=◌ ◌>>◌
  abbrev pub ◌>>=◌ {ℓ} : {A : Type ℓ} → Result E A → (A → Result E B) → Result E B
  ok value >>= next = next value
  fail code >>= next = fail code

  abbrev pub ◌>>◌ : Result E (Unit {0}) → Result E B → Result E B
  check >> after = check >>= λ _. after

  -- A chain that succeeds has passed its first step.
  pub >>=-eq-ok {ℓ} :
      {A : Type ℓ} (first : Result E A) (next : A → Result E B) {last : B}
      → (first >>= next) ≡ ok last
      → (value : A) × (first ≡ ok value) × (next value ≡ ok last)
  >>=-eq-ok (ok value) next reached = (value, refl, reached)
  >>=-eq-ok (fail code) next reached = cc

-- `if (bad) return e;`
abbrev pub reject_if {κ} : {E : Type κ} → Bool → E → Result E (Unit {0})
reject_if true e = fail e
reject_if false e = ok tt
