-- ===== src/Proc/Env/Fitting.antt =====
-- proc.c, px_env_build: the limits that the first pass keeps.
use bxroot.Prelude.{
  ℕ, ◌+◌, ◌≤◌, ◌<◌, ◌≡◌, Bool, true, not, ◌||◌, List, [], ◌∷◌, ◌++◌, Str, byte_at, length,
  length-append, ltb, leb, ◌==◌, if◌then◌else◌, Result, ok, fail, ◌>>=◌, Bool-cases, inl, inr,
  arith,
}
use bxroot.Proc.Env.Merge.{EnvCode}
use bxroot.Proc.Env.Build.{
  EnvPolicy, EnvOut, bytes, push, passthru_max, fits, dropped_by, forced_by, carry_one, carry,
  limit_of,
}

-- What a call that succeeds has.
abbrev pub Holds {ℓ} : {A : Type ℓ} → (A → Type 0) → Result EnvCode A → Type 0
Holds P (fail code) = Unit
Holds P (ok value) = P value

pub bind-Holds :
    {A B : Type 0} (P : A → Type 0) (Q : B → Type 0) (r : Result EnvCode A)
    (f : A → Result EnvCode B)
    → Holds P r
    → ((a : A) → P a → Holds Q (f a))
    → Holds Q (r >>= f)
bind-Holds P Q (fail code) f h k = tt
bind-Holds P Q (ok a) f h k = k a h

-- At most so many entries, with at most so many bytes.
pub record IsWithin (limit budget : ℕ) (out : EnvOut) : Type 0 where
  pub few : length out.entries ≤ limit
  pub small : bytes out.entries ≤ budget

bytes-append : (es : List Str) (e : Str) → bytes (es ++ (e ∷ [])) ≡ bytes es + length e + 1
bytes-append [] e = omega arith
bytes-append (d ∷ es) e = omega (arith, bytes-append es e)

pub fits-le :
    (budget need : ℕ) (out : EnvOut)
    → fits budget out need ≡ true
    → bytes out.entries + need ≤ budget
unfolding fits
fits-le budget need out h = ground (arith, h)

pub push-Holds :
    (given : ℕ → Bool) (limit budget : ℕ) (out : EnvOut) (e : Str)
    → length out.entries < limit
    → bytes out.entries + (length e + 1) ≤ budget
    → Holds (IsWithin limit budget) (push given out e)
unfolding push
push-Holds given limit budget out e short small = elim (Bool-cases (given (length out.entries))) [
  | inl g ↦ rw g (record {
    few = omega (arith, length-append out.entries (e ∷ []));
    small = omega (arith, bytes-append out.entries e);
  })
  | inr g ↦ rw g tt
]

module _ (given : ℕ → Bool) (p : EnvPolicy) (half : ℕ) where
  abbrev Within : EnvOut → Type 0
  Within = IsWithin (limit_of p) half

  pushed-Holds :
      (out : EnvOut) (e : Str)
      → Within out
      → length out.entries < limit_of p
      → Holds Within (
          if not (fits half out (length e + 1))
          then ok (record out { skipped_budget = out.skipped_budget + 1 })
          else push given out e)
  pushed-Holds out e w short = elim (Bool-cases (fits half out (length e + 1))) [
    | inl f ↦
        rw f (push-Holds given (limit_of p) half out e short (fits-le half (length e + 1) out f))
    | inr f ↦ rw f (record { few = w.few; small = w.small })
  ]

  carry_one-Holds :
      (out : EnvOut) (e : Str)
      → Within out
      → length out.entries < limit_of p
      → Holds Within (carry_one given p half out e)
  unfolding carry_one
  carry_one-Holds out e w short = elim (Bool-cases (byte_at e 0 == 0)) [
    | inl z ↦ rw z w
    | inr z ↦ rw z (elim (Bool-cases (dropped_by p.drops e || forced_by p.forced e)) [
      | inl d ↦ rw d w
      | inr d ↦ rw d (elim (Bool-cases (ltb passthru_max (length e))) [
        | inl l ↦ rw l (record { few = w.few; small = w.small })
        | inr l ↦ rw l (pushed-Holds out e w short)
      ])
    ])
  ]

  pub carry-Holds :
      (es : List Str) (out : EnvOut) → Within out → Holds Within (carry given p half es out)
  unfolding carry
  carry-Holds [] out w = w
  carry-Holds (e ∷ es) out w = elim (Bool-cases (leb (limit_of p) (length out.entries))) [
    | inl l ↦ rw l w
    | inr l ↦ rw l (
        bind-Holds Within Within (carry_one given p half out e) (carry given p half es)
          (carry_one-Holds out e w (ground (arith, l))) (λ next v. carry-Holds es next v))
  ]
