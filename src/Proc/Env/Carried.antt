-- ===== src/Proc/Env/Carried.antt =====
-- proc.c, px_env_build: the first pass leaves out what is forced.
use bxroot.Prelude.{
  ℕ, ◌+◌, ◌/◌, ◌≡◌, Bool, false, not, ◌||◌, or_first, or_second, Option, none, some, List, [], ◌∷◌,
  ◌++◌, Str, byte_at, length, take, ltb, leb, ◌==◌, Result, ok, fail, Bool-cases, inl, inr,
}
use mathlib.Core.Path.{subst}
use bxroot.Proc.Env.{envp_max, env_entry_matches}
use bxroot.Proc.Env.Laws.{Unset}
use bxroot.Proc.Env.Merge.{EnvCode}
use bxroot.Proc.Env.Build.{
  EnvKv, EnvPolicy, EnvOut, push, passthru_max, fits, dropped_by, forced_by, carry_one, carry,
  carried, limit_of, budget_of,
}
use bxroot.Proc.Env.Fitting.{Holds, bind-Holds}

pub Unset-append : (name : Str) (a b : List Str) → Unset name a → Unset name b → Unset name (a ++ b)
Unset-append name [] b u v = v
Unset-append name (e ∷ a) b u v = (u.0, Unset-append name a b u.1 v)

unforced :
    (before after : List EnvKv) (kv : EnvKv) (e : Str)
    → forced_by (before ++ (kv ∷ after)) e ≡ false
    → env_entry_matches (some e) kv.name ≡ false
unfolding forced_by
unforced [] after kv e h = or_first (env_entry_matches (some e) kv.name) (forced_by after e) h
unforced (b ∷ before) after kv e h =
    unforced before after kv e (or_second (env_entry_matches (some e) b.name) _ h)

module _ (given : ℕ → Bool) (p : EnvPolicy) (before after : List EnvKv) (kv : EnvKv) (name : Str)
    (list : p.forced ≡ before ++ (kv ∷ after)) (named : kv.name ≡ some name) (half : ℕ) where
  abbrev Free : EnvOut → Type 0
  Free out = Unset name out.entries

  no_match :
      (e : Str) → forced_by p.forced e ≡ false → env_entry_matches (some e) (some name) ≡ false
  no_match e h =
      subst (λ n. env_entry_matches (some e) n ≡ false) named
        (unforced before after kv e (subst (λ kvs. forced_by kvs e ≡ false) list h))

  push-Free :
      (out : EnvOut) (e : Str)
      → env_entry_matches (some e) (some name) ≡ false
      → Free out
      → Holds Free (push given out e)
  unfolding push
  push-Free out e other u = elim (Bool-cases (given (length out.entries))) [
    | inl g ↦ rw g (Unset-append name out.entries (e ∷ []) u (other, tt))
    | inr g ↦ rw g tt
  ]

  carry_one-Free : (out : EnvOut) (e : Str) → Free out → Holds Free (carry_one given p half out e)
  unfolding carry_one
  carry_one-Free out e u = elim (Bool-cases (byte_at e 0 == 0)) [
    | inl z ↦ rw z u
    | inr z ↦ elim (Bool-cases (dropped_by p.drops e || forced_by p.forced e)) [
      | inl d ↦ rw (z, d) u
      | inr d ↦ elim (Bool-cases (ltb passthru_max (length e))) [
        | inl l ↦ rw (z, d, l) u
        | inr l ↦ elim (Bool-cases (not (fits half out (length e + 1)))) [
          | inl f ↦ rw (z, d, l, f) u
          | inr f ↦
              rw (z, d, l, f)
                (push-Free out e (no_match e (or_second (dropped_by p.drops e) _ d)) u)
        ]
      ]
    ]
  ]

  carry-Free : (es : List Str) (out : EnvOut) → Free out → Holds Free (carry given p half es out)
  unfolding carry
  carry-Free [] out u = u
  carry-Free (e ∷ es) out u = elim (Bool-cases (leb (limit_of p) (length out.entries))) [
    | inl l ↦ rw l u
    | inr l ↦ rw l (
        bind-Holds Free Free (carry_one given p half out e) (carry given p half es)
          (carry_one-Free out e u) (λ next v. carry-Free es next v))
  ]

-- No entry of the old environment is carried over for a name that is forced.
pub carried-Free :
    (given : ℕ → Bool) (p : EnvPolicy) (envp : Option (List Str)) (before after : List EnvKv)
    (kv : EnvKv) (name : Str)
    → p.forced ≡ before ++ (kv ∷ after)
    → kv.name ≡ some name
    → Holds (λ out. Unset name out.entries) (carried given p envp)
carried-Free given p none before after kv name list named = tt
carried-Free given p (some envp) before after kv name list named =
    carry-Free given p before after kv name list named (budget_of p / 2) (take envp_max envp) _ tt

pub Holds-of :
    {A : Type 0} (P : A → Type 0) (r : Result EnvCode A) (a : A) → Holds P r → r ≡ ok a → P a
Holds-of P (fail code) a h e = absurd (cc)
Holds-of P (ok b) a h e = subst P {x = b} {y = a} (cc) h
