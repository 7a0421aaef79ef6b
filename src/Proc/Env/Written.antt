-- ===== src/Proc/Env/Written.antt =====
-- proc.c, px_env_build: the entries that the second pass writes.
use mathlib.Core.Path.{subst}
use bxroot.Prelude.{
  ℕ, ◌+◌, ◌≡◌, ◌≢◌, refl, Bool, true, false, not, Option, none, some, List, [], ◌∷◌, ◌++◌, Str,
  byte_at, starts_with, has_byte, length, ltb, leb, ◌==◌, if◌then◌else◌, Result, ok, >>=-eq-ok,
  reject_if, Bool-cases, inl, inr, arith,
}
use bxroot.Proc.Env.{env_entry_matches, env_lookup}
use bxroot.Proc.Env.Merge.{EnvCode, etoolong, enospc, text_of, merge_preload}
use bxroot.Proc.Env.Build.{
  EnvMode, set, merge_preloads, EnvKv, EnvOut, push, push_kv, fits, entry_max, preload_max,
  force_set, force_one,
}

abbrev pub NoEquals : Str → Type 0
NoEquals name = has_byte b'=' name ≡ false

-- A name is read off an entry in one way.
same_name :
    (n name v : Str)
    → NoEquals n
    → NoEquals name
    → starts_with (n ++ (b'=' ∷ v)) name ≡ true
    → (byte_at (n ++ (b'=' ∷ v)) (length name) == b'=') ≡ true
    → n ≡ name
unfolding starts_with has_byte
same_name [] [] v p q s e = refl
same_name [] (c ∷ name) v p q s e = ground (arith, q, s)
same_name (d ∷ n) [] v p q s e = ground (arith, p, e)
same_name (d ∷ n) (c ∷ name) v p q s e = ground (arith, p, q, s, same_name n name v)

pub other_name :
    (n name v : Str)
    → NoEquals n
    → NoEquals name
    → n ≢ name
    → env_entry_matches (some (n ++ (b'=' ∷ v))) (some name) ≡ false
unfolding env_entry_matches
other_name n name v p q ne = ground (
  arith,
  λ (s : starts_with (n ++ (b'=' ∷ v)) name ≡ true)
        (e : (byte_at (n ++ (b'=' ∷ v)) (length name) == b'=') ≡ true).
      ne (same_name n name v p q s e),
)

-- Entries that are written for other variables than the one of that name.
abbrev pub Others : Str → List EnvKv → Type 0
Others name [] = Unit
Others name (kv ∷ kvs) = ((n : Str) → kv.name ≡ some n → NoEquals n × (n ≢ name)) × Others name kvs

push-entries :
    (given : ℕ → Bool) (out next : EnvOut) (e : Str)
    → push given out e ≡ ok next
    → next.entries ≡ out.entries ++ (e ∷ [])
unfolding push
push-entries given out next e h = elim (Bool-cases (given (length out.entries))) [
  | inl g ↦ ground (arith, h, g)
  | inr g ↦ ground (arith, h, g)
]

pub push_kv-entries :
    (given : ℕ → Bool) (out next : EnvOut) (name : Str) (value : Option Str)
    → push_kv given out name value ≡ ok next
    → next.entries ≡ out.entries ++ ((name ++ (b'=' ∷ text_of value)) ∷ [])
unfolding push_kv
push_kv-entries given out next name value h =
    let (done, checked, pushed) =
      >>=-eq-ok (reject_if (ltb entry_max (length name + 1 + length (text_of value))) etoolong) _
        h in
    push-entries given out next (name ++ (b'=' ∷ text_of value)) pushed

-- What a step of the second pass writes, if it writes.
abbrev pub Writes : EnvOut → Str → Option EnvOut → Type 0
Writes out name none = Unit
Writes out name (some next) =
    (v : Str) × (next.entries ≡ out.entries ++ ((name ++ (b'=' ∷ v)) ∷ []))

Writes-of :
    (out : EnvOut) (name : Str) (next : EnvOut) (r : Option EnvOut)
    → ◌≡◌ {A = Result EnvCode (Option EnvOut)} (ok (some next)) (ok r)
    → Writes out name (some next)
    → Writes out name r
Writes-of out name next r e written = subst (Writes out name) {x = some next} (cc) written

module _ (given : ℕ → Bool) (limit budget : ℕ) (envp : Option (List Str)) where
  pub force_set-inv :
      (out : EnvOut) (name : Str) (value : Option Str) (r : Option EnvOut)
      → force_set given budget out name value ≡ ok r
      → (next : EnvOut) × (push_kv given out name value ≡ ok next)
        × (◌≡◌ {A = Result EnvCode (Option EnvOut)} (ok (some next)) (ok r))
  force_set-inv out name value r h =
      let need = length name + 1 + length (text_of value) + 1 in
      let (done, checked, after) = >>=-eq-ok (reject_if (not (fits budget out need)) enospc) _ h in
      >>=-eq-ok (push_kv given out name value) (λ next. ok (some next)) after

  set-Writes :
      (out : EnvOut) (name : Str) (value : Option Str) (r : Option EnvOut) (full : Bool)
      → (if full then ok none else force_set given budget out name value) ≡ ok r
      → Writes out name r
  set-Writes out name value r true h = subst (Writes out name) {x = none} (cc) tt
  set-Writes out name value r false h =
      let (next, pushed, e) = force_set-inv out name value r h in
      Writes-of out name next r e (text_of value, push_kv-entries given out next name value pushed)

  pub force_one-Writes :
      (out : EnvOut) (name : Str) (value : Option Str) (mode : EnvMode) (r : Option EnvOut)
      → force_one given limit budget envp out name value mode ≡ ok r
      → Writes out name r
  unfolding force_one
  force_one-Writes out name value merge_preloads r h =
      let (merged, _, after) =
        >>=-eq-ok (merge_preload (env_lookup envp (some name)) value preload_max) _ h in
      let (next, pushed, e) = >>=-eq-ok (push_kv given out name (some merged)) _ after in
      Writes-of out name next r e (merged, push_kv-entries given out next name (some merged) pushed)
  force_one-Writes out name value set r h =
      set-Writes out name value r (leb limit (length out.entries)) h
