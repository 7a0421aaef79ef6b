-- ===== src/Proc/Env/Forced.antt =====
-- proc.c, px_env_build: the variables that are forced, in the environment that is built.
use mathlib.Core.Path.{subst}
use bxroot.Prelude.{
  ℕ, ◌≡◌, ◌≢◌, refl, sym, ap, ◌∙◌, Bool, Option, none, some, List, [], ◌∷◌, ◌++◌, append-nil,
  append_assoc, Str, Result, ok, >>=-eq-ok,
}
use bxroot.Proc.Env.Laws.{Unset}
use bxroot.Proc.Env.Carried.{Unset-append}
use bxroot.Proc.Env.Merge.{EnvCode}
use bxroot.Proc.Env.Build.{EnvKv, EnvOut, go_on, force_named, force}
use bxroot.Proc.Env.Written.{NoEquals, Others, Writes, other_name, force_one-Writes}

-- The entries that a step adds are of no variable but the one it is for.
abbrev pub Differs : Option Str → Str → Type 0
Differs name wanted = (n : Str) → name ≡ some n → NoEquals n × (n ≢ wanted)

abbrev pub Adds : EnvOut → EnvOut → (Str → Type 0) → Type 0
Adds out next Free =
    (added : List Str) × (next.entries ≡ out.entries ++ added)
    × ((wanted : Str) → NoEquals wanted → Free wanted → Unset wanted added)

abbrev pub Step : EnvOut → Option Str → Option EnvOut → Type 0
Step out name none = Unit
Step out name (some next) = Adds out next (Differs name)

pub Adds-trans :
    (out mid next : EnvOut) (P Q R : Str → Type 0)
    → ((s : Str) → R s → P s)
    → ((s : Str) → R s → Q s)
    → Adds out mid P
    → Adds mid next Q
    → Adds out next R
Adds-trans out mid next P Q R f g (a, e, p) (b, k, q) = (
  a ++ b,
  k ∙ ap (λ es. es ++ b) e ∙ append_assoc out.entries a b,
  λ wanted ne r. Unset-append wanted a b (p wanted ne (f wanted r)) (q wanted ne (g wanted r)),
)

written-Step : (out : EnvOut) (n : Str) (r : Option EnvOut) → Writes out n r → Step out (some n) r
written-Step out n none w = tt
written-Step out n (some next) (v, e) = (
  (n ++ (b'=' ∷ v)) ∷ [],
  e,
  λ wanted ne d. (other_name n wanted v (d n refl).0 ne (d n refl).1, tt),
)

module _ (given : ℕ → Bool) (limit budget : ℕ) (envp : Option (List Str)) where
  pub named-Step :
      (out : EnvOut) (name : Option Str) (kv : EnvKv) (r : Option EnvOut)
      → force_named given limit budget envp out name kv ≡ ok r
      → Step out name r
  named-Step out none kv r h =
      subst (Step out none) {x = some out} (cc)
        ([], sym (append-nil out.entries), λ wanted ne d. tt)
  named-Step out (some n) kv r h =
      written-Step out n r (force_one-Writes given limit budget envp out n kv.value kv.mode r h)

  then-Adds :
      (out : EnvOut) (name : Option Str) (final : EnvOut) (r : Option EnvOut) (Free : Str → Type 0)
      (rest : EnvOut → Result EnvCode EnvOut)
      → ((next : EnvOut) → rest next ≡ ok final → Adds next final Free)
      → Step out name r
      → go_on rest out r ≡ ok final
      → Adds out final (λ wanted. Differs name wanted × Free wanted)
  then-Adds out name final none Free rest later s h =
      subst (λ o. Adds out o (λ wanted. Differs name wanted × Free wanted)) {x = out} {y = final}
        (cc) ([], sym (append-nil out.entries), λ wanted ne d. tt)
  then-Adds out name final (some next) Free rest later s h =
      Adds-trans out next final (Differs name) Free _ (λ x d. d.0) (λ x d. d.1) s (later next h)

  -- What the second pass adds.
  pub force-Adds :
      (kvs : List EnvKv) (out final : EnvOut)
      → force given limit budget envp kvs out ≡ ok final
      → Adds out final (λ wanted. Others wanted kvs)
  unfolding force
  force-Adds [] out final h =
      subst (λ o. Adds out o (λ wanted. Others wanted [])) {x = out} {y = final} (cc)
        ([], sym (append-nil out.entries), λ wanted ne d. tt)
  force-Adds (kv ∷ kvs) out final h =
      let (r, did, rest) = >>=-eq-ok (force_named given limit budget envp out kv.name kv) _ h in
      then-Adds out kv.name final r (λ wanted. Others wanted kvs)
        (λ next. force given limit budget envp kvs next) (λ next e. force-Adds kvs next final e)
        (named-Step out kv.name kv r did) rest
