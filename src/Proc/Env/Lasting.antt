-- ===== src/Proc/Env/Lasting.antt =====
-- proc.c, px_env_build: what the new process finds under the names that are forced.
use mathlib.Core.Path.{subst}
use bxroot.Prelude.{
  ℕ, ◌≤◌, ◌<◌, ◌≡◌, ◌≢◌, refl, sym, ap, ◌∙◌, Bool, true, false, not, Option, none, some, List, [],
  ◌∷◌, ◌++◌, append-nil, append_assoc, Str, byte_at, length, leb, if◌then◌else◌, Result, ok,
  >>=-eq-ok, reject_if, arith,
}
use bxroot.Proc.Env.{envp_max, env_lookup}
use bxroot.Proc.Env.Laws.{Unset, env_lookup-last}
use bxroot.Proc.Env.Carried.{Unset-append, carried-Free, Holds-of}
use bxroot.Proc.Env.Merge.{EnvCode, enomem, text_of, merge_preload}
use bxroot.Proc.Env.Build.{
  EnvMode, set, merge_preloads, EnvKv, EnvPolicy, EnvOut, push_kv, preload_max, carried, force_set,
  force_one, go_on, force_named, force, limit_of, budget_of, env_build,
}
use bxroot.Proc.Env.Written.{NoEquals, Others, force_set-inv, push_kv-entries}
use bxroot.Proc.Env.Forced.{Differs, Adds, Step, Adds-trans, named-Step, force-Adds}

abbrev pub forced_kv : Str → Option Str → EnvKv
forced_kv name value = record { name = some name; value = value; mode = set }

-- The one entry of the variable.
abbrev pub Sole : Str → Option Str → EnvOut → Type 0
Sole name value out =
    (before : List Str) × (after : List Str) × (out.entries
      ≡ before ++ ((name ++ (b'=' ∷ text_of value)) ∷ after))
    × Unset name before
    × Unset name after

module _ (given : ℕ → Bool) (limit budget : ℕ) (envp : Option (List Str)) where
  if-none :
      (out : EnvOut) (name : Str) (value : Option Str) (full : Bool)
      → (if full then ok none else force_set given budget out name value) ≡ ok none
      → full ≡ true
  if-none out name value true h = refl
  if-none out name value false h =
      let (next, pushed, e) = force_set-inv given limit budget envp out name value none h in
      absurd (cc)

  -- The second pass ends early only at the limit.
  one-full :
      (out : EnvOut) (name : Str) (value : Option Str) (mode : EnvMode)
      → force_one given limit budget envp out name value mode ≡ ok none
      → leb limit (length out.entries) ≡ true
  unfolding force_one
  one-full out name value merge_preloads h =
      let (merged, _, after) =
        >>=-eq-ok (merge_preload (env_lookup envp (some name)) value preload_max) _ h in
      let (next, pushed, e) = >>=-eq-ok (push_kv given out name (some merged)) _ after in
      absurd (cc)
  one-full out name value set h = if-none out name value (leb limit (length out.entries)) h

  named-full :
      (out : EnvOut) (name : Option Str) (kv : EnvKv)
      → force_named given limit budget envp out name kv ≡ ok none
      → leb limit (length out.entries) ≡ true
  named-full out none kv h = absurd (cc)
  named-full out (some n) kv h = one-full out n kv.value kv.mode h

  full-clash :
      {A : Type 0} (out final : EnvOut)
      → leb limit (length out.entries) ≡ true
      → ◌≡◌ {A = Result EnvCode EnvOut} (ok out) (ok final)
      → length final.entries < limit
      → A
  full-clash out final full e short =
      let same : out ≡ final = cc in
      let less : length out.entries < limit =
        subst (λ o. length o.entries < limit) (sym same) short in
      absurd (ground (arith, full, less))

  past :
      (kv : EnvKv) (out final : EnvOut) (r : Option EnvOut) (more : EnvOut → Result EnvCode EnvOut)
      → force_named given limit budget envp out kv.name kv ≡ ok r
      → go_on more out r ≡ ok final
      → length final.entries < limit
      → (next : EnvOut) × (r ≡ some next) × (more next ≡ ok final)
  past kv out final none more did later short =
      full-clash out final (named-full out kv.name kv did) later short
  past kv out final (some next) more did later short = (next, refl, later)

  -- Below the limit, the second pass reaches each entry of its list, and what it adds before is of the
  -- variables before.
  reaches :
      (before rest : List EnvKv) (out final : EnvOut)
      → force given limit budget envp (before ++ rest) out ≡ ok final
      → length final.entries < limit
      → (mid : EnvOut) × (force given limit budget envp rest mid ≡ ok final)
        × Adds out mid (λ wanted. Others wanted before)
  unfolding force
  reaches [] rest out final h short =
      (out, h, ([], sym (append-nil out.entries), λ wanted ne o. tt))
  reaches (kv ∷ before) rest out final h short =
      let (r, did, later) = >>=-eq-ok (force_named given limit budget envp out kv.name kv) _ h in
      let (next, is_next, e) =
        past kv out final r (λ o. force given limit budget envp (before ++ rest) o) did later
          short in
      let step =
        subst (Step out kv.name) is_next
          (named-Step given limit budget envp out kv.name kv r did) in
      let (mid, from, adds) = reaches before rest next final e short in
      (
        mid,
        from,
        Adds-trans out next mid (Differs kv.name) (λ wanted. Others wanted before) _ (λ x d. d.0)
            (λ x d. d.1) step adds,
      )

  pushed_if :
      (name : Str) (value : Option Str) (mid next : EnvOut) (full : Bool)
      → (if full then ok none else force_set given budget mid name value) ≡ ok (some next)
      → push_kv given mid name value ≡ ok next
  pushed_if name value mid next true h = absurd (cc)
  pushed_if name value mid next false h =
      let (got, pushed, e) = force_set-inv given limit budget envp mid name value (some next) h in
      subst (λ o. push_kv given mid name value ≡ ok o) {x = got} {y = next} (cc) pushed

  -- The entry itself.
  writes :
      (name : Str) (value : Option Str) (after : List EnvKv) (mid final : EnvOut)
      → force given limit budget envp (forced_kv name value ∷ after) mid ≡ ok final
      → length final.entries < limit
      → (next : EnvOut) × (push_kv given mid name value ≡ ok next)
        × (force given limit budget envp after next ≡ ok final)
  unfolding force force_one
  writes name value after mid final h short =
      let (r, did, later) = >>=-eq-ok (force_one given limit budget envp mid name value set) _ h in
      let (next, is_next, e) =
        past (forced_kv name value) mid final r (λ o. force given limit budget envp after o) did
          later short in
      let is_pushed =
        pushed_if name value mid next (leb limit (length mid.entries)) (did ∙ ap ok is_next) in
      (next, is_pushed, e)

  lasts :
      (name : Str) (value : Option Str) (after : List EnvKv) (mid final : EnvOut)
      → force given limit budget envp (forced_kv name value ∷ after) mid ≡ ok final
      → length final.entries < limit
      → length final.entries ≤ envp_max
      → NoEquals name
      → byte_at name 0 ≢ 0
      → Others name after
      → Unset name mid.entries
      → (env_lookup (some final.entries) (some name) ≡ some (text_of value)) × Sole name value final
  lasts name value after mid final h short fits_in free named others fresh =
      let (next, pushed, e) = writes name value after mid final h short in
      let (added, grown, unset) = force-Adds given limit budget envp after next final e in
      let entry = name ++ (b'=' ∷ text_of value) in
      let all : final.entries ≡ mid.entries ++ (entry ∷ added) =
        grown
        ∙ ap (λ es. es ++ added) (push_kv-entries given mid next name value pushed)
        ∙ append_assoc mid.entries (entry ∷ []) added in
      (
        subst (λ es. env_lookup (some es) (some name) ≡ some (text_of value)) (sym all)
            (env_lookup-last mid.entries added name (text_of value) named (unset name free others)
              (subst (λ es. length es ≤ envp_max) all fits_in)),
        (mid.entries, added, all, fresh, unset name free others),
      )

-- A variable that is forced, not to be merged, is found in the environment that px_env_build makes, with
-- the value that is forced, and has no other entry there, whatever the old environment held: if the
-- result is below the limit of entries and the bound of the lookup, the name is not empty and has no
-- '=', and no other entry of the list is for the same name or has a '=' in its own.
pub env_build-forced :
    (given : ℕ → Bool) (array : Bool) (envp : Option (List Str)) (p : EnvPolicy) (out : EnvOut)
    (before after : List EnvKv) (name : Str) (value : Option Str)
    → p.forced ≡ before ++ (forced_kv name value ∷ after)
    → env_build given array envp (some p) ≡ ok out
    → length out.entries < limit_of p
    → length out.entries ≤ envp_max
    → NoEquals name
    → byte_at name 0 ≢ 0
    → Others name before
    → Others name after
    → (env_lookup (some out.entries) (some name) ≡ some (text_of value)) × Sole name value out
unfolding env_build
env_build-forced given array envp p out before after name value list h short fits_in free named
      earlier others =
    let kv = forced_kv name value in
    let (first, is_first, second) = >>=-eq-ok (carried given p envp) _ h in
    let (final, made, last) =
      >>=-eq-ok (force given (limit_of p) (budget_of p) envp p.forced first) _ second in
    let (done, _, e) = >>=-eq-ok (reject_if (not array) enomem) (λ _. ok final) last in
    let is_out : final ≡ out = cc in
    let all =
      subst (λ kvs. force given (limit_of p) (budget_of p) envp kvs first ≡ ok out) list
        (made ∙ ap ok is_out) in
    let (mid, from, (added, grown, unset)) =
      reaches given (limit_of p) (budget_of p) envp before (kv ∷ after) first out all short in
    let clear =
      Holds-of (λ o. Unset name o.entries) (carried given p envp) first
        (carried-Free given p envp before after kv name list refl) is_first in
    lasts given (limit_of p) (budget_of p) envp name value after mid out from short fits_in free
      named others
      (subst (Unset name) (sym grown)
        (Unset-append name first.entries added clear (unset name free earlier)))
