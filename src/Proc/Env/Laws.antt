-- ===== src/Proc/Env/Laws.antt =====
-- Which entry a lookup takes.
use bxroot.Prelude.{
  ◌≤◌, ◌≡◌, refl, ap, ◌∙◌, true, false, Option, none, some, List, [], ◌∷◌, ◌++◌, Str, byte_at,
  length, take_enough, Bool-cases, inl, inr, ◌≢◌, drop-append_cons, byte_at-append,
  starts_with-append, arith,
}
use bxroot.Proc.Env.{envp_max, env_entry_matches, env_lookup_from, env_lookup}

-- None of the entries is one of the variable.
abbrev pub Unset : Str → List Str → Type 0
Unset name [] = Unit
Unset name (entry ∷ rest) = (env_entry_matches (some entry) (some name) ≡ false) × Unset name rest

keeps_hit :
    (name : Str) (entries : List Str) (hit : Option Str)
    → Unset name entries
    → env_lookup_from name entries hit ≡ hit
unfolding env_lookup_from
keeps_hit name [] hit u = refl
keeps_hit name (entry ∷ rest) hit u = rw u.0 (keeps_hit name rest hit u.1)

lookup-append :
    (name : Str) (before after : List Str) (hit : Option Str)
    → env_lookup_from name (before ++ after) hit
      ≡ env_lookup_from name after (env_lookup_from name before hit)
unfolding env_lookup_from
lookup-append name [] after hit = refl
lookup-append name (entry ∷ before) after hit =
    elim (Bool-cases (env_entry_matches (some entry) (some name))) [
      | inl e ↦ rw e (lookup-append name before after _)
      | inr e ↦ rw e (lookup-append name before after hit)
    ]

entry_matches :
    (name value : Str)
    → byte_at name 0 ≢ 0
    → env_entry_matches (some (name ++ (b'=' ∷ value))) (some name) ≡ true
unfolding env_entry_matches
entry_matches name value named =
    rw (starts_with-append name (b'=' ∷ value), byte_at-append name (b'=' ∷ value)) (ground arith)

entry_hits :
    (name value : Str) (after : List Str) (hit : Option Str)
    → byte_at name 0 ≢ 0
    → env_lookup_from name ((name ++ (b'=' ∷ value)) ∷ after) hit
      ≡ env_lookup_from name after (some value)
unfolding env_lookup_from
entry_hits name value after hit named =
    rw (entry_matches name value named, drop-append_cons name b'=' value) refl

-- The last entry of a variable is the one that is taken, whatever stands before it, if the environment
-- is within its bound.
pub env_lookup-last :
    (before after : List Str) (name value : Str)
    → byte_at name 0 ≢ 0
    → Unset name after
    → length (before ++ ((name ++ (b'=' ∷ value)) ∷ after)) ≤ envp_max
    → env_lookup (some (before ++ ((name ++ (b'=' ∷ value)) ∷ after))) (some name) ≡ some value
unfolding env_lookup
env_lookup-last before after name value named unset fits =
    let entry = name ++ (b'=' ∷ value) in
    ap (λ es. env_lookup_from name es none) (take_enough envp_max (before ++ (entry ∷ after)) fits)
    ∙ lookup-append name before (entry ∷ after) none
    ∙ entry_hits name value after _ named
    ∙ keeps_hit name after (some value) unset

-- A variable with no entry is not found.
pub env_lookup-Unset :
    (name : Str) (envp : List Str)
    → Unset name envp
    → length envp ≤ envp_max
    → env_lookup (some envp) (some name) ≡ none
unfolding env_lookup
env_lookup-Unset name envp unset fits =
    ap (λ es. env_lookup_from name es none) (take_enough envp_max envp fits)
    ∙ keeps_hit name envp none unset
