-- ===== src/Proc/Env.antt =====
-- proc.c, §2: looking a variable up in an environment.
pub mod Laws
pub mod Merge
pub mod Build
pub mod Written
pub mod Forced
pub mod Lasting
pub mod Carried
pub mod Fitting
pub mod Bounds
use bxroot.Prelude.{
  ℕ, zero, suc, Bool, true, false, ◌&&◌, ◌+◌, Option, none, some, List, [], ◌∷◌, Str, byte_at,
  starts_with, length, drop, take, ◌==◌, if◌then◌else◌,
}

-- `PX_ENVP_MAX`
abbrev pub envp_max : ℕ
envp_max = 4096

abbrev matches : Str → Str → Bool
matches entry name =
    if byte_at name 0 == 0
    then false
    else if starts_with entry name
    then byte_at entry (length name) == b'='
    else false

unfoldable pub env_entry_matches : Option Str → Option Str → Bool
env_entry_matches none name = false
env_entry_matches (some entry) none = false
env_entry_matches (some entry) (some name) = matches entry name

-- The loop, with what was hit so far. The list ends where the array has its NULL.
unfoldable pub env_lookup_from : Str → List Str → Option Str → Option Str
unfolding env_entry_matches
env_lookup_from name [] hit = hit
env_lookup_from name (entry ∷ rest) hit =
    let found = env_lookup_from name rest (some (drop (suc (length name)) entry)) in
    let lost = env_lookup_from name rest hit in
    if env_entry_matches (some entry) (some name) then found else lost

unfoldable pub env_lookup : Option (List Str) → Option Str → Option Str
unfolding env_lookup_from
env_lookup none name = none
env_lookup (some envp) none = none
env_lookup (some envp) (some name) = env_lookup_from name (take envp_max envp) none
