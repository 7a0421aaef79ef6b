-- ===== src/Proc/Env/Merge/Extending.antt =====
-- proc.c: what px_merge_preload puts behind the library.
use bxroot.Prelude.{
  ℕ, ◌+◌, ◌≤◌, ◌<◌, ◌≡◌, ◌≢◌, ◌||◌, Option, List, [], ◌∷◌, ◌++◌, Str, length, ◌==◌, if◌then◌else◌,
  Result, ok, fail, ◌⊎◌,
}
use bxroot.Proc.Env.Merge.{EnvCode, einval, enospc, text_of, base_name, segments, is_dup, no_list}

-- A text of further paths, each behind a blank.
abbrev pub listed : List Str → Str
listed [] = []
listed (s ∷ ss) = b' ' ∷ (s ++ listed ss)

-- None has the path or the file name of the library.
abbrev pub Foreign : Str → List Str → Type 0
Foreign base [] = Unit
Foreign base (s ∷ ss) = ((s ≢ base) × (base_name base ≢ base_name s)) × Foreign base ss

-- The paths that are not empty and not the library, in their order.
unfoldable pub kept : Str → List Str → List Str
kept base [] = []
kept base (s ∷ ss) =
    let more = kept base ss in if length s == 0 || is_dup base s then more else s ∷ more

-- Nothing is left, or the next path does not fit.
abbrev pub Stopped : ℕ → Str → List Str → Type 0
Stopped size result [] = Unit
Stopped size result (s ∷ ss) = size < length result + 1 + length s + 1

-- What the loop makes of a text that fits.
pub record Extends (size : ℕ) (base out result : Str) (wanted : List Str) : Type 0 where
  pub more : List Str
  pub left : List Str
  pub parts : wanted ≡ more ++ left
  pub text : result ≡ out ++ listed more
  pub foreign : Foreign base more
  pub stopped : Stopped size result left
  pub fits : length result < size

-- The paths that the variable held.
abbrev pub wanted_of : Option Str → Str → List Str
wanted_of existing base = if no_list existing then [] else kept base (segments (text_of existing))

-- How px_merge_preload ends.
abbrev pub Merged : Option Str → ℕ → Str → Result EnvCode Str → Type 0
Merged existing size base (fail code) =
    ((code ≡ einval) × (size ≡ 0)) ⊎ ((code ≡ enospc) × (size ≤ length base))
Merged existing size base (ok out) =
    ((base ≡ []) × (out ≡ [])) ⊎ Extends size base base out (wanted_of existing base)
