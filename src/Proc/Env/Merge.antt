-- ===== src/Proc/Env/Merge.antt =====
-- proc.c, §2: px_merge_preload, which puts the library in front of what LD_PRELOAD held.
pub mod Extending
use bxroot.Prelude.{
  ℕ, ◌+◌, ◌≤◌, ◌<◌, ◌≡◌, refl, sym, ◌∙◌, Bool, true, false, ◌||◌, Option, none, some, List, [], ◌∷◌,
  ◌++◌, append-nil, append_assoc, Str, byte_at, str_eq, has_byte, length, length-append, ltb, leb,
  ◌==◌, if◌then◌else◌, Result, ok, fail, Bool-cases, or_second, ◌⊎◌, inl, inr, arith,
}

-- The codes of the environment's functions
pub data EnvCode : Type 0 where
  einval enomem etoolong enospc : EnvCode

abbrev pub text_of : Option Str → Str
text_of none = []
text_of (some s) = s

-- What stands behind the last slash, or the whole.
unfoldable pub base_name : Str → Str
base_name [] = []
base_name (c ∷ s) =
    let rest = base_name s in if has_byte b'/' s then rest else if c == b'/' then s else c ∷ s

abbrev is_separator : ℕ → Bool
is_separator c = c == b' ' || c == b':' || c == 9

-- The parts between separators; the loop passes over an empty one.
unfoldable pub segments : Str → List Str
segments [] = [] ∷ []
segments (c ∷ s) =
    let rest = segments s in
    if is_separator c then [] ∷ rest else elim rest [ [] ↦ (c ∷ []) ∷ [] | p ∷ ps ↦ (c ∷ p) ∷ ps ]

-- The same path, or the same name in another directory.
unfoldable pub is_dup : Str → Str → Bool
unfolding base_name str_eq
is_dup base segment = str_eq segment base || str_eq (base_name base) (base_name segment)

unfoldable pub merge_from : ℕ → Str → List Str → Str → Str
merge_from size base [] out = out
merge_from size base (segment ∷ rest) out =
    let passed = merge_from size base rest out in
    let added = merge_from size base rest (out ++ (b' ' ∷ segment)) in
    if length segment == 0 || is_dup base segment
    then passed
    else if ltb size (length out + 1 + length segment + 1)
    then out
    else added

abbrev pub no_list : Option Str → Bool
no_list none = true
no_list (some s) = byte_at s 0 == 0

unfoldable pub merge_preload : Option Str → Option Str → ℕ → Result EnvCode Str
merge_preload existing ours size =
    let base = text_of ours in
    if size == 0
    then fail einval
    else if no_list existing || length base == 0
    then (if ltb size (length base + 1) then fail enospc else ok base)
    else if leb size (length base)
    then fail enospc
    else ok (merge_from size base (segments (text_of existing)) base)
