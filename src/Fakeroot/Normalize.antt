-- ===== src/Fakeroot/Normalize.antt =====
-- fakeroot.c, `fr_normalize_path`: the path under which a file is recorded. The output buffer is given
-- by its size.
pub mod Laws
pub mod Names
pub mod Steps
pub mod Kept
pub mod Fits
mod Tests
use bxroot.Prelude.{
  ℕ, zero, suc, ◌+◌, ◌-◌, Bool, true, false, not, ◌&&◌, ◌||◌, Option, none, some, [], ◌∷◌, ◌++◌,
  Str, byte_at, length, take, ltb, leb, ◌==◌, if◌then◌else◌, Result, ok, fail, ◌>>=◌,
}
use bxroot.Fakeroot.Types.{FrCode, einval, enametoolong}

abbrev pub is_slash : ℕ → Bool
is_slash c = c == b'/'

-- `out[oi - 1] == '/'`
unfoldable pub ends_in_slash : Str → Bool
ends_in_slash [] = false
ends_in_slash (c ∷ []) = is_slash c
ends_in_slash (c ∷ d ∷ s) = ends_in_slash (d ∷ s)

-- `if (oi + 1 >= out_size) return FR_ENAMETOOLONG; out[oi++] = c;`
unfoldable pub put : ℕ → ℕ → Str → Result FrCode Str
put size c out = if leb size (length out + 1) then fail enametoolong else ok (out ++ (c ∷ []))

-- What is carried from one byte to the next: `pending_sep` and what is written.
abbrev pub State : Type 0
State = Bool × Str

-- At a run of slashes.
unfoldable pub at_slash : Bool → ℕ → Bool → Str → Result FrCode State
unfolding put ends_in_slash
at_slash absolute size pending [] =
    if absolute then put size b'/' [] >>= (λ out. ok (pending, out)) else ok (pending, [])
at_slash absolute size pending (c ∷ out) = ok (pending || not (ends_in_slash (c ∷ out)), c ∷ out)

-- At a byte of a name.
unfoldable pub at_byte : ℕ → ℕ → Bool → Str → Result FrCode State
unfolding put
at_byte size c true out =
    put size b'/' out >>= (λ out'. put size c out' >>= (λ out''. ok (false, out'')))
at_byte size c false out = put size c out >>= (λ out'. ok (false, out'))

-- Whether the byte before is a slash: the rest of a run is skipped.
abbrev pub in_run : Option ℕ → Bool
in_run none = false
in_run (some c) = is_slash c

abbrev pub at_start : Option ℕ → Bool
at_start none = true
at_start (some c) = is_slash c

-- A "." that is a whole component, before `next`.
abbrev pub is_dot : Option ℕ → ℕ → Str → Bool
is_dot before c next =
    c == b'.' && at_start before && (length next == 0 || is_slash (byte_at next 0))

unfoldable pub step : Bool → ℕ → Option ℕ → ℕ → Str → State → Result FrCode State
unfolding at_slash at_byte
step absolute size before c next st =
    if is_slash c
    then if in_run before then ok st else at_slash absolute size st.0 st.1
    else if is_dot before c next
    then ok st
    else at_byte size c st.0 st.1

unfoldable pub run : Bool → ℕ → Option ℕ → Str → State → Result FrCode Str
unfolding step
run absolute size before [] st = ok st.1
run absolute size before (c ∷ next) st =
    step absolute size before c next st >>= (λ st'. run absolute size (some c) next st')

-- The loop that takes slashes from the end, with the rounds left.
unfoldable pub trim : ℕ → Str → Str
unfolding ends_in_slash
trim zero out = out
trim (suc n) out =
    let shorter = trim n (take (length out - 1) out) in
    if ltb 1 (length out) && ends_in_slash out then shorter else out

unfoldable pub normalize : Option Str → ℕ → Result FrCode Str
unfolding run trim
normalize none size = fail einval
normalize (some path) size =
    if size == 0
    then fail einval
    else run (is_slash (byte_at path 0)) size none path (false, [])
      >>= (λ out. ok (trim (length out) out))
