-- ===== src/Preload/Binds/Stripping.antt =====
-- preload.c: strip_trailing_slash.
use bxroot.Prelude.{
  ℕ, zero, suc, ◌≡◌, refl, false, [], ◌∷◌, Str, byte_at, has_byte, length, take, Bool-cases, inl,
  inr, arith, ltb, ◌==◌, ◌&&◌,
}
use bxroot.Preload.Binds.{strip_from, strip_trailing_slash}

has_byte-take : (c n : ℕ) (s : Str) → has_byte c s ≡ false → has_byte c (take n s) ≡ false
unfolding has_byte
has_byte-take c zero s h = refl
has_byte-take c (suc n) [] h = refl
has_byte-take c (suc n) (x ∷ s) h = ground (arith, has_byte-take c n s)

strip_from-free : (c n : ℕ) (s : Str) → has_byte c s ≡ false → has_byte c (strip_from n s) ≡ false
unfolding strip_from has_byte
strip_from-free c zero s h = refl
strip_from-free c (suc n) s h = elim (Bool-cases (ltb 1 (suc n) && byte_at s n == b'/')) [
  | inl e ↦ rw e (strip_from-free c n s h)
  | inr e ↦ rw e (has_byte-take c (suc n) s h)
]

pub strip-free :
    (c : ℕ) (s : Str) → has_byte c s ≡ false → has_byte c (strip_trailing_slash s) ≡ false
unfolding strip_trailing_slash
strip-free c s h = strip_from-free c (length s) s h
