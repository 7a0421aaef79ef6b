-- ===== src/L2s/Meta/Laws.antt =====
-- Keys: sixteen hexadecimal characters, as different as the hashes that they print.
use bxroot.Prelude.{
  ℕ, zero, suc, ◌+◌, ◌*◌, ◌/◌, ◌%◌, ◌^◌, ◌<◌, ◌≡◌, ◌↔◌, refl, sym, ap, ◌∙◌, true, [], ◌∷◌, Option,
  none, some, Str, byte_at, length, take, get_or_past, leb, ◌==◌, ◌-◌, ==_iff, if◌then◌else◌, codes,
  all_below, all_below_sound, arith,
}
use bxroot.L2s.Path.{text_or_empty}
use bxroot.L2s.Format.{is_hex_lower, all_hex, key_len, is_key16}
use bxroot.L2s.Meta.{djb2_from, djb2, hex_digits, key_onto, key16}

djb2_from-lt : (h : ℕ) (s : Str) → h < 2 ^ 32 → djb2_from h s < 2 ^ 32
unfolding djb2_from
djb2_from-lt h [] l = l
djb2_from-lt h (c ∷ s) l = djb2_from-lt ((h + h * 32 % 2 ^ 32 + c) % 2 ^ 32) s (omega arith)

pub djb2-lt : (s : Option Str) → djb2 s < 2 ^ 32
unfolding djb2
djb2-lt none = omega arith
djb2-lt (some s) = djb2_from-lt 5381 s (omega arith)

length-key_onto : (n h : ℕ) (acc : Str) → length (key_onto n h acc) ≡ n + length acc
unfolding key_onto
length-key_onto zero h acc = omega arith
length-key_onto (suc n) h acc =
    omega (arith, length-key_onto n (h / 16) (byte_at hex_digits (h % 16) ∷ acc))

pub length-key16 : (b : Option Str) → length (key16 b) ≡ key_len
unfolding key16
length-key16 b = length-key_onto 16 (djb2 (some (text_or_empty b))) []

hex_table : all_below 16 (λ v. is_hex_lower (byte_at hex_digits v)) ≡ true
unfolding all_below is_hex_lower
hex_table = refl

hex_digit : (v : ℕ) → v < 16 → is_hex_lower (byte_at hex_digits v) ≡ true
hex_digit v h = all_below_sound 16 (λ v. is_hex_lower (byte_at hex_digits v)) v hex_table h

-- The value of a hexadecimal character.
abbrev unhex : ℕ → ℕ
unhex c = if leb c b'9' then c - b'0' else c + 10 - b'a'

unhex_table : all_below 16 (λ v. unhex (byte_at hex_digits v) == v) ≡ true
unfolding all_below
unhex_table = refl

unhex_digit : (v : ℕ) → v < 16 → unhex (byte_at hex_digits v) ≡ v
unhex_digit v h =
    (==_iff _ v).0 (all_below_sound 16 (λ v. unhex (byte_at hex_digits v) == v) v unhex_table h)

all_hex-cons :
    (m h : ℕ) (acc : Str)
    → all_hex m acc ≡ true
    → all_hex (suc m) (byte_at hex_digits (h % 16) ∷ acc) ≡ true
unfolding all_hex
all_hex-cons m h acc a = rw (hex_digit (h % 16) (omega arith), a)

all_hex_none : all_hex 0 [] ≡ true
unfolding all_hex
all_hex_none = refl

all_hex-key_onto :
    (n m h : ℕ) (acc : Str) → all_hex m acc ≡ true → all_hex (n + m) (key_onto n h acc) ≡ true
unfolding key_onto
all_hex-key_onto zero m h acc a = let e : 0 + m ≡ m = omega arith in rw e a
all_hex-key_onto (suc n) m h acc a =
    let e : suc n + m ≡ n + suc m = omega arith in
    rw e (
      all_hex-key_onto n (suc m) (h / 16) (byte_at hex_digits (h % 16) ∷ acc)
        (all_hex-cons m h acc a))

pub all_hex-key16 : (b : Option Str) → all_hex key_len (key16 b) ≡ true
unfolding key16
all_hex-key16 b = all_hex-key_onto 16 0 (djb2 (some (text_or_empty b))) [] all_hex_none

-- `l2s_key16` writes a key: sixteen lower-case hexadecimal characters and the terminator.
pub is_key16-key16 : (b : Option Str) → is_key16 (some (key16 b)) ≡ true
unfolding is_key16
is_key16-key16 b = rw (all_hex-key16 b, get_or_past (key16 b) 16 0 (omega (arith, length-key16 b)))

-- The lowest `n` nibbles agree.
abbrev SameNibbles : ℕ → ℕ → ℕ → Type 0
SameNibbles zero g h = Unit
SameNibbles (suc n) g h = (g % 16 ≡ h % 16) × SameNibbles n (g / 16) (h / 16)

hex_digit-injective :
    (v w : ℕ) → v < 16 → w < 16 → byte_at hex_digits v ≡ byte_at hex_digits w → v ≡ w
hex_digit-injective v w hv hw e = sym (unhex_digit v hv) ∙ ap unhex e ∙ unhex_digit w hw

key_onto-injective :
    (n g h : ℕ) (a b : Str) → key_onto n g a ≡ key_onto n h b → SameNibbles n g h × (a ≡ b)
unfolding key_onto
key_onto-injective zero g h a b e = (tt, e)
key_onto-injective (suc n) g h a b e =
    let (same, tails) = key_onto-injective n (g / 16) (h / 16) _ _ e in
    let low : byte_at hex_digits (g % 16) ≡ byte_at hex_digits (h % 16) = cc tails in
    ((hex_digit-injective (g % 16) (h % 16) (omega arith) (omega arith) low, same), cc tails)

SameNibbles-eq : (g h : ℕ) → g < 2 ^ 32 → h < 2 ^ 32 → SameNibbles 16 g h → g ≡ h
SameNibbles-eq g h lg lh s = omega (
  arith, s.0, s.1.0, s.1.1.0, s.1.1.1.0, s.1.1.1.1.0, s.1.1.1.1.1.0, s.1.1.1.1.1.1.0,
  s.1.1.1.1.1.1.1.0,
)

-- Two base names have one key exactly when their hashes agree: the key loses nothing of the hash.
pub key16-eq_iff : (a b : Str) → (key16 (some a) ≡ key16 (some b)) ↔ (djb2 (some a) ≡ djb2 (some b))
unfolding key16
key16-eq_iff a b = (
  λ e.
      SameNibbles-eq _ _ (djb2-lt (some a)) (djb2-lt (some b))
        (key_onto-injective 16 (djb2 (some a)) (djb2 (some b)) [] [] e).0,
  λ e. ap (λ h. key_onto 16 h []) e,
)

high_zero : (h : ℕ) → h < 2 ^ 32 → take 8 (key_onto 16 h []) ≡ codes "00000000"
unfolding key_onto
high_zero h l = let e : h / 16 / 16 / 16 / 16 / 16 / 16 / 16 / 16 ≡ 0 = omega arith in rw e

-- Its first eight characters are always zeros, since the hash has 32 bits.
pub key16_high : (b : Option Str) → take 8 (key16 b) ≡ codes "00000000"
unfolding key16
key16_high b = high_zero (djb2 (some (text_or_empty b))) (djb2-lt (some (text_or_empty b)))
