-- ===== src/L2s/Format.antt =====
-- l2s.c, "Formatting", with its character tests. `snprintf` and the reads of `s[i]` are written out.
pub mod Fixed
pub mod Number
use bxroot.Prelude.{
  ℕ, zero, suc, ◌+◌, ◌-◌, ◌*◌, ◌/◌, ◌%◌, ◌^◌, Bool, true, false, ◌&&◌, ◌||◌, Option, none, some, [],
  ◌∷◌, ◌++◌, Str, byte_at, length, drop, ltb, leb, ◌==◌, if◌then◌else◌, Result, ok, fail,
}
use bxroot.L2s.Types.{Rc, err, enametoolong, erange, Res}

unfoldable pub is_digit : ℕ → Bool
is_digit c = leb b'0' c && leb c b'9'

unfoldable pub is_hex_lower : ℕ → Bool
is_hex_lower c = leb b'0' c && leb c b'9' || (leb b'a' c && leb c b'f')

-- The decimal digits of `value` in front of `acc`: what `%u` and `%lu` print. The fuel `value + 1`
-- is enough, since each step divides by ten.
decimal_onto : ℕ → ℕ → Str → Str
decimal_onto zero value acc = acc
decimal_onto (suc fuel) value acc =
    let rest = decimal_onto fuel (value / 10) ((b'0' + value % 10) ∷ acc) in
    if ltb value 10 then (b'0' + value) ∷ acc else rest

unfoldable pub decimal : ℕ → Str
unfolding decimal_onto
decimal value = decimal_onto (suc value) value []

-- `n` zeros in front of `s`.
unfoldable pub zeros : ℕ → Str → Str
zeros zero s = s
zeros (suc n) s = b'0' ∷ zeros n s

-- What `snprintf(out, outsz, "%0*u", width, value)` prints with room enough.
unfoldable pub zero_padded : ℕ → ℕ → Str
unfolding zeros decimal
zero_padded width value = zeros (width - length (decimal value)) (decimal value)

unfoldable pub format_fixed : ℕ → ℕ → ℕ → Res Str
unfolding zero_padded
format_fixed value width outsz =
    if ltb outsz (width + 1)
    then fail enametoolong
    else if leb outsz (length (zero_padded width value))
    then fail enametoolong
    else ok (zero_padded width value)

-- The loop over `digits` characters; `v` is an `unsigned long` and the result an `unsigned int`.
unfoldable pub parse_fixed_from : ℕ → Str → ℕ → Res ℕ
unfolding is_digit
parse_fixed_from zero s v = ok (v % 2 ^ 32)
parse_fixed_from (suc n) s v =
    let rest = parse_fixed_from n (drop 1 s) ((v * 10 + (byte_at s 0 - b'0')) % 2 ^ 64) in
    if is_digit (byte_at s 0) then rest else fail err

-- Both callers pass pointers that are not NULL.
abbrev pub parse_fixed : Str → ℕ → Res ℕ
parse_fixed s width = parse_fixed_from width s 0

unfoldable pub format_count : ℕ → Option ℕ → Res Str
unfolding decimal
format_count count none = fail err
format_count count (some outsz) =
    if outsz == 0
    then fail err
    else if leb outsz (length (decimal count))
    then fail enametoolong
    else ok (decimal count)

parse_count_from : Str → ℕ → Res ℕ
unfolding is_digit
parse_count_from [] v = ok v
parse_count_from (c ∷ cs) v =
    let rest = parse_count_from cs ((v * 10 + (c - b'0')) % 2 ^ 64) in
    if is_digit c then if ltb ((0xffffffff - 9) / 10) v then fail erange else rest else fail err

-- The `len` bytes at `text` are the list; `none` is a NULL `text`.
unfoldable pub parse_count : Option Str → Res ℕ
unfolding parse_count_from
parse_count none = fail err
parse_count (some []) = fail err
parse_count (some (c ∷ cs)) = parse_count_from (c ∷ cs) 0

unfoldable pub all_hex : ℕ → Str → Bool
unfolding is_hex_lower
all_hex zero s = true
all_hex (suc n) s = is_hex_lower (byte_at s 0) && all_hex n (drop 1 s)

abbrev pub key_len : ℕ
key_len = 16

unfoldable pub is_key16 : Option Str → Bool
unfolding all_hex
is_key16 none = false
is_key16 (some s) = all_hex key_len s && byte_at s key_len == 0
