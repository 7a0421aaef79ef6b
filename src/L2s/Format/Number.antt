-- ===== src/L2s/Format/Number.antt =====
-- Decimal counts of any length: what `l2s_format_count` writes, `l2s_parse_count` reads.
use bxroot.Prelude.{
  ℕ, zero, suc, ◌+◌, ◌-◌, ◌*◌, ◌/◌, ◌%◌, ◌^◌, ◌≤◌, ◌<◌, ◌≡◌, refl, ◌∙◌, inl, inr, true, [], ◌∷◌,
  some, Str, ltb, length, Bool-cases, if◌then◌else◌, ok, fail, arith,
}
use bxroot.L2s.Types.{erange}
use bxroot.L2s.Format.{is_digit, decimal_onto, decimal, parse_count_from, parse_count, format_count}

abbrev limit : ℕ
limit = 429496728

digit_lem : (k : ℕ) → k < 10 → is_digit (b'0' + k) ≡ true
unfolding is_digit
digit_lem k h = ground arith

parse_digit :
    (k v n : ℕ) (acc : Str)
    → k < 10
    → (v * 10 + (b'0' + k - b'0')) % 2 ^ 64 ≡ n
    → parse_count_from ((b'0' + k) ∷ acc) v
      ≡ (if ltb limit v then fail erange else parse_count_from acc n)
unfolding parse_count_from
parse_digit k v n acc h e = rw (digit_lem k h, e)

parse_decimal :
    (f n : ℕ) (acc : Str)
    → n < f
    → n < 2 ^ 64
    → parse_count_from (decimal_onto f n acc) 0
      ≡ (if ltb limit (n / 10) then fail erange else parse_count_from acc n)
unfolding decimal_onto
parse_decimal zero n acc h w = absurd (omega arith)
parse_decimal (suc f) n acc h w = elim (Bool-cases (ltb n 10)) [
  | inl small ↦ rw small (ground (arith, parse_digit n 0 n acc))
  | inr big ↦ rw big (
      ground (
        arith,
        parse_decimal f (n / 10) ((b'0' + n % 10) ∷ acc),
        parse_digit (n % 10) (n / 10) n acc,
      ))
]

length-decimal_onto : (f n : ℕ) (acc : Str) → length acc ≤ length (decimal_onto f n acc)
unfolding decimal_onto
length-decimal_onto zero n acc = omega arith
length-decimal_onto (suc f) n acc =
    ground (arith, length-decimal_onto f (n / 10) ((b'0' + n % 10) ∷ acc))

decimal-not_empty : (n : ℕ) → 0 < length (decimal n)
unfolding decimal decimal_onto
decimal-not_empty n = ground (arith, length-decimal_onto n (n / 10) ((b'0' + n % 10) ∷ []))

parse_count-not_empty : (s : Str) → 0 < length s → parse_count (some s) ≡ parse_count_from s 0
unfolding parse_count
parse_count-not_empty [] h = absurd (omega arith)
parse_count-not_empty (c ∷ s) h = refl

parse_count-decimal :
    (n : ℕ)
    → n < 2 ^ 64
    → parse_count (some (decimal n)) ≡ (if ltb limit (n / 10) then fail erange else ok n)
unfolding decimal parse_count_from
parse_count-decimal n w =
    parse_count-not_empty (decimal n) (decimal-not_empty n)
    ∙ parse_decimal (suc n) n [] (omega arith) w

format_count-decimal :
    (n : ℕ) (outsz : ℕ) {s : Str} → format_count n (some outsz) ≡ ok s → s ≡ decimal n
unfolding format_count
format_count-decimal n outsz h = ground arith

-- `l2s_parse_count` reads back what `l2s_format_count` wrote for an `unsigned long`, and refuses it
-- with L2S_ERANGE exactly when the number without its last digit is above 429496728.
pub parse_count-format_count :
    (n outsz : ℕ) {s : Str}
    → n < 2 ^ 64
    → format_count n (some outsz) ≡ ok s
    → parse_count (some s) ≡ (if ltb 429496728 (n / 10) then fail erange else ok n)
parse_count-format_count n outsz w h = rw (format_count-decimal n outsz h) (parse_count-decimal n w)
