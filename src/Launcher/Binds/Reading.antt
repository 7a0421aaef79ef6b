-- ===== src/Launcher/Binds/Reading.antt =====
-- launcher.c and preload.c: the text of BXROOT_BINDS as a whole.
use mathlib.Core.List.{map}
use bxroot.Prelude.{
  ℕ, ◌+◌, ◌≤◌, ◌<◌, ◌≡◌, ◌≢◌, refl, ◌∙◌, true, false, some, List, [], ◌∷◌, ◌++◌, Str, byte_at,
  has_byte, length, ◌==◌, leb, arith, ok, length-append,
}
use bxroot.Preload.Config.{Bind}
use bxroot.Preload.Binds.{
  parse_entries, parse_binds, tokens, doubled, last_byte, max_binds, max_bind_text,
}
use bxroot.Preload.Binds.Texts.{IsPart, doubled-append}
use bxroot.Launcher.Binds.{entry_text, more_text, bind_text, check_need}
use bxroot.Launcher.Binds.Texts.{
  IsEncodable, All, stripped, append_ne, parse_entries-texts, entry_text-IsPart, tokens-more,
  doubled-more, last_byte-more,
}

-- What the text of a table may be, for the run time.
abbrev IsReadable : Str → Type 0
IsReadable s =
    (length s < max_bind_text)
    × ((byte_at s 0 == b';') ≡ false)
    × ((last_byte s == b';') ≡ false)
    × (doubled b';' s ≡ false)

-- The count that is checked is that of the bytes.
check_need-length :
    (need got : ℕ) (binds : List Bind)
    → check_need 1 need binds ≡ ok got
    → need + length (more_text binds) ≡ got
unfolding check_need more_text
check_need-length need got [] h = ground arith
check_need-length need got (b ∷ bs) h = ground (
  arith,
  length-append (entry_text b) (more_text bs),
  check_need-length (need + length (entry_text b) + 1) got bs,
)

check_need-le :
    (separator need got : ℕ) (binds : List Bind)
    → check_need separator need binds ≡ ok got
    → need ≤ max_bind_text
    → got ≤ max_bind_text
unfolding check_need
check_need-le separator need got [] h le = ground arith
check_need-le separator need got (b ∷ bs) h le =
    ground (arith, check_need-le 1 (need + length (entry_text b) + separator) got bs)

bind_text-length :
    (b : Bind) (bs : List Bind) (got : ℕ)
    → check_need 0 1 (b ∷ bs) ≡ ok got
    → length (bind_text (b ∷ bs)) < max_bind_text
unfolding check_need bind_text
bind_text-length b bs got h = ground (
  arith,
  length-append (entry_text b) (more_text bs),
  check_need-length (1 + length (entry_text b) + 0) got bs,
  check_need-le 1 (1 + length (entry_text b) + 0) got bs,
)

readable-parse :
    (s : Str) (entries : List Str) (binds : List Bind)
    → s ≢ []
    → IsReadable s
    → tokens b';' s ≡ entries
    → parse_entries (λ _. true) 0 entries ≡ ok binds
    → parse_binds (λ _. true) (some s) ≡ ok (some binds)
unfolding parse_binds
readable-parse [] entries binds ne r t p = absurd (ne refl)
readable-parse (c ∷ s) entries binds ne (short, first, last, single) t p =
    let fits : leb max_bind_text (length (c ∷ s)) ≡ false = ground arith in
    rw (fits, first, last, single, t, p) refl

first_of_part : (a b : Str) → IsPart b';' a → (byte_at (a ++ b) 0 == b';') ≡ false
unfolding has_byte
first_of_part [] b p = absurd (p.0 refl)
first_of_part (x ∷ a) b p = ground (arith, p.1)

-- What the run time makes of the text that the launcher wrote.
pub read_back :
    (b : Bind) (bs : List Bind) (got : ℕ)
    → All IsEncodable (b ∷ bs)
    → length (b ∷ bs) ≤ max_binds
    → check_need 0 1 (b ∷ bs) ≡ ok got
    → parse_binds (λ _. true) (some (bind_text (b ∷ bs))) ≡ ok (some (map stripped (b ∷ bs)))
unfolding bind_text
read_back b bs got e room checked =
    let part = entry_text-IsPart b e.0 in
    readable-parse (bind_text (b ∷ bs)) (map entry_text (b ∷ bs)) (map stripped (b ∷ bs))
      (append_ne (entry_text b) (more_text bs) part.0)
      (
        bind_text-length b bs got checked,
        first_of_part (entry_text b) (more_text bs) part,
        last_byte-more (entry_text b) bs part e.1,
        doubled-append b';' (entry_text b) (more_text bs) part.1 ∙ doubled-more bs e.1,
      )
      (tokens-more (entry_text b) bs part e.1) (parse_entries-texts (b ∷ bs) 0 e (omega arith))
