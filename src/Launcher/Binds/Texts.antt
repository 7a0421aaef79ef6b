-- ===== src/Launcher/Binds/Texts.antt =====
-- launcher.c and preload.c: one entry of BXROOT_BINDS, as it is written and as it is read.
use mathlib.Core.List.{map}
use bxroot.Prelude.{
  ℕ, suc, ◌+◌, ◌≤◌, ◌≡◌, ◌≢◌, refl, ap, ◌∙◌, Bool, true, false, List, [], ◌∷◌, ◌++◌, append-nil,
  if◌then◌else◌, Str, codes, has_byte, length, ◌==◌, leb, arith, ok, ◌>>=◌, has_byte-append_false,
}
use bxroot.Preload.Config.{Bind}
use bxroot.Preload.Binds.{
  entry_of, target_of, strip_trailing_slash, parse_target, store_bind, parse_entry, parse_entries,
  tokens, doubled, last_byte, max_binds,
}
use bxroot.Preload.Binds.Texts.{
  IsPart, cut-append, cut-none, tokens-append, tokens_one, doubled_at, last_byte-append,
  last_byte_of_part,
}
use bxroot.Launcher.Binds.{entry_text, more_text}

pub append_ne : (a b : Str) → a ≢ [] → a ++ b ≢ []
append_ne [] b h e = absurd (h refl)
append_ne (x ∷ a) b h e = cc

IsPart-append : (a b : Str) → IsPart b';' a → has_byte b';' b ≡ false → IsPart b';' (a ++ b)
IsPart-append a b p free = (append_ne a b p.0, has_byte-append_false b';' a b p.1 free)

-- Neither separator occurs, and it is not empty.
abbrev pub IsPlain : Str → Type 0
IsPlain s = IsPart b';' s × (has_byte b':' s ≡ false)

pub record IsEncodable (b : Bind) : Type 0 where
  pub source_plain : IsPlain b.source
  pub target_plain : IsPlain b.target

abbrev pub All : (Bind → Type 0) → List Bind → Type 0
All P [] = Unit
All P (b ∷ bs) = P b × All P bs

abbrev pub stripped : Bind → Bind
stripped b = record b {
  source = strip_trailing_slash b.source;
  target = strip_trailing_slash b.target;
}

store-stripped :
    (s t : Str) (ro : Bool)
    → s ≢ []
    → t ≢ []
    → store_bind true s (t, ro) ≡ ok (stripped (record { source = s; target = t; readonly = ro }))
unfolding store_bind
store-stripped [] t ro p q = absurd (p refl)
store-stripped (x ∷ s) [] ro p q = absurd (q refl)
store-stripped (x ∷ s) (y ∷ t) ro p q = refl

parse_target-text :
    (t : Str) (ro : Bool)
    → has_byte b':' t ≡ false
    → parse_target (t ++ (if ro then codes ":ro" else [])) ≡ ok (t, ro)
unfolding parse_target
parse_target-text t true h = ap (target_of _) (cut-append b':' t (codes "ro") h)
parse_target-text t false h = rw (append-nil t) (ap (target_of t) (cut-none b':' t h))

parse_entry-text : (b : Bind) → IsEncodable b → parse_entry true (entry_text b) ≡ ok (stripped b)
unfolding parse_entry
parse_entry-text b e =
    let behind = b.target ++ (if b.readonly then codes ":ro" else []) in
    ap (entry_of true) (cut-append b':' b.source behind e.source_plain.1)
    ∙ ap (λ r. r >>= store_bind true b.source)
        (parse_target-text b.target b.readonly e.target_plain.1)
    ∙ store-stripped b.source b.target b.readonly e.source_plain.0.0 e.target_plain.0.0

pub parse_entries-texts :
    (binds : List Bind) (count : ℕ)
    → All IsEncodable binds
    → count + length binds ≤ max_binds
    → parse_entries (λ _. true) count (map entry_text binds) ≡ ok (map stripped binds)
unfolding parse_entries
parse_entries-texts [] count e room = refl
parse_entries-texts (b ∷ bs) count e room =
    let open_slot : leb max_binds count ≡ false = ground arith in
    rw (open_slot, parse_entry-text b e.0, parse_entries-texts bs (suc count) e.1 (omega arith))
      refl

flag_free : (ro : Bool) → has_byte b';' (if ro then codes ":ro" else []) ≡ false
unfolding has_byte
flag_free true = refl
flag_free false = refl

pub entry_text-IsPart : (b : Bind) → IsEncodable b → IsPart b';' (entry_text b)
unfolding has_byte
entry_text-IsPart b e = IsPart-append b.source _ e.source_plain.0 (
    has_byte-append_false b';' (b':' ∷ b.target) (if b.readonly then codes ":ro" else [])
      e.target_plain.0.1 (flag_free b.readonly))

pub tokens-more :
    (a : Str) (binds : List Bind)
    → IsPart b';' a
    → All IsEncodable binds
    → tokens b';' (a ++ more_text binds) ≡ a ∷ map entry_text binds
unfolding more_text
tokens-more a [] p e = rw (append-nil a) (tokens_one b';' a p)
tokens-more a (b ∷ bs) p e =
    tokens-append b';' a (entry_text b ++ more_text bs) p
    ∙ ap (λ ts. a ∷ ts) (tokens-more (entry_text b) bs (entry_text-IsPart b e.0) e.1)

pub doubled-more :
    (binds : List Bind) → All IsEncodable binds → doubled b';' (more_text binds) ≡ false
unfolding more_text doubled
doubled-more [] e = refl
doubled-more (b ∷ bs) e =
    doubled_at b';' (entry_text b) (more_text bs) (entry_text-IsPart b e.0) ∙ doubled-more bs e.1

pub last_byte-more :
    (a : Str) (binds : List Bind)
    → IsPart b';' a
    → All IsEncodable binds
    → (last_byte (a ++ more_text binds) == b';') ≡ false
unfolding more_text
last_byte-more a [] p e = rw (append-nil a) (last_byte_of_part b';' a p)
last_byte-more a (b ∷ bs) p e =
    let here = entry_text-IsPart b e.0 in
    let rest = entry_text b ++ more_text bs in
    rw
      (
        last_byte-append a (b';' ∷ rest) (λ z. cc),
        last_byte-append (b';' ∷ []) rest (append_ne (entry_text b) (more_text bs) here.0),
      )
      (last_byte-more (entry_text b) bs here e.1)
