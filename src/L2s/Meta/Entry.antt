-- ===== src/L2s/Meta/Entry.antt =====
-- The entries that `l2s_meta_entry` names are recognised.
use bxroot.Prelude.{
  ℕ, suc, ◌<◌, ◌≡◌, refl, ap, ◌∙◌, Bool, true, false, [], ◌∷◌, ◌++◌, Option, some, Str, codes,
  has_byte, starts_with, length, drop, take_all, ◌==◌, ok, fail, >>=-eq-ok, arith, zero,
  append_assoc,
}
use bxroot.L2s.Types.{Rc, Kind, group, member, Config}
use bxroot.L2s.Path.{split, join, separator}
use bxroot.L2s.Path.Laws.{
  joined, join-joined, IsComponent, Parts-joined, split-Parts, long-not_dots,
}
use bxroot.L2s.Format.{all_hex, is_hex_lower, key_len}
use bxroot.L2s.Name.{
  hex_head, parse_proroot_meta_name, proroot_info, match_prefix, parse_l2s_name, classify,
}
use bxroot.L2s.Meta.{key16, check_entry, append_key, meta_entry}
use bxroot.L2s.Meta.Laws.{all_hex-key16, length-key16}

-- The two prefixes of an entry and the kinds that they stand for.
abbrev pub entry_prefix : Bool → Str
entry_prefix true = codes "g_"
entry_prefix false = codes "m_"

abbrev pub entry_kind : Bool → Kind
entry_kind true = group
entry_kind false = member

hex_head-all_hex : (n : ℕ) (s : Str) → hex_head n s ≡ all_hex n s
unfolding hex_head all_hex
hex_head-all_hex zero s = refl
hex_head-all_hex (suc n) s = rw (hex_head-all_hex n (drop 1 s))

parse_meta_lem :
    (g : Bool) (key : Str)
    → length key ≡ key_len
    → all_hex key_len key ≡ true
    → parse_proroot_meta_name (some (entry_prefix g ++ key)) ≡ ok (proroot_info (entry_kind g) key)
unfolding parse_proroot_meta_name
parse_meta_lem true key size hex =
    ground (arith, hex_head-all_hex key_len key, take_all key_len key)
parse_meta_lem false key size hex =
    ground (arith, hex_head-all_hex key_len key, take_all key_len key)

hex_not_slash : (c : ℕ) → is_hex_lower c ≡ true → (c == b'/') ≡ false
unfolding is_hex_lower
hex_not_slash c h = ground arith

all_hex_free : (n : ℕ) (s : Str) → length s ≡ n → all_hex n s ≡ true → has_byte b'/' s ≡ false
unfolding all_hex has_byte
all_hex_free zero [] e h = refl
all_hex_free zero (x ∷ s) e h = absurd (omega arith)
all_hex_free (suc n) [] e h = absurd (omega arith)
all_hex_free (suc n) (x ∷ s) e h = ground (arith, hex_not_slash x, all_hex_free n s)

entry_free :
    (g : Bool) (key : Str)
    → has_byte b'/' key ≡ false
    → has_byte b'/' (entry_prefix g ++ key) ≡ false
unfolding has_byte
entry_free true key h = h
entry_free false key h = h

-- An entry does not begin with a prefix of the other scheme.
parse_l2s_name-entry :
    (cfg : Option Config) (want : Bool) (g : Bool) (key : Str)
    → parse_l2s_name cfg want (some (entry_prefix g ++ key)) ≡ fail Rc.enotl2s
unfolding parse_l2s_name match_prefix starts_with
parse_l2s_name-entry cfg want true key = ground arith
parse_l2s_name-entry cfg want false key = ground arith

classify-entry :
    (cfg : Option Config) (want : Bool) (g : Bool) (key : Str)
    → length key ≡ key_len
    → all_hex key_len key ≡ true
    → classify cfg want (some (entry_prefix g ++ key)) ≡ ok (proroot_info (entry_kind g) key)
unfolding classify
classify-entry cfg want g key size hex = ground (
  arith,
  entry_free g key (all_hex_free key_len key size hex),
  parse_l2s_name-entry cfg want g key,
  parse_meta_lem g key size hex,
)

entry_length : (g : Bool) (key : Str) → length key ≡ key_len → length (entry_prefix g ++ key) ≡ 18
entry_length true key size = omega arith
entry_length false key size = omega arith

entry_good :
    (g : Bool) (d : Str) (key : Str) (outsz : ℕ) {p : Str}
    → meta_entry (some d) (some (entry_prefix g)) (some key) (some outsz) ≡ ok p
    → (out : Str) × (join (some d) (some (entry_prefix g)) (some outsz) ≡ ok out) × (p ≡ out ++ key)
unfolding meta_entry
entry_good g d key outsz h =
    let (_, _, h1) = >>=-eq-ok (check_entry d (entry_prefix g) key outsz) _ h in
    let (out, j, h2) =
      >>=-eq-ok (join (some d) (some (entry_prefix g)) (some outsz)) (append_key key outsz) h1 in
    (out, j, ground arith)

-- An entry that `l2s_meta_entry` names for a key of `l2s_key16` splits into its directory and its
-- name, and the name is classified as the group or the member of that key, under either scheme.
pub meta_entry-classify :
    (cfg : Option Config) (want g : Bool) (d : Str) (name : Option Str) (outsz ds : ℕ) {p : Str}
    → meta_entry (some d) (some (entry_prefix g)) (some (key16 name)) (some outsz) ≡ ok p
    → length d < ds
    → (split (some p) (some ds) (some 256) ≡ ok (d, entry_prefix g ++ key16 name))
      × (classify cfg want (some (entry_prefix g ++ key16 name))
          ≡ ok (proroot_info (entry_kind g) (key16 name)))
meta_entry-classify cfg want g d name outsz ds {p} h fits =
    let key = key16 name in
    let size = length-key16 name in
    let (out, j, e) = entry_good g d key outsz h in
    let free = entry_free g key (all_hex_free key_len key size (all_hex-key16 name)) in
    let whole : p ≡ joined d (entry_prefix g ++ key) =
      e
      ∙ ap (λ t. t ++ key) (join-joined d (entry_prefix g) outsz j).0
      ∙ append_assoc d (separator d ++ entry_prefix g) key
      ∙ ap (λ t. d ++ t) (append_assoc (separator d) (entry_prefix g) key) in
    let long : length (entry_prefix g ++ key) ≡ 18 = entry_length g key size in
    let c : IsComponent (entry_prefix g ++ key) = record {
      no_slash = free;
      not_empty = omega (arith, long);
      not_dots = long-not_dots (entry_prefix g ++ key) (omega (arith, long));
    } in
    (
      rw whole (
          split-Parts _ ds 256 (Parts-joined d (entry_prefix g ++ key) free) c fits
            (omega (arith, long))),
      classify-entry cfg want g key size (all_hex-key16 name),
    )
