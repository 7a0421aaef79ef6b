-- ===== src/L2s/Name.antt =====
-- l2s.c, "Classification": what a bare artifact name stands for. `want` says that the caller passed
-- an `out` that is not NULL, on which one bound depends; without it the result is not written.
pub mod Tail
pub mod Sound
pub mod Accepted
use bxroot.Prelude.{
  ℕ, zero, suc, ◌+◌, ◌-◌, Bool, true, false, ◌&&◌, ◌||◌, not, Option, none, some, [], ◌∷◌, ◌++◌,
  Str, byte_at, starts_with, has_byte, length, take, drop, ltb, leb, ◌==◌, ◌!=◌, if◌then◌else◌,
  Result, ok, fail, ◌>>=◌, ◌>>◌, reject_if,
}
use bxroot.L2s.Types.{
  Rc, err, enametoolong, enotl2s, Res, Scheme, proot, proroot, Kind, kind_none, intermediate, final,
  group, member, legacy_key, Config, Info, name_max, path_max, digits, prefix_default,
  prefix_userland, cfg_scheme, cfg_lenient,
}
use bxroot.L2s.Path.{split}
use bxroot.L2s.Format.{is_digit, is_hex_lower, parse_fixed, parse_fixed_from, key_len}

-- The length of the first known prefix that the name has.
unfoldable pub match_prefix : Str → Option ℕ
match_prefix name =
    if starts_with name prefix_default
    then some (length prefix_default)
    else if starts_with name prefix_userland
    then some (length prefix_userland)
    else none

-- The kind, the length of the original name, the generation and the link count.
pub record Fields : Type 0 where
  pub kind : Kind
  pub orig_len : ℕ
  pub generation : ℕ
  pub nlink : ℕ

-- The answer where neither form fits.
abbrev no_tail : Option Config → Res Fields
no_tail cfg = if cfg_lenient cfg then fail enotl2s else fail enotl2s

abbrev intermediate_of : Option Config → Str → Res ℕ → Res Fields
intermediate_of cfg body (ok gen) =
    ok
      (record { kind = intermediate; orig_len = length body - digits; generation = gen; nlink = 0 })
intermediate_of cfg body (fail e) = no_tail cfg

-- `<orig><GGGG>`, tried when the final form does not fit.
unfoldable pub intermediate_tail : Option Config → Str → Res Fields
intermediate_tail cfg body =
    if ltb digits (length body)
    then intermediate_of cfg body (parse_fixed (drop (length body - digits) body) digits)
    else no_tail cfg

abbrev final_of : Str → Res ℕ → Res ℕ → Option Fields
final_of body (ok link) (ok gen) = some (record {
  kind = final;
  orig_len = length body - (digits + 1 + digits);
  generation = gen;
  nlink = link;
})
final_of body (ok link) (fail e) = none
final_of body (fail e) gen = none

-- `<orig><GGGG>.<NNNN>`, at fixed places from the end: the link count is read first.
unfoldable pub final_tail : Str → Option Fields
final_tail body =
    if ltb (digits + 1 + digits) (length body) && byte_at body (length body - 5) == b'.'
    then final_of body (parse_fixed (drop (length body - digits) body) digits)
        (parse_fixed (drop (length body - digits - 1 - digits) body) digits)
    else none

abbrev tail_of : Option Fields → Res Fields → Res Fields
tail_of (some t) other = ok t
tail_of none other = other

unfoldable pub parse_tail : Option Config → Str → Res Fields
parse_tail cfg body = tail_of (final_tail body) (intermediate_tail cfg body)

-- The record that `memset` and the assignments behind it leave in `*out`.
abbrev pub proot_info : Str → Fields → Info
proot_info body t = record {
  kind = t.kind;
  scheme = proot;
  orig_name = take t.orig_len body;
  orig_dir = [];
  dir_known = false;
  mid_dir = [];
  generation = t.generation;
  nlink = t.nlink;
}

unfoldable pub parse_body : Option Config → Bool → Str → Res Info
parse_body cfg want body = do
  t ← parse_tail cfg body
  reject_if (t.orig_len == 0) enotl2s
  reject_if (want && ltb name_max (t.orig_len + 1)) enametoolong
  ok (proot_info body t)

abbrev body_of : Option Config → Bool → Str → Option ℕ → Res Info
body_of cfg want name none = fail enotl2s
body_of cfg want name (some plen) =
    if leb (length name) plen then fail enotl2s else parse_body cfg want (drop plen name)

unfoldable pub parse_l2s_name : Option Config → Bool → Option Str → Res Info
parse_l2s_name cfg want none = fail err
parse_l2s_name cfg want (some name) =
    if length name == 0 then fail err else body_of cfg want name (match_prefix name)

-- Every character of the member suffix behind its first digit.
pub all_digits : Str → Bool
unfolding is_digit
all_digits [] = true
all_digits (c ∷ cs) = is_digit c && all_digits cs

-- The fixed-width hexadecimal characters at the head of a key.
unfoldable pub hex_head : ℕ → Str → Bool
unfolding is_hex_lower
hex_head zero s = true
hex_head (suc n) s = is_hex_lower (byte_at s 0) && hex_head n (drop 1 s)

-- What may follow the key: nothing, or '_', a digit from 1 to 9, and digits.
pub suffix_fits : Str → Bool
unfolding all_digits
suffix_fits s =
    byte_at s 0 == b'_'
    && (leb b'1' (byte_at s 1) && leb (byte_at s 1) b'9')
    && all_digits (drop 2 s)

abbrev pub has_meta_prefix : Str → Bool
has_meta_prefix name =
    leb 2 (length name)
    && (byte_at name 0 == b'g' || byte_at name 0 == b'm')
    && byte_at name 1 == b'_'

abbrev pub meta_kind : Str → Kind
meta_kind name =
    if has_meta_prefix name then if byte_at name 0 == b'g' then group else member else legacy_key

abbrev pub meta_key : Str → Str
meta_key name = if has_meta_prefix name then drop 2 name else name

abbrev pub proroot_info : Kind → Str → Info
proroot_info kind key = record {
  kind = kind;
  scheme = proroot;
  orig_name = take key_len key;
  orig_dir = [];
  dir_known = false;
  mid_dir = [];
  generation = 0;
  nlink = 0;
}

unfoldable pub parse_proroot_meta_name : Option Str → Res Info
parse_proroot_meta_name none = fail err
parse_proroot_meta_name (some name) = do
  let key = meta_key name
  reject_if (ltb (length key) key_len) enotl2s
  reject_if (not (hex_head key_len key)) enotl2s
  reject_if (ltb key_len (length key) && not (suffix_fits (drop key_len key))) enotl2s
  ok (proroot_info (meta_kind name) key)

abbrev or_else : Res Info → Res Info → Res Info
or_else (ok info) other = ok info
or_else (fail e) other = other

abbrev classify_in : Scheme → Option Config → Bool → Str → Res Info
classify_in proot cfg want name =
    or_else (parse_l2s_name cfg want (some name)) (parse_proroot_meta_name (some name))
classify_in proroot cfg want name = parse_proroot_meta_name (some name)

unfoldable pub classify : Option Config → Bool → Option Str → Res Info
classify cfg want none = fail err
classify cfg want (some name) =
    if has_byte b'/' name then fail err else classify_in (cfg_scheme cfg) cfg want name
