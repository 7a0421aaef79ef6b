-- ===== src/L2s/Name/Sound.antt =====
-- Names with their prefix: what the classifier makes of a name that was built, and what a name that
-- it accepts consists of.
use bxroot.Prelude.{
  ℕ, ◌<◌, ◌≤◌, ◌≡◌, refl, ap, ◌∙◌, ◌⊎◌, inl, inr, Bool, true, false, [], ◌∷◌, ◌++◌, Option, some,
  Str, length, starts_with, has_byte, has_byte-append_false, ok, arith, length-append, append_assoc,
  take-append, drop-append,
}
use bxroot.L2s.Types.{
  name_max, proot, intermediate, final, Config, Info, cfg_scheme, prefix_default, prefix_userland,
}
use bxroot.L2s.Format.Fixed.{field}
use bxroot.L2s.Name.{
  Fields, match_prefix, parse_tail, parse_body, parse_l2s_name, proot_info, classify,
}
use bxroot.L2s.Name.Tail.{
  final_body, final_fields, intermediate_fields, EndsInField, parse_tail-final_body,
  parse_tail-intermediate,
}

-- The two spellings of the prefix.
abbrev pub IsPrefix : Str → Type 0
IsPrefix p = (p ≡ prefix_default) ⊎ (p ≡ prefix_userland)

match_prefix_default : (s : Str) → match_prefix (prefix_default ++ s) ≡ some 5
unfolding match_prefix starts_with
match_prefix_default s = refl

match_prefix_userland : (s : Str) → match_prefix (prefix_userland ++ s) ≡ some 11
unfolding match_prefix starts_with
match_prefix_userland s = refl

-- No name has both prefixes, so the order in which they are tried does not matter.
pub prefixes_disjoint :
    (name : Str) → starts_with name prefix_default ≡ true → starts_with name prefix_userland ≡ false
unfolding starts_with
prefixes_disjoint [] h = cc
prefixes_disjoint (a ∷ []) h = ground arith
prefixes_disjoint (a ∷ (b ∷ s)) h = ground arith

pub match_prefix-IsPrefix : (p s : Str) → IsPrefix p → match_prefix (p ++ s) ≡ some (length p)
match_prefix-IsPrefix p s (inl e) = rw e (match_prefix_default s)
match_prefix-IsPrefix p s (inr e) = rw e (match_prefix_userland s)

parse_l2s_name-append :
    (cfg : Option Config) (want : Bool) (p body : Str)
    → IsPrefix p
    → 0 < length body
    → parse_l2s_name cfg want (some (p ++ body)) ≡ parse_body cfg want body
unfolding parse_l2s_name
parse_l2s_name-append cfg want p body k h =
    rw (match_prefix-IsPrefix p body k, drop-append p body) (ground (arith, length-append p body))

-- A tail that fits gives its record.
parse_body_lem :
    (cfg : Option Config) (want : Bool) (body : Str) (t : Fields)
    → parse_tail cfg body ≡ ok t
    → 0 < t.orig_len
    → t.orig_len < name_max
    → parse_body cfg want body ≡ ok (proot_info body t)
unfolding parse_body
parse_body_lem cfg want body t e h fits = rw e (ground arith)

-- The record of an artifact whose directory is not looked at.
abbrev pub final_info : Str → ℕ → ℕ → Info
final_info orig gen link = record {
  kind = final;
  scheme = proot;
  orig_name = orig;
  orig_dir = [];
  dir_known = false;
  mid_dir = [];
  generation = gen;
  nlink = link;
}

abbrev pub intermediate_info : Str → ℕ → Info
intermediate_info orig gen = record (final_info orig gen 0) { kind = intermediate }

module _ (cfg : Option Config) (want : Bool) (p orig : Str) (gen : ℕ) where
  pub parse_l2s_name-final :
      (link : ℕ)
      → IsPrefix p
      → 0 < length orig
      → length orig < name_max
      → gen < 10000
      → link < 10000
      → parse_l2s_name cfg want (some (p ++ final_body orig gen link))
        ≡ ok (final_info orig gen link)
  parse_l2s_name-final link k h fits g l =
      parse_l2s_name-append cfg want p (final_body orig gen link) k
        (omega (arith, length-append orig (field gen ++ (b'.' ∷ field link))))
      ∙ parse_body_lem cfg want (final_body orig gen link) (final_fields orig gen link)
          (parse_tail-final_body cfg orig gen link h g l) h fits
      ∙ rw (take-append orig (field gen ++ (b'.' ∷ field link)))

  pub parse_l2s_name-intermediate :
      IsPrefix p
      → 0 < length orig
      → length orig < name_max
      → gen < 10000
      → ¬ EndsInField orig
      → parse_l2s_name cfg want (some (p ++ (orig ++ field gen))) ≡ ok (intermediate_info orig gen)
  parse_l2s_name-intermediate k h fits g other =
      parse_l2s_name-append cfg want p (orig ++ field gen) k
        (omega (arith, length-append orig (field gen)))
      ∙ parse_body_lem cfg want (orig ++ field gen) (intermediate_fields orig gen)
          (parse_tail-intermediate cfg orig gen h g other) h fits
      ∙ rw (take-append orig (field gen))

EndsInField-body :
    {orig : Str} (gen : ℕ) (e : EndsInField orig)
    → orig ++ field gen ≡ final_body e.stem e.number gen
EndsInField-body gen e =
    ap (λ t. t ++ field gen) e.orig_is
    ∙ append_assoc e.stem (field e.number ++ (b'.' ∷ [])) (field gen)

EndsInField-shorter : {orig : Str} (e : EndsInField orig) → length e.stem ≤ length orig
EndsInField-shorter e =
    omega (arith, ap length e.orig_is, length-append e.stem (field e.number ++ (b'.' ∷ [])))

-- The intermediate name of an original that ends in a field and a dot, behind something else, is taken
-- for the final name of a shorter original, with the generation as its link count.
pub parse_l2s_name-EndsInField :
    (cfg : Option Config) (want : Bool) (p : Str) {orig : Str} (gen : ℕ) (e : EndsInField orig)
    → IsPrefix p
    → length orig < name_max
    → gen < 10000
    → parse_l2s_name cfg want (some (p ++ (orig ++ field gen)))
      ≡ ok (final_info e.stem e.number gen)
parse_l2s_name-EndsInField cfg want p gen e k fits g = rw (EndsInField-body gen e) (
    parse_l2s_name-final cfg want p e.stem e.number gen k e.stem_not_empty
      (omega (arith, EndsInField-shorter e)) e.number_in g)

pub field_free : (v : ℕ) → has_byte b'/' (field v) ≡ false
unfolding has_byte
field_free v = ground arith

dot_free : has_byte b'/' (b'.' ∷ []) ≡ false
unfolding has_byte
dot_free = refl

IsPrefix-free : (p : Str) → IsPrefix p → has_byte b'/' p ≡ false
unfolding has_byte
IsPrefix-free p (inl e) = rw e
IsPrefix-free p (inr e) = rw e

pub artifact_free :
    (p orig tail : Str)
    → IsPrefix p
    → has_byte b'/' orig ≡ false
    → has_byte b'/' tail ≡ false
    → has_byte b'/' (p ++ (orig ++ tail)) ≡ false
artifact_free p orig tail k o t =
    has_byte-append_false b'/' p (orig ++ tail) (IsPrefix-free p k)
      (has_byte-append_false b'/' orig tail o t)

pub final_fields_free : (gen link : ℕ) → has_byte b'/' (field gen ++ (b'.' ∷ field link)) ≡ false
final_fields_free gen link =
    has_byte-append_false b'/' (field gen ++ (b'.' ∷ [])) (field link)
      (has_byte-append_false b'/' (field gen) (b'.' ∷ []) (field_free gen) dot_free)
      (field_free link)

-- Under the first scheme the classifier answers what `parse_l2s_name` does where that succeeds.
pub classify_of_parse :
    (cfg : Option Config) (want : Bool) (name : Str) {i : Info}
    → cfg_scheme cfg ≡ proot
    → has_byte b'/' name ≡ false
    → parse_l2s_name cfg want (some name) ≡ ok i
    → classify cfg want (some name) ≡ ok i
unfolding classify
classify_of_parse cfg want name s f e = rw (f, s, e)
