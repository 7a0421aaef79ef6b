-- ===== src/L2s/Name/Accepted.antt =====
-- What a name consists of that the classifier takes for a final name.
use mathlib.Core.Path.{subst}
use bxroot.Prelude.{
  ℕ, ◌<◌, ◌≡◌, refl, ap, ◌∙◌, inl, inr, Bool, true, ◌++◌, Option, some, Str, length, drop,
  starts_with, starts_with-drop, Bool-cases, Option-cases, ok, >>=-eq-ok, arith, take-append,
}
use bxroot.L2s.Types.{name_max, final, intermediate, Config, Info, prefix_default, prefix_userland}
use bxroot.L2s.Name.{
  Fields, match_prefix, final_tail, intermediate_tail, parse_tail, parse_body, parse_l2s_name,
  proot_info,
}
use bxroot.L2s.Name.Tail.{final_body, FinalShape, final_tail-FinalShape}
use bxroot.L2s.Name.Sound.{IsPrefix, final_info}

-- The name is this prefix with the fields of the record behind it.
pub record FinalName (want : Bool) (name : Str) (i : Info) : Type 0 where
  pub prefix : Str
  pub is_prefix : IsPrefix prefix
  pub name_is : name ≡ prefix ++ final_body i.orig_name i.generation i.nlink
  pub orig_not_empty : 0 < length i.orig_name
  pub orig_fits : want ≡ true → length i.orig_name < name_max
  pub gen_in : i.generation < 10000
  pub link_in : i.nlink < 10000
  pub info_is : i ≡ final_info i.orig_name i.generation i.nlink

-- The body behind the prefix that was matched.
record Matched (name : Str) (plen : ℕ) : Type 0 where
  prefix : Str
  is_prefix : IsPrefix prefix
  name_is : prefix ++ drop plen name ≡ name

match_prefix-Matched : (name : Str) {plen : ℕ} → match_prefix name ≡ some plen → Matched name plen
unfolding match_prefix
match_prefix-Matched name {plen} h = elim (Bool-cases (starts_with name prefix_default)) [
  | inl e ↦
      let five : plen ≡ 5 = ground arith in
      rw five (record {
        prefix = prefix_default;
        is_prefix = inl refl;
        name_is = starts_with-drop name prefix_default e;
      })
  | inr e ↦
      let eleven : plen ≡ 11 = ground arith in
      rw eleven (record {
        prefix = prefix_userland;
        is_prefix = inr refl;
        name_is = starts_with-drop name prefix_userland (ground arith);
      })
]

intermediate_tail-kind :
    (cfg : Option Config) (body : Str) {t : Fields}
    → intermediate_tail cfg body ≡ ok t
    → t.kind ≡ intermediate
unfolding intermediate_tail
intermediate_tail-kind cfg body h = ground arith

tail-FinalShape :
    (cfg : Option Config) (body : Str) {t : Fields}
    → parse_tail cfg body ≡ ok t
    → t.kind ≡ final
    → FinalShape body t
unfolding parse_tail
tail-FinalShape cfg body {t} h k = elim (Option-cases (final_tail body)) [
  | inl e ↦ absurd (cc (intermediate_tail-kind cfg body {t = t} (rw e at h)))
  | inr (u, e) ↦ let same : u ≡ t = ground arith in final_tail-FinalShape body (e ∙ ap some same)
]

shaped_info :
    (body : Str) {t : Fields} (s : FinalShape body t)
    → proot_info body t ≡ final_info s.stem s.gen s.link
shaped_info body s = rw (s.fields_are, s.body_is, take-append s.stem)

shaped-FinalName :
    (want : Bool) (body prefix : Str) {i : Info} {t : Fields}
    → IsPrefix prefix
    → (want ≡ true → t.orig_len < name_max)
    → i ≡ proot_info body t
    → FinalShape body t
    → FinalName want (prefix ++ body) i
shaped-FinalName want body prefix {t = t} p fits read s = rw (read ∙ shaped_info body s) (record {
  prefix = prefix;
  is_prefix = p;
  name_is = ap (λ t. prefix ++ t) s.body_is;
  orig_not_empty = s.stem_not_empty;
  orig_fits = λ w. let f : t.orig_len < name_max = fits w in ground (arith, s.fields_are);
  gen_in = s.gen_in;
  link_in = s.link_in;
  info_is = refl;
})

body-FinalName :
    (cfg : Option Config) (want : Bool) (body prefix : Str) {i : Info}
    → IsPrefix prefix
    → parse_body cfg want body ≡ ok i
    → i.kind ≡ final
    → FinalName want (prefix ++ body) i
unfolding parse_body
body-FinalName cfg want body prefix {i} p h k =
    let (t, e, rest) = >>=-eq-ok (parse_tail cfg body) _ h in
    let read : i ≡ proot_info body t = ground arith in
    let final_kind : t.kind ≡ final = ground arith in
    let fits : want ≡ true → t.orig_len < name_max = λ w. ground arith in
    shaped-FinalName want body prefix p fits read (tail-FinalShape cfg body e final_kind)

-- A name that is accepted as a final one is a prefix with the fields of the record behind it, each in
-- its range, and the record says no more.
pub parse_l2s_name-FinalName :
    (cfg : Option Config) (want : Bool) (name : Str) {i : Info}
    → parse_l2s_name cfg want (some name) ≡ ok i
    → i.kind ≡ final
    → FinalName want name i
unfolding parse_l2s_name
parse_l2s_name-FinalName cfg want name {i} h k = elim (Option-cases (match_prefix name)) [
  | inl e ↦ absurd (ground arith)
  | inr (plen, e) ↦
      let m = match_prefix-Matched name e in
      subst (λ t. FinalName want t i) m.name_is
        (body-FinalName cfg want (drop plen name) m.prefix m.is_prefix (ground arith) k)
]
