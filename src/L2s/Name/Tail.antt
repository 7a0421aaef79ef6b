-- ===== src/L2s/Name/Tail.antt =====
-- The tail of an artifact name: the fixed-width fields behind the original name.
use bxroot.Prelude.{
  ℕ, ◌+◌, ◌-◌, ◌<◌, ◌≡◌, refl, sym, ap, ◌∙◌, inl, inr, [], ◌∷◌, ◌++◌, some, Str, length, take, drop,
  byte_at, Option, Option-cases, ok, fail, arith, append_assoc, length-append, drop-append_at,
  get_or-append_at, length-drop, length-take, drop-drop, get_or-drop, cons_of_head, take_all,
  Bool-cases, ◌&&◌, take-append-drop, append-cancel_right, ltb, ◌==◌,
}
use mathlib.Core.Option.{some-injective}
use mathlib.Core.Path.{subst}
use bxroot.L2s.Types.{Res, digits, intermediate, final, Config}
use bxroot.L2s.Format.{parse_fixed}
use bxroot.L2s.Format.Fixed.{field, parse_fixed-field, parse_fixed-eq-ok}
use bxroot.L2s.Name.{Fields, final_of, final_tail, intermediate_tail, parse_tail}

-- The name of a final artifact behind its prefix.
abbrev pub final_body : Str → ℕ → ℕ → Str
final_body orig gen link = orig ++ (field gen ++ (b'.' ∷ field link))

abbrev pub final_fields : Str → ℕ → ℕ → Fields
final_fields orig gen link = record {
  kind = final;
  orig_len = length orig;
  generation = gen;
  nlink = link;
}

abbrev pub intermediate_fields : Str → ℕ → Fields
intermediate_fields orig gen = record {
  kind = intermediate;
  orig_len = length orig;
  generation = gen;
  nlink = 0;
}

-- What the places counted from the end hold.
record FinalCut (body : Str) (orig : Str) (gen link : ℕ) : Type 0 where
  size : length body ≡ length orig + 9
  dot : byte_at body (length body - 5) ≡ b'.'
  link_at : drop (length body - digits) body ≡ field link
  gen_at : drop (length body - digits - 1 - digits) body ≡ field gen ++ (b'.' ∷ field link)

final_body-FinalCut :
    (orig : Str) (gen link : ℕ) → FinalCut (final_body orig gen link) orig gen link
final_body-FinalCut orig gen link = record {
  size = size;
  dot =
      ap (λ t. byte_at t (length body - 5)) (sym (append_assoc orig (field gen) _))
      ∙ get_or-append_at _ (orig ++ field gen) (b'.' ∷ field link) 0
          (omega (arith, size, length-append orig (field gen)));
  link_at =
      ap (λ t. drop (length body - digits) t)
        (sym (append_assoc orig (field gen ++ (b'.' ∷ [])) (field link)))
      ∙ drop-append_at _ (orig ++ (field gen ++ (b'.' ∷ []))) (field link)
          (omega (arith, size, length-append orig (field gen ++ (b'.' ∷ []))));
  gen_at = drop-append_at _ orig (field gen ++ (b'.' ∷ field link)) (omega (arith, size));
}
  where
    body : Str
    body = final_body orig gen link

    size : length body ≡ length orig + 9
    size = omega (arith, length-append orig (field gen ++ (b'.' ∷ field link)))

final_tail-final_body :
    (orig : Str) (gen link : ℕ)
    → 0 < length orig
    → gen < 10000
    → link < 10000
    → final_tail (final_body orig gen link) ≡ some (final_fields orig gen link)
unfolding final_tail
final_tail-final_body orig gen link h g l =
    let c = final_body-FinalCut orig gen link in
    rw
      (
        c.dot,
        c.link_at,
        c.gen_at,
        parse_fixed-field link [] l,
        parse_fixed-field gen (b'.' ∷ field link) g,
      )
      (ground (arith, c.size))

-- The body has the final form, with these fields.
pub record FinalShape (body : Str) (t : Fields) : Type 0 where
  pub stem : Str
  pub gen : ℕ
  pub link : ℕ
  pub body_is : body ≡ final_body stem gen link
  pub stem_not_empty : 0 < length stem
  pub gen_in : gen < 10000
  pub link_in : link < 10000
  pub fields_are : t ≡ final_fields stem gen link

-- Nine characters behind `stem` that read as `GGGG.NNNN`.
nine_lem :
    (x : Str) (gen link : ℕ)
    → length x ≡ 9
    → take digits x ≡ field gen
    → byte_at x 4 ≡ b'.'
    → drop 5 x ≡ field link
    → x ≡ field gen ++ (b'.' ∷ field link)
nine_lem x gen link size g dot l =
    sym (take-append-drop digits x)
    ∙ rw g (
        ap (λ t. field gen ++ t)
          (cons_of_head (drop 4 x) 0 (omega (arith, length-drop 4 x))
            ∙ rw (get_or-drop 4 0 x 0, dot, drop-drop 4 1 x, l)))

nine_shape :
    (body : Str) (gen link : ℕ)
    → 9 < length body
    → byte_at body (length body - 5) ≡ b'.'
    → take digits (drop (length body - digits) body) ≡ field link
    → take digits (drop (length body - digits - 1 - digits) body) ≡ field gen
    → drop (length body - 9) body ≡ field gen ++ (b'.' ∷ field link)
nine_shape body gen link h dot l g =
    nine_lem (drop (length body - 9) body) gen link
      (omega (arith, length-drop (length body - 9) body))
      (ap (λ k. take digits (drop k body)) (omega arith) ∙ g)
      (get_or-drop (length body - 9) 4 body 0 ∙ ap (λ k. byte_at body k) (omega arith) ∙ dot)
      (drop-drop (length body - 9) 5 body
        ∙ ap (λ k. drop k body) (omega arith)
        ∙ sym (
            take_all digits (drop (length body - 4) body)
              (omega (arith, length-drop (length body - 4) body)))
        ∙ l)

shape_of :
    (body : Str) (gen link : ℕ)
    → 9 < length body
    → gen < 10000
    → link < 10000
    → drop (length body - 9) body ≡ field gen ++ (b'.' ∷ field link)
    → FinalShape body
        (record { kind = final; orig_len = length body - 9; generation = gen; nlink = link })
shape_of body gen link h g l e = record {
  stem = take (length body - 9) body;
  gen = gen;
  link = link;
  body_is =
      sym (take-append-drop (length body - 9) body) ∙ ap (λ t. take (length body - 9) body ++ t) e;
  stem_not_empty = omega (arith, length-take (length body - 9) body);
  gen_in = g;
  link_in = l;
  fields_are = ground (arith, length-take (length body - 9) body);
}

shape_of_parts :
    (body : Str) (link gen : Res ℕ) {t : Fields}
    → 9 < length body
    → byte_at body (length body - 5) ≡ b'.'
    → parse_fixed (drop (length body - digits) body) digits ≡ link
    → parse_fixed (drop (length body - digits - 1 - digits) body) digits ≡ gen
    → final_of body link gen ≡ some t
    → FinalShape body t
shape_of_parts body (fail e) gen h dot pl pg q = cc
shape_of_parts body (ok l) (fail e) h dot pl pg q = cc
shape_of_parts body (ok l) (ok g) {t} h dot pl pg q =
    let (l_in, l_is) = parse_fixed-eq-ok (drop (length body - digits) body) pl in
    let (g_in, g_is) = parse_fixed-eq-ok (drop (length body - digits - 1 - digits) body) pg in
    subst (FinalShape body) (some-injective _ _ q)
      (shape_of body g l h g_in l_in (nine_shape body g l h dot l_is g_is))

pub final_tail-FinalShape : (body : Str) {t : Fields} → final_tail body ≡ some t → FinalShape body t
unfolding final_tail
final_tail-FinalShape body {t} e =
    elim (Bool-cases (ltb 9 (length body) && byte_at body (length body - 5) == b'.')) [
      | inl fits ↦ shape_of_parts body _ _ (ground arith) (ground arith) refl refl (rw fits at e)
      | inr other ↦ absurd (ground arith)
    ]

-- A number and a dot end the original name, behind at least one character.
pub record EndsInField (orig : Str) : Type 0 where
  pub stem : Str
  pub number : ℕ
  pub orig_is : orig ≡ stem ++ (field number ++ (b'.' ∷ []))
  pub stem_not_empty : 0 < length stem
  pub number_in : number < 10000

-- A final name is read back whatever its original name is.
pub parse_tail-final_body :
    (cfg : Option Config) (orig : Str) (gen link : ℕ)
    → 0 < length orig
    → gen < 10000
    → link < 10000
    → parse_tail cfg (final_body orig gen link) ≡ ok (final_fields orig gen link)
unfolding parse_tail
parse_tail-final_body cfg orig gen link h g l = rw (final_tail-final_body orig gen link h g l)

intermediate_tail_lem :
    (cfg : Option Config) (orig : Str) (gen : ℕ)
    → 0 < length orig
    → gen < 10000
    → intermediate_tail cfg (orig ++ field gen) ≡ ok (intermediate_fields orig gen)
unfolding intermediate_tail
intermediate_tail_lem cfg orig gen h g =
    let size = length-append orig (field gen) in
    let cut =
      drop-append_at (length (orig ++ field gen) - digits) orig (field gen) (omega (arith, size)) in
    rw (cut, parse_fixed-field gen [] g) (ground (arith, size))

EndsInField-of :
    (orig : Str) (gen : ℕ) {t : Fields} → FinalShape (orig ++ field gen) t → EndsInField orig
EndsInField-of orig gen s = record {
  stem = s.stem;
  number = s.gen;
  orig_is =
      append-cancel_right orig (field gen) (s.stem ++ (field s.gen ++ (b'.' ∷ []))) (field s.link)
        (s.body_is ∙ sym (append_assoc s.stem (field s.gen ++ (b'.' ∷ [])) (field s.link))) refl;
  stem_not_empty = s.stem_not_empty;
  number_in = s.gen_in;
}

-- An intermediate name is read back, unless the original name ends in a field and a dot.
pub parse_tail-intermediate :
    (cfg : Option Config) (orig : Str) (gen : ℕ)
    → 0 < length orig
    → gen < 10000
    → ¬ EndsInField orig
    → parse_tail cfg (orig ++ field gen) ≡ ok (intermediate_fields orig gen)
unfolding parse_tail
parse_tail-intermediate cfg orig gen h g other =
    elim (Option-cases (final_tail (orig ++ field gen))) [
      | inl e ↦ rw e (intermediate_tail_lem cfg orig gen h g)
      | inr (t, e) ↦
          absurd (other (EndsInField-of orig gen (final_tail-FinalShape (orig ++ field gen) e)))
    ]

-- There it is taken for a final name: of a shorter file, with the generation as its link count.
pub parse_tail-EndsInField :
    (cfg : Option Config) {orig : Str} (gen : ℕ) (e : EndsInField orig)
    → gen < 10000
    → parse_tail cfg (orig ++ field gen) ≡ ok (final_fields e.stem e.number gen)
parse_tail-EndsInField cfg gen e g =
    rw (e.orig_is, append_assoc e.stem (field e.number ++ (b'.' ∷ [])) (field gen))
      (parse_tail-final_body cfg e.stem e.number gen e.stem_not_empty e.number_in g)
