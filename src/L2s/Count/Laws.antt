-- ===== src/L2s/Count/Laws.antt =====
-- The link count of a final name goes up and down by one.
use mathlib.Core.Option.{some-injective}
use bxroot.Prelude.{
  some, none, Bool, false, if◌then◌else◌, ℕ, ◌+◌, ◌-◌, ◌%◌, ◌^◌, ◌<◌, ◌≤◌, ◌≡◌, refl, ap, ◌∙◌, true,
  [], ◌∷◌, ◌++◌, Str, length, has_byte, ltb, ok, fail, >>=-eq-ok, reject_if, arith, append_assoc,
  length-append, take-append_at,
}
use bxroot.L2s.Types.{Rc, Res, erange, digits, name_max, nlink_max, final, Info}
use bxroot.L2s.Format.{format_fixed}
use bxroot.L2s.Format.Fixed.{field, format_fixed-field}
use bxroot.L2s.Name.{parse_l2s_name}
use bxroot.L2s.Name.Tail.{final_body}
use bxroot.L2s.Name.Sound.{IsPrefix, parse_l2s_name-final}
use bxroot.L2s.Name.Accepted.{parse_l2s_name-FinalName}
use bxroot.L2s.Count.{final_count, with_count, recount, next_final}

with_count-field :
    (stem : Str) (n count outsz : ℕ)
    → count < 10000
    → length (stem ++ field n) < outsz
    → with_count (stem ++ field n) count outsz ≡ ok (stem ++ field count)
unfolding with_count
with_count-field stem n count outsz c fits =
    let size : length (stem ++ field n) ≡ length stem + 4 = length-append stem (field n) in
    let cut =
      take-append_at (length (stem ++ field n) - digits) stem (field n) (omega (arith, size)) in
    rw
      (
        cut,
        format_fixed-field count (outsz - (length (stem ++ field n) - digits)) c
            (omega (arith, size)),
      )
      (ground (arith, size))

-- Everything of a final name but its count.
abbrev pub stem_of : Str → Str → ℕ → Str
stem_of p orig gen = p ++ (orig ++ (field gen ++ (b'.' ∷ [])))

stem_lem : (p orig : Str) (gen n : ℕ) → stem_of p orig gen ++ field n ≡ p ++ final_body orig gen n
stem_lem p orig gen n =
    append_assoc p (orig ++ (field gen ++ (b'.' ∷ []))) (field n)
    ∙ ap (λ t. p ++ t) (append_assoc orig (field gen ++ (b'.' ∷ [])) (field n))

with_count-final :
    (p orig : Str) (gen n count outsz : ℕ)
    → count < 10000
    → length (p ++ final_body orig gen n) < outsz
    → with_count (p ++ final_body orig gen n) count outsz ≡ ok (p ++ final_body orig gen count)
with_count-final p orig gen n count outsz c fits =
    rw (← stem_lem p orig gen n, ← stem_lem p orig gen count)
      (with_count-field (stem_of p orig gen) n count outsz c (rw (stem_lem p orig gen n) fits))

with_count_fits :
    (name : Str) (count outsz : ℕ) {s : Str}
    → with_count name count outsz ≡ ok s
    → digits ≤ length name
    → length name < outsz
unfolding with_count format_fixed
with_count_fits name count outsz h l = ground arith

final_count-final :
    (r : Res Info) {n : ℕ}
    → final_count r ≡ ok n
    → (i : Info) × (r ≡ ok i) × (i.kind ≡ final) × (i.nlink ≡ n)
final_count-final (ok i) h = (i, refl, ground arith, ground arith)
final_count-final (fail e) h = cc

-- What `final_count` says of a name says what the name consists of.
pub record Counted (name : Str) (n : ℕ) : Type 0 where
  pub prefix : Str
  pub orig : Str
  pub gen : ℕ
  pub is_prefix : IsPrefix prefix
  pub name_is : name ≡ prefix ++ final_body orig gen n
  pub orig_not_empty : 0 < length orig
  pub orig_fits : length orig < name_max
  pub gen_in : gen < 10000
  pub count_in : n < 10000

pub count-Counted :
    (name : Str) {n : ℕ}
    → final_count (parse_l2s_name none true (some name)) ≡ ok n
    → Counted name n
count-Counted name {n} h =
    let (i, e, k, c) = final_count-final (parse_l2s_name none true (some name)) h in
    let f = parse_l2s_name-FinalName none true name e k in
    rw (← c) (record {
      prefix = f.prefix;
      orig = i.orig_name;
      gen = i.generation;
      is_prefix = f.is_prefix;
      name_is = f.name_is;
      orig_not_empty = f.orig_not_empty;
      orig_fits = f.orig_fits refl;
      gen_in = f.gen_in;
      count_in = f.link_in;
    })

pub count_of_built :
    {name : Str} {n : ℕ} (c : Counted name n) (m : ℕ)
    → m < 10000
    → final_count (parse_l2s_name none true (some (c.prefix ++ final_body c.orig c.gen m))) ≡ ok m
count_of_built c m h = rw (
    parse_l2s_name-final none true c.prefix c.orig c.gen m c.is_prefix c.orig_not_empty c.orig_fits
      c.gen_in h)

long_enough : {name : Str} {n : ℕ} → Counted name n → digits ≤ length name
long_enough {name} {n} c = omega (
  arith,
  ap length c.name_is,
  length-append c.prefix (final_body c.orig c.gen n),
  length-append c.orig (field c.gen ++ (b'.' ∷ field n)),
)

pub length_same :
    {name : Str} {n : ℕ} (c : Counted name n) (m : ℕ)
    → length (c.prefix ++ final_body c.orig c.gen m) ≡ length name
length_same {name} {n} c m = omega (
  arith,
  ap length c.name_is,
  length-append c.prefix (final_body c.orig c.gen n),
  length-append c.orig (field c.gen ++ (b'.' ∷ field n)),
  length-append c.prefix (final_body c.orig c.gen m),
  length-append c.orig (field c.gen ++ (b'.' ∷ field m)),
)

pub count_step :
    {name : Str} {n : ℕ} (c : Counted name n) (m outsz : ℕ)
    → m < 10000
    → length name < outsz
    → with_count name m outsz ≡ ok (c.prefix ++ final_body c.orig c.gen m)
count_step {name} {n} c m outsz h fits =
    ap (λ t. with_count t m outsz) c.name_is
    ∙ with_count-final c.prefix c.orig c.gen n m outsz h (rw (length_same c n) fits)

if-some : (b : Bool) (x y : Res Str) → (if b then none else some x) ≡ some y → (b ≡ false) × (x ≡ y)
if-some true x y h = absurd (cc)
if-some false x y h = (refl, some-injective _ _ h)

recount-inv :
    (name : Str) (outsz : ℕ) (r : Res ℕ) {s : Str}
    → recount name outsz r ≡ some (ok s)
    → (count : ℕ) × (r ≡ ok count) × (length name < name_max) × (with_count name count outsz ≡ ok s)
recount-inv name outsz (fail e) h = absurd (cc)
recount-inv name outsz (ok count) h =
    let (short, e) = if-some (ltb name_max (length name + 1)) _ _ h in
    (count, refl, ground (arith, short), e)

-- Every name that `l2s_next_final` accepts, and that it has room for, is a final name with a count below
-- 9999, and the result is the same name with the next count.
pub next_final-Counted :
    (name : Str) (outsz : ℕ) {s : Str}
    → next_final (some name) (some outsz) ≡ some (ok s)
    → (n : ℕ) × (c : Counted name n) × (n < nlink_max)
      × (length name < outsz)
      × (s ≡ c.prefix ++ final_body c.orig c.gen (n + 1))
unfolding next_final
next_final-Counted name outsz {s} h =
    let (count, counted, short, built) = recount-inv name outsz _ h in
    let (_, _, h1) = >>=-eq-ok (reject_if (has_byte b'/' name) Rc.err) _ counted in
    let (n, e, h2) = >>=-eq-ok (final_count (parse_l2s_name none true (some name))) _ h1 in
    let (_, r, h3) = >>=-eq-ok (reject_if (ltb nlink_max ((n + 1) % 2 ^ 32)) erange) _ h2 in
    let c : Counted name n = count-Counted name e in
    let below : n < nlink_max = ground (arith, c.count_in) in
    let wrap : (n + 1) % 2 ^ 32 ≡ n + 1 = omega (arith, below) in
    let next : count ≡ n + 1 = ground (arith, h3, wrap) in
    let built' : with_count name (n + 1) outsz ≡ ok s = rw next at built in
    let fits : length name < outsz = with_count_fits name (n + 1) outsz built' (long_enough c) in
    (n, c, below, fits, ground (arith, built', count_step c (n + 1) outsz (omega arith) fits))
