-- ===== src/Fakeroot/Normalize/Fits.antt =====
-- fakeroot.c: `fr_normalize_path` in a buffer that has room for the path.
use bxroot.Prelude.{
  ℕ, ◌+◌, ◌≤◌, ◌<◌, ◌≡◌, refl, inl, inr, ◌⊎◌, Bool, true, false, not, ◌||◌, Option, none, some, [],
  ◌∷◌, ◌++◌, Str, byte_at, length, leb, ◌==◌, if◌then◌else◌, Bool-cases, Result, ok, arith,
}
use bxroot.Fakeroot.Types.{FrCode}
use bxroot.Fakeroot.Normalize.Laws.{no_double, is_absolute, normalize-shape}
use bxroot.Fakeroot.Normalize.Names.{parts, names}
use bxroot.Fakeroot.Normalize.Kept.{normalize-parts}
use bxroot.Fakeroot.Normalize.{
  is_slash, ends_in_slash, put, State, at_slash, at_byte, in_run, is_dot, step, run, trim,
  normalize,
}

length_one_more : (s : Str) (c : ℕ) → length (s ++ (c ∷ [])) ≡ length s + 1
length_one_more [] c = refl
length_one_more (a ∷ s) c = omega (arith, length_one_more s c)

-- What is written and what waits to be.
abbrev weight : Bool → Str → ℕ
weight pending out = length out + (if pending then 1 else 0)

abbrev Goes : ℕ → Result FrCode State → Type 0
Goes bound result =
    (pending : Bool) × (out : Str) × (result ≡ ok (pending, out)) × (weight pending out ≤ bound)

put-fits : (size c : ℕ) (out : Str) → length out + 1 < size → put size c out ≡ ok (out ++ (c ∷ []))
unfolding put
put-fits size c out room =
    let small : leb size (length out + 1) ≡ false = ground (arith, room) in rw small refl

at_byte-Goes :
    (size c : ℕ) (pending : Bool) (out : Str)
    → weight pending out + 1 < size
    → Goes (weight pending out + 1) (at_byte size c pending out)
unfolding at_byte
at_byte-Goes size c false out room = (
  false,
  out ++ (c ∷ []),
  rw (put-fits size c out (omega (arith, room))) refl,
  omega (arith, length_one_more out c),
)
at_byte-Goes size c true out room =
    let longer = length_one_more out b'/' in
    (
      false,
      (out ++ (b'/' ∷ [])) ++ (c ∷ []),
      rw
          (
            put-fits size b'/' out (omega (arith, room)),
            put-fits size c (out ++ (b'/' ∷ [])) (omega (arith, room, longer)),
          )
          refl,
      omega (arith, longer, length_one_more (out ++ (b'/' ∷ [])) c),
    )

pending_most : (a b : Bool) (n : ℕ) → n + (if a || b then 1 else 0) ≤ n + (if a then 1 else 0) + 1
pending_most true b n = omega arith
pending_most false true n = omega arith
pending_most false false n = omega arith

at_slash-Goes :
    (absolute : Bool) (size : ℕ) (pending : Bool) (out : Str)
    → weight pending out + 1 < size
    → Goes (weight pending out + 1) (at_slash absolute size pending out)
unfolding at_slash
at_slash-Goes true size pending [] room =
    (pending, b'/' ∷ [], rw (put-fits size b'/' [] (omega (arith, room))) refl, omega arith)
at_slash-Goes false size pending [] room = (pending, [], refl, omega arith)
at_slash-Goes absolute size pending (a ∷ out) room = (
  pending || not (ends_in_slash (a ∷ out)),
  a ∷ out,
  refl,
  pending_most pending _ (length (a ∷ out)),
)

step-Goes :
    (absolute : Bool) (size : ℕ) (before : Option ℕ) (c : ℕ) (next : Str) (pending : Bool)
    (out : Str)
    → weight pending out + 1 < size
    → Goes (weight pending out + 1) (step absolute size before c next (pending, out))
unfolding step
step-Goes absolute size before c next pending out room = elim (Bool-cases (is_slash c)) [
  | inl slash ↦ elim (Bool-cases (in_run before)) [
    | inl inside ↦ rw (slash, inside) (pending, out, refl, omega arith)
    | inr outside ↦ rw (slash, outside) (at_slash-Goes absolute size pending out room)
  ]
  | inr name ↦ elim (Bool-cases (is_dot before c next)) [
    | inl dot ↦ rw (name, dot) (pending, out, refl, omega arith)
    | inr other ↦ rw (name, other) (at_byte-Goes size c pending out room)
  ]
]

run-fits :
    (absolute : Bool) (size : ℕ) (before : Option ℕ) (s : Str) (pending : Bool) (out : Str)
    → weight pending out + length s < size
    → (last : Str) × (run absolute size before s (pending, out) ≡ ok last)
      × (length last ≤ weight pending out + length s)
unfolding run
run-fits absolute size before [] pending out room = (out, refl, omega arith)
run-fits absolute size before (c ∷ next) pending out room =
    let (pending', out', e, more) =
      step-Goes absolute size before c next pending out (omega (arith, room)) in
    let (last, e', fits) =
      run-fits absolute size (some c) next pending' out' (omega (arith, room, more)) in
    (last, rw e e', omega (arith, fits, more))

-- `fr_normalize_path` succeeds if the buffer has room for the path and its terminator.
pub normalize-fits :
    (path : Str) (size : ℕ)
    → length path < size
    → (out : Str) × (normalize (some path) size ≡ ok out)
unfolding normalize
normalize-fits path size room =
    let some_room : (size == 0) ≡ false = ground (arith, room) in
    let (last, e, fits) =
      run-fits (is_slash (byte_at path 0)) size none path false [] (omega (arith, room)) in
    (trim (length last) last, rw (some_room, e) refl)

-- `fr_normalize_path`, with room for the path and its terminator, succeeds. What it writes has the
-- components of the path that are neither empty nor ".", in their order, and no others; it has no slash
-- behind a slash, and none at its end unless it is "/"; it is absolute exactly if the path is.
pub normalize-tidy :
    (path : Str) (size : ℕ)
    → length path < size
    → (out : Str) × (normalize (some path) size ≡ ok out)
      × (parts out ≡ names path)
      × (no_double out ≡ true)
      × ((ends_in_slash out ≡ false) ⊎ (out ≡ (b'/' ∷ [])))
      × (is_absolute out ≡ is_absolute path)
normalize-tidy path size room =
    let (out, e) = normalize-fits path size room in
    let (single, open_end, same) = normalize-shape path size out e in
    (out, e, normalize-parts path size out e, single, open_end, same)
