-- ===== src/Fakeroot/Normalize/Steps.antt =====
-- fakeroot.c, `fr_normalize_path`: its steps and the components.
use mathlib.Core.Path.{subst}
use bxroot.Prelude.{
  ℕ, ◌≡◌, refl, sym, ap, ◌∙◌, ◌⊎◌, inl, inr, Bool, true, false, not, ◌&&◌, ◌||◌, Option, none, some,
  [], ◌∷◌, ◌++◌, append_assoc, Str, codes, byte_at, str_eq, length, ◌==◌, if◌then◌else◌, Bool-cases,
  ok, >>=-eq-ok, arith,
}
use bxroot.Fakeroot.Normalize.{
  is_slash, ends_in_slash, put, State, at_slash, at_byte, in_run, at_start, is_dot,
}
use bxroot.Fakeroot.Normalize.Laws.{put-append, ok_same}
use bxroot.Fakeroot.Normalize.Names.{
  pieces, keep, parts, names, upto, beyond, upto-slash, beyond-slash, upto-byte, beyond-byte,
  names-first, names-slash, parts-append, parts-nothing, parts-drop_slash, parts-after_slash,
}

abbrev pub parted : Bool → Str → Str
parted true out = out ++ (b'/' ∷ [])
parted false out = out

pub at_byte-inv :
    (size c : ℕ) (pending : Bool) (out : Str) {st : State}
    → at_byte size c pending out ≡ ok st
    → st ≡ (false, parted pending out ++ (c ∷ []))
unfolding at_byte
at_byte-inv size c true out h =
    let (o, first, h1) = >>=-eq-ok (put size b'/' out) _ h in
    let (o', second, h2) = >>=-eq-ok (put size c o) _ h1 in
    ok_same h2
    ∙ ap (λ t. (false, t))
        ((put-append size c o second).0
          ∙ ap (λ t. t ++ (c ∷ [])) (put-append size b'/' out first).0)
at_byte-inv size c false out h =
    let (o, first, h1) = >>=-eq-ok (put size c out) _ h in
    ok_same h1 ∙ ap (λ t. (false, t)) (put-append size c out first).0

-- What waits for the next component: a slash is to be written, or is there, or need not be.
abbrev pub Open : Bool → Str → Type 0
Open pending out = (pending ≡ true) ⊎ ((out ≡ []) ⊎ (ends_in_slash out ≡ true))

pub Open-parts :
    (pending : Bool) (out b : Str)
    → Open pending out
    → parts (parted pending out ++ b) ≡ parts out ++ parts b
Open-parts true out b o = ap parts (append_assoc out (b'/' ∷ []) b) ∙ parts-append out b'/' b refl
Open-parts false out b (inl e) = absurd (cc)
Open-parts false out b (inr (inl e)) = rw (e, parts-nothing) refl
Open-parts false out b (inr (inr e)) = parts-after_slash out b e

pub or_true : (b : Bool) → (b || true) ≡ true
or_true true = refl
or_true false = refl

pub at_slash-keeps :
    (absolute : Bool) (size : ℕ) (pending : Bool) (out : Str) {st : State}
    → at_slash absolute size pending out ≡ ok st
    → (parts st.1 ≡ parts out) × Open st.0 st.1
unfolding at_slash ends_in_slash
at_slash-keeps true size pending [] {st} h =
    let (o, first, h1) = >>=-eq-ok (put size b'/' []) _ h in
    subst (λ s. (parts s.1 ≡ parts []) × Open s.0 s.1)
      (ap (λ t. (pending, t)) (sym (put-append size b'/' [] first).0) ∙ sym (ok_same h1))
      (parts-drop_slash [] b'/' refl, inr (inr refl))
at_slash-keeps false size pending [] {st} h =
    subst (λ s. (parts s.1 ≡ parts []) × Open s.0 s.1) {x = (pending, [])} {y = st} (cc)
      (refl, inr (inl refl))
at_slash-keeps absolute size pending (c ∷ out) {st} h =
    subst (λ s. (parts s.1 ≡ parts (c ∷ out)) × Open s.0 s.1)
      {x = (pending || not (ends_in_slash (c ∷ out)), c ∷ out)} {y = st} (cc)
      (
        refl,
        elim (Bool-cases (ends_in_slash (c ∷ out))) [
          | inl e ↦ inr (inr e)
          | inr e ↦ inl (ap (λ b. pending || not b) e ∙ or_true pending)
        ],
      )

abbrev pub Ends : Str → Type 0
Ends [] = Unit
Ends (c ∷ s) = is_slash c ≡ true

-- Where a component may start.
abbrev pub Ready : Option ℕ → Str → Type 0
Ready before s = (at_start before ≡ true) ⊎ Ends s

pub Ends-by : (next : Str) → (length next == 0 || is_slash (byte_at next 0)) ≡ true → Ends next
Ends-by [] h = tt
Ends-by (c ∷ next) h = ground (arith, h)

-- A component "." is left out.
pub dot_byte : (c : ℕ) → (c == b'.') ≡ true → c ≡ b'.'
dot_byte c e = ground (arith, e)

pub dot_alone : names (b'.' ∷ []) ≡ names []
unfolding pieces str_eq
dot_alone = refl

pub dot_dropped :
    (c : ℕ) (next : Str) → (c == b'.') ≡ true → Ends next → names (c ∷ next) ≡ names next
unfolding str_eq
dot_dropped c [] e ends = rw (dot_byte c e) dot_alone
dot_dropped c (d ∷ next) e ends = rw (dot_byte c e) (
    names-first (b'.' ∷ (d ∷ next))
    ∙ ap (λ p. keep p (names (beyond (b'.' ∷ (d ∷ next)))))
        (upto-byte b'.' (d ∷ next) refl ∙ ap (λ p. b'.' ∷ p) (upto-slash d next ends))
    ∙ ap names (beyond-byte b'.' (d ∷ next) refl ∙ beyond-slash d next ends)
    ∙ sym (names-slash d next ends))

pub not_run : (before : Option ℕ) → at_start before ≡ false → in_run before ≡ false
not_run none h = absurd (cc)
not_run (some c) h = h

pub not_dot :
    (before : Option ℕ) (c : ℕ) (next : Str)
    → at_start before ≡ true
    → is_dot before c next ≡ false
    → str_eq (c ∷ upto next) (codes ".") ≡ false
unfolding str_eq upto
not_dot before c [] start d = ground (arith, start, d)
not_dot before c (x ∷ next) start d = elim (Bool-cases (is_slash x)) [
  | inl e ↦ ground (arith, start, d, e)
  | inr e ↦ ground (arith, start, d, e)
]

-- A component that is not ".".
pub name_kept :
    (before : Option ℕ) (c : ℕ) (next : Str)
    → at_start before ≡ true
    → is_slash c ≡ false
    → is_dot before c next ≡ false
    → names (c ∷ next) ≡ (c ∷ upto next) ∷ names (beyond next)
name_kept before c next start e d =
    names-first (c ∷ next)
    ∙ ap (λ p. keep p (names (beyond (c ∷ next)))) (upto-byte c next e)
    ∙ ap (λ b. if b then names (beyond (c ∷ next)) else (c ∷ upto next) ∷ names (beyond (c ∷ next)))
        (not_dot before c next start d)
    ∙ ap (λ t. (c ∷ upto next) ∷ names t) (beyond-byte c next e)

pub and_never : (a b : Bool) → (a && false && b) ≡ false
and_never true b = refl
and_never false b = refl

pub never_dot :
    (before : Option ℕ) (c : ℕ) (next : Str)
    → at_start before ≡ false
    → is_dot before c next ≡ false
never_dot before c next h = rw h (and_never (c == b'.') _)

pub starts_at :
    (before : Option ℕ) (c : ℕ) (next : Str)
    → is_slash c ≡ false
    → Ready before (c ∷ next)
    → at_start before ≡ true
starts_at before c next other (inl e) = e
starts_at before c next other (inr e) = absurd (cc)

pub beyond-nothing : beyond [] ≡ []
unfolding beyond
beyond-nothing = refl

pub names-nothing : names [] ≡ []
unfolding pieces str_eq
names-nothing = refl
