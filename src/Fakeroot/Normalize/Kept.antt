-- ===== src/Fakeroot/Normalize/Kept.antt =====
-- fakeroot.c, `fr_normalize_path`: the components of what it writes.
use bxroot.Prelude.{
  ℕ, zero, suc, ◌-◌, ◌≡◌, refl, sym, ap, ◌∙◌, inl, inr, Bool, true, false, ◌&&◌, Option, none, some,
  [], ◌∷◌, ◌++◌, append-nil, append_assoc, Str, byte_at, length, take, ltb, ◌==◌, Bool-cases, ok,
  >>=-eq-ok, arith, length-append, take-append_at, and_first, and_second,
}
use bxroot.Fakeroot.Normalize.{
  is_slash, ends_in_slash, State, at_slash, at_byte, in_run, at_start, is_dot, step, run, trim,
  normalize,
}
use bxroot.Fakeroot.Normalize.Laws.{ok_same}
use bxroot.Fakeroot.Normalize.Names.{
  parts, names, upto, beyond, upto-nothing, upto-slash, beyond-slash, upto-byte, beyond-byte,
  names-slash, parts-upto, parts-nothing, before_slash, parts-drop_slash,
}
use bxroot.Fakeroot.Normalize.Steps.{
  parted, at_byte-inv, Open, Open-parts, at_slash-keeps, Ready, Ends-by, dot_dropped, not_run,
  name_kept, never_dot, starts_at, beyond-nothing, names-nothing,
}

module _ (absolute : Bool) (size : ℕ) where
  -- From the start of a component, and inside one.
  abbrev Starting : Str → Type 0
  Starting s =
      (before : Option ℕ) (pending : Bool) (out last : Str)
      → Ready before s
      → Open pending out
      → run absolute size before s (pending, out) ≡ ok last
      → parts last ≡ parts out ++ names s

  abbrev Inside : Str → Type 0
  Inside s =
      (before : Option ℕ) (out last : Str)
      → at_start before ≡ false
      → run absolute size before s (false, out) ≡ ok last
      → parts last ≡ parts (out ++ upto s) ++ names (beyond s)

  slash_next :
      (c : ℕ) (next : Str) (before : Option ℕ) (pending : Bool) (out last : Str)
      → Starting next
      → is_slash c ≡ true
      → in_run before ≡ false
      → run absolute size before (c ∷ next) (pending, out) ≡ ok last
      → parts last ≡ parts out ++ names next
  unfolding run step
  slash_next c next before pending out last starting slash fresh h =
      let ((p, o), stepped, rest) =
        >>=-eq-ok (at_slash absolute size pending out) _ (rw (slash, fresh) at h) in
      let (same, waiting) = at_slash-keeps absolute size pending out stepped in
      starting (some c) p o last (inl slash) waiting rest ∙ ap (λ ps. ps ++ names next) same

  byte_next :
      (c : ℕ) (next : Str) (before : Option ℕ) (pending : Bool) (out last : Str)
      → Inside next
      → is_slash c ≡ false
      → is_dot before c next ≡ false
      → run absolute size before (c ∷ next) (pending, out) ≡ ok last
      → parts last ≡ parts (parted pending out ++ (c ∷ upto next)) ++ names (beyond next)
  unfolding run step
  byte_next c next before pending out last inside other no_dot h =
      let (st, stepped, rest) =
        >>=-eq-ok (at_byte size c pending out) _ (rw (other, no_dot) at h) in
      let st_is = at_byte-inv size c pending out stepped in
      inside (some c) (parted pending out ++ (c ∷ [])) last other
        (ap (run absolute size (some c) next) (sym st_is) ∙ rest)
      ∙ ap (λ t. parts t ++ names (beyond next))
          (append_assoc (parted pending out) (c ∷ []) (upto next))

  run-end :
      (before : Option ℕ) (pending : Bool) (out last : Str)
      → run absolute size before [] (pending, out) ≡ ok last
      → last ≡ out
  unfolding run
  run-end before pending out last h = ok_same h

  passed_slash :
      (c : ℕ) (next : Str) (before : Option ℕ) (st : State) (last : Str)
      → is_slash c ≡ true
      → in_run before ≡ true
      → run absolute size before (c ∷ next) st ≡ ok last
      → run absolute size (some c) next st ≡ ok last
  unfolding run step
  passed_slash c next before st last slash inside h = rw (slash, inside) at h

  passed_dot :
      (c : ℕ) (next : Str) (before : Option ℕ) (st : State) (last : Str)
      → is_slash c ≡ false
      → is_dot before c next ≡ true
      → run absolute size before (c ∷ next) st ≡ ok last
      → run absolute size (some c) next st ≡ ok last
  unfolding run step
  passed_dot c next before st last other dot h = rw (other, dot) at h

  start_slash : (c : ℕ) (next : Str) → Starting next → is_slash c ≡ true → Starting (c ∷ next)
  start_slash c next starting slash before pending out last ready waiting h =
      rw (names-slash c next slash) (elim (Bool-cases (in_run before)) [
        | inl inside ↦
            starting (some c) pending out last (inl slash) waiting
              (passed_slash c next before (pending, out) last slash inside h)
        | inr fresh ↦ slash_next c next before pending out last starting slash fresh h
      ])

  start_byte :
      (c : ℕ) (next : Str) → Starting next → Inside next → is_slash c ≡ false → Starting (c ∷ next)
  start_byte c next starting inside other before pending out last ready waiting h =
      elim (Bool-cases (is_dot before c next)) [
        | inl dot ↦
            let front = and_first (c == b'.' && at_start before) _ dot in
            let ends = Ends-by next (and_second (c == b'.' && at_start before) _ dot) in
            rw (dot_dropped c next (and_first (c == b'.') _ front) ends) (
              starting (some c) pending out last (inr ends) waiting
                (passed_dot c next before (pending, out) last other dot h))
        | inr no_dot ↦
            byte_next c next before pending out last inside other no_dot h
            ∙ ap (λ ps. ps ++ names (beyond next))
                (Open-parts pending out (c ∷ upto next) waiting
                  ∙ ap (λ ps. parts out ++ ps) (parts-upto c next other))
            ∙ append_assoc (parts out) ((c ∷ upto next) ∷ []) (names (beyond next))
            ∙ ap (λ ps. parts out ++ ps)
                (sym (name_kept before c next (starts_at before c next other ready) other no_dot))
      ]

  run-parts : (s : Str) → Starting s × Inside s
  run-parts [] = (
    λ before pending out last ready waiting h.
        rw (run-end before pending out last h, names-nothing) (sym (append-nil (parts out))),
    λ before out last going h.
        rw
          (
            run-end before false out last h,
            upto-nothing,
            beyond-nothing,
            names-nothing,
            append-nil out,
          )
          (sym (append-nil (parts out))),
  )
  run-parts (c ∷ next) =
      let (starting, inside) = run-parts next in
      (
        λ before pending out last ready waiting h. elim (Bool-cases (is_slash c)) [
          | inl slash ↦ start_slash c next starting slash before pending out last ready waiting h
          | inr other ↦
              start_byte c next starting inside other before pending out last ready waiting h
        ],
        λ before out last going h. elim (Bool-cases (is_slash c)) [
          | inl slash ↦
              rw (upto-slash c next slash, beyond-slash c next slash, append-nil out)
                (slash_next c next before false out last starting slash (not_run before going) h)
          | inr other ↦
              rw (upto-byte c next other, beyond-byte c next other)
                (byte_next c next before false out last inside other (never_dot before c next going)
                  h)
        ],
      )

-- Slashes at the end do not matter.
trim-parts : (n : ℕ) (out : Str) → parts (trim n out) ≡ parts out
unfolding trim
trim-parts zero out = refl
trim-parts (suc n) out = elim (Bool-cases (ltb 1 (length out) && ends_in_slash out)) [
  | inl e ↦
      let (o, c, same, slash) = before_slash out (and_second (ltb 1 (length out)) _ e) in
      let one = length-append o (c ∷ []) in
      let size : length out - 1 ≡ length o = omega (arith, one, ap length same) in
      let shorter : take (length out - 1) out ≡ o =
        ap (take (length out - 1)) same ∙ take-append_at (length out - 1) o (c ∷ []) size in
      rw e (
        trim-parts n (take (length out - 1) out)
        ∙ ap parts shorter
        ∙ sym (ap parts same ∙ parts-drop_slash o c slash))
  | inr e ↦ rw e refl
]

pub normalize-parts :
    (path : Str) (size : ℕ) (out : Str)
    → normalize (some path) size ≡ ok out
    → parts out ≡ names path
unfolding normalize
normalize-parts path size out h = elim (Bool-cases (size == 0)) [
  | inl e ↦ ground (arith, h, e)
  | inr e ↦
      let (last, ran, trimmed) =
        >>=-eq-ok (run (is_slash (byte_at path 0)) size none path (false, [])) _ (rw e at h) in
      ap parts (ok_same trimmed)
      ∙ trim-parts (length last) last
      ∙ (run-parts (is_slash (byte_at path 0)) size path).0 none false [] last (inl refl)
          (inr (inl refl)) ran
      ∙ ap (λ ps. ps ++ names path) parts-nothing
]
