-- ===== src/Fakeroot/Normalize/Laws.antt =====
-- The shape of what `fr_normalize_path` writes.
use bxroot.Prelude.{
  ℕ, zero, suc, ◌+◌, ◌<◌, ◌≡◌, refl, sym, ◌∙◌, ap, inl, inr, ◌⊎◌, Bool, true, false, not, ◌&&◌,
  ◌||◌, Option, none, some, [], ◌∷◌, ◌++◌, Str, byte_at, length, ltb, leb, ◌==◌, ==_iff, Bool-cases,
  Result, ok, fail, >>=-eq-ok, arith,
}
use bxroot.Fakeroot.Types.{FrCode}
use bxroot.Fakeroot.Normalize.{
  is_slash, ends_in_slash, put, State, at_slash, at_byte, in_run, is_dot, step, run, trim,
  normalize,
}

-- No slash behind a slash.
unfoldable pub no_double : Str → Bool
no_double [] = true
no_double (c ∷ []) = true
no_double (c ∷ d ∷ s) = not (is_slash c && is_slash d) && no_double (d ∷ s)

abbrev pub is_absolute : Str → Bool
is_absolute s = is_slash (byte_at s 0)

ends-append : (s : Str) (c : ℕ) → ends_in_slash (s ++ (c ∷ [])) ≡ is_slash c
unfolding ends_in_slash
ends-append [] c = refl
ends-append (a ∷ []) c = refl
ends-append (a ∷ b ∷ s) c = ends-append (b ∷ s) c

both_true : (a b : Bool) → (a && b) ≡ true → (a ≡ true) × (b ≡ true)
both_true true b h = (refl, h)
both_true false b h = cc

no_double-append :
    (s : Str) (c : ℕ)
    → no_double s ≡ true
    → (ends_in_slash s && is_slash c) ≡ false
    → no_double (s ++ (c ∷ [])) ≡ true
unfolding no_double ends_in_slash
no_double-append [] c h e = refl
no_double-append (a ∷ []) c h e = rw e refl
no_double-append (a ∷ b ∷ s) c h e =
    let (apart, rest) = both_true (not (is_slash a && is_slash b)) (no_double (b ∷ s)) h in
    rw apart (no_double-append (b ∷ s) c rest e)

-- What holds of the state between two bytes.
pub record IsTidy (absolute : Bool) (st : State) : Type 0 where
  pub single : no_double st.1 ≡ true
  pub root_only : ends_in_slash st.1 ≡ true → st.1 ≡ (b'/' ∷ [])
  pub waits : st.0 ≡ true → ends_in_slash st.1 ≡ false
  pub began : st.0 ≡ true → (length st.1 == 0) ≡ false
  pub rooted : is_absolute st.1 ≡ absolute

and_right : (a : Bool) {b : Bool} → b ≡ false → (a && b) ≡ false
and_right true h = h
and_right false h = refl

and_left : {a : Bool} (b : Bool) → a ≡ false → (a && b) ≡ false
and_left b h = rw h refl

or_false : (a : Bool) → (a || false) ≡ true → a ≡ true
or_false true h = refl
or_false false h = h

true-ne-false : true ≡ false → ⊥
true-ne-false h = cc

ok-ne-fail : {X : Type 0} {x : X} {e : FrCode} → ◌≡◌ {A = Result FrCode X} (fail e) (ok x) → ⊥
ok-ne-fail h = cc

pub ok_same : {X : Type 0} {x y : X} → ◌≡◌ {A = Result FrCode X} (ok x) (ok y) → y ≡ x
ok_same h = cc

pub put-append :
    (size c : ℕ) (out : Str) {out' : Str}
    → put size c out ≡ ok out'
    → (out' ≡ out ++ (c ∷ [])) × (length out + 1 < size)
unfolding put
put-append size c out h = elim (Bool-cases (leb size (length out + 1))) [
  | inl e ↦ absurd (ok-ne-fail (rw e at h))
  | inr e ↦ (ok_same (rw e at h), ground (arith, e))
]

same_head :
    (out : Str) (c : ℕ)
    → (length out == 0) ≡ false
    → is_absolute (out ++ (c ∷ [])) ≡ is_absolute out
same_head [] c h = cc
same_head (a ∷ out) c h = refl

name_head :
    (out : Str) (c : ℕ) → is_slash c ≡ false → is_absolute (out ++ (c ∷ [])) ≡ is_absolute out
name_head [] c h = h
name_head (a ∷ out) c h = refl

IsTidy-name :
    (absolute : Bool) (out : Str) (c : ℕ)
    → is_slash c ≡ false
    → no_double out ≡ true
    → is_absolute out ≡ absolute
    → IsTidy absolute (false, out ++ (c ∷ []))
IsTidy-name absolute out c name single rooted = record {
  single = no_double-append out c single (and_right (ends_in_slash out) name);
  root_only = λ h. absurd (true-ne-false (sym h ∙ ends-append out c ∙ name));
  waits = λ h. absurd (true-ne-false (sym h));
  began = λ h. absurd (true-ne-false (sym h));
  rooted = name_head out c name ∙ rooted;
}

module _ (absolute : Bool) (size c : ℕ) where
  at_byte-IsTidy :
      (pending : Bool) (out : Str) {st : State}
      → is_slash c ≡ false
      → IsTidy absolute (pending, out)
      → at_byte size c pending out ≡ ok st
      → IsTidy absolute st
  unfolding at_byte
  at_byte-IsTidy false out name tidy h =
      let (out', e, last) = >>=-eq-ok (put size c out) _ h in
      rw (ok_same last, (put-append size c out e).0)
        (IsTidy-name absolute out c name tidy.single tidy.rooted)
  at_byte-IsTidy true out name tidy h =
      let (out', e, rest) = >>=-eq-ok (put size b'/' out) _ h in
      let (out'', e', last) = >>=-eq-ok (put size c out') _ rest in
      let e1 = (put-append size b'/' out e).0 in
      let single : no_double (out ++ (b'/' ∷ [])) ≡ true =
        no_double-append out b'/' tidy.single (and_left true (tidy.waits refl)) in
      let rooted : is_absolute (out ++ (b'/' ∷ [])) ≡ absolute =
        same_head out b'/' (tidy.began refl) ∙ tidy.rooted in
      rw (ok_same last, (put-append size c out' e').0, e1)
        (IsTidy-name absolute (out ++ (b'/' ∷ [])) c name single rooted)

  at_slash-IsTidy :
      (pending : Bool) (out : Str) {st : State}
      → IsTidy absolute (pending, out)
      → at_slash absolute size pending out ≡ ok st
      → IsTidy absolute st
  unfolding at_slash
  at_slash-IsTidy pending [] tidy h =
      let relative : absolute ≡ false = sym tidy.rooted in rw (ok_same (rw relative at h)) tidy
  at_slash-IsTidy pending (a ∷ out) tidy h = rw (ok_same h) (record {
    single = tidy.single;
    root_only = tidy.root_only;
    waits = λ e. elim (Bool-cases (ends_in_slash (a ∷ out))) [
      | inr open_end ↦ open_end
      | inl slash ↦ tidy.waits (or_false pending (rw slash at e))
    ];
    began = λ e. ground arith;
    rooted = tidy.rooted;
  })

step-IsTidy :
    (absolute : Bool) (size : ℕ) (before : Option ℕ) (c : ℕ) (next : Str) (st : State) {st' : State}
    → IsTidy absolute st
    → step absolute size before c next st ≡ ok st'
    → IsTidy absolute st'
unfolding step
step-IsTidy absolute size before c next st tidy h = elim (Bool-cases (is_slash c)) [
  | inl slash ↦ elim (Bool-cases (in_run before)) [
    | inl inside ↦ rw (ok_same (rw (slash, inside) at h)) tidy
    | inr outside ↦ at_slash-IsTidy absolute size c st.0 st.1 tidy (rw (slash, outside) at h)
  ]
  | inr name ↦ elim (Bool-cases (is_dot before c next)) [
    | inl dot ↦ rw (ok_same (rw (name, dot) at h)) tidy
    | inr other ↦ at_byte-IsTidy absolute size c st.0 st.1 name tidy (rw (name, other) at h)
  ]
]

run-IsTidy :
    (absolute : Bool) (size : ℕ) (before : Option ℕ) (s : Str) (st : State) {out : Str}
    → IsTidy absolute st
    → run absolute size before s st ≡ ok out
    → (pending : Bool) × IsTidy absolute (pending, out)
unfolding run
run-IsTidy absolute size before [] st tidy h = (st.0, rw (ok_same h) tidy)
run-IsTidy absolute size before (c ∷ next) st tidy h =
    let (st', e, rest) = >>=-eq-ok (step absolute size before c next st) _ h in
    run-IsTidy absolute size (some c) next st' (step-IsTidy absolute size before c next st tidy e)
      rest

start-IsTidy : IsTidy false (false, [])
unfolding no_double ends_in_slash
start-IsTidy = record {
  single = refl;
  root_only = λ h. absurd (true-ne-false (sym h));
  waits = λ h. refl;
  began = λ h. absurd (true-ne-false (sym h));
  rooted = refl;
}

root-IsTidy : IsTidy true (false, b'/' ∷ [])
unfolding no_double ends_in_slash
root-IsTidy = record {
  single = refl;
  root_only = λ h. refl;
  waits = λ h. absurd (true-ne-false (sym h));
  began = λ h. refl;
  rooted = refl;
}

first_slash :
    (size : ℕ) (next : Str) {st : State}
    → step true size none b'/' next (false, []) ≡ ok st
    → st ≡ (false, b'/' ∷ [])
unfolding step at_slash
first_slash size next h =
    let (out, e, last) = >>=-eq-ok (put size b'/' []) _ h in
    ok_same last ∙ ap (λ o. (false, o)) (put-append size b'/' [] e).0

root_path-IsTidy :
    (size : ℕ) (next : Str) {out : Str}
    → run true size none (b'/' ∷ next) (false, []) ≡ ok out
    → (pending : Bool) × IsTidy true (pending, out)
unfolding run
root_path-IsTidy size next h =
    let (st, e, rest) = >>=-eq-ok (step true size none b'/' next (false, [])) _ h in
    run-IsTidy true size (some b'/') next st (rw (first_slash size next e) root-IsTidy) rest

whole-IsTidy :
    (path : Str) (size : ℕ) {out : Str}
    → run (is_slash (byte_at path 0)) size none path (false, []) ≡ ok out
    → (pending : Bool) × IsTidy (is_absolute path) (pending, out)
whole-IsTidy [] size h = run-IsTidy false size none [] (false, []) start-IsTidy h
whole-IsTidy (c ∷ next) size h = elim (Bool-cases (is_slash c)) [
  | inr name ↦
      rw name (run-IsTidy false size none (c ∷ next) (false, []) start-IsTidy (rw name at h))
  | inl slash ↦
      let same : c ≡ b'/' = (==_iff c b'/').0 slash in
      rw same (root_path-IsTidy size next (rw same at h))
]

trim-same : (n : ℕ) (out : Str) → (ends_in_slash out ≡ true → out ≡ (b'/' ∷ [])) → trim n out ≡ out
unfolding trim
trim-same zero out root = refl
trim-same (suc n) out root = elim (Bool-cases (ends_in_slash out)) [
  | inr open_end ↦ rw (and_right (ltb 1 (length out)) open_end) refl
  | inl slash ↦
      let short : ltb 1 (length out) ≡ false = rw (root slash) refl in
      rw (and_left (ends_in_slash out) short) refl
]

root_or_open :
    (out : Str)
    → (ends_in_slash out ≡ true → out ≡ (b'/' ∷ []))
    → (ends_in_slash out ≡ false) ⊎ (out ≡ (b'/' ∷ []))
root_or_open out root = elim (Bool-cases (ends_in_slash out)) [
  | inl slash ↦ inr (root slash)
  | inr open_end ↦ inl open_end
]

-- What `fr_normalize_path` writes has no slash behind a slash, and none at its end unless it is "/"; it
-- is absolute exactly if the path is.
pub normalize-shape :
    (path : Str) (size : ℕ) (out : Str)
    → normalize (some path) size ≡ ok out
    → (no_double out ≡ true)
      × ((ends_in_slash out ≡ false) ⊎ (out ≡ (b'/' ∷ [])))
      × (is_absolute out ≡ is_absolute path)
unfolding normalize
normalize-shape path size out h = elim (Bool-cases (size == 0)) [
  | inl e ↦ absurd (ok-ne-fail (rw e at h))
  | inr e ↦
      let (written, ran, last) =
        >>=-eq-ok (run (is_slash (byte_at path 0)) size none path (false, [])) _ (rw e at h) in
      let (pending, tidy) = whole-IsTidy path size ran in
      let same : out ≡ written = ok_same last ∙ trim-same (length written) written tidy.root_only in
      rw same (tidy.single, root_or_open written tidy.root_only, tidy.rooted)
]
