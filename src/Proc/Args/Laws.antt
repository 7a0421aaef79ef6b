-- ===== src/Proc/Args/Laws.antt =====
-- px_classify_arg against what its three answers mean.
use mathlib.Core.Path.{subst}
use bxroot.Prelude.{
  ℕ, ◌<◌, ◌≡◌, ◌⊎◌, inl, inr, refl, sym, Bool, true, false, ◌&&◌, some, ◌++◌, Str, byte_at, length,
  drop, starts_with, starts_with-append, starts_with-drop, byte_at-append, ltb, ◌==◌, ◌!=◌,
  Bool-cases, and_first, and_second, arith,
}
use bxroot.Proc.Args.{ArgVerdict, keep, translate, already, has_root, classify_arg}

-- The root itself, or a path below it.
abbrev pub IsUnder : Str → Str → Type 0
IsUnder root arg =
    (rest : Str) × (arg ≡ root ++ rest) × ((byte_at rest 0 ≡ 0) ⊎ (byte_at rest 0 ≡ b'/'))

abbrev pub Means : Str → Str → ArgVerdict → Type 0
Means root arg keep = ¬ (byte_at arg 0 ≡ b'/')
Means root arg already = (byte_at arg 0 ≡ b'/') × IsUnder root arg
Means root arg translate = (byte_at arg 0 ≡ b'/') × (¬ IsUnder root arg)

clash : {A : Type 0} (b : Bool) → b ≡ true → b ≡ false → A
clash true h k = absurd (cc)
clash false h k = absurd (cc)

no_path : (c : ℕ) → ¬ (c ≡ b'/') → (c != b'/') ≡ true
no_path c h = ground (arith, h)

module _ (arg root : Str) (absolute : byte_at root 0 ≡ b'/') (long : 1 < length root) where
  IsUnder-root : has_root arg root ≡ true → IsUnder root arg
  IsUnder-root h =
      let front = and_first (starts_with arg root && ltb 1 (length root)) _ h in
      let starts = and_first (starts_with arg root) _ front in
      let rest = drop (length root) arg in
      let whole = starts_with-drop arg root starts in
      let next = and_second (starts_with arg root && ltb 1 (length root)) _ h in
      let at : byte_at arg (length root) ≡ byte_at rest 0 =
        subst (λ a. byte_at a (length root) ≡ byte_at rest 0) whole (byte_at-append root rest) in
      (rest, sym whole, ground (arith, next, at))

  root_over : IsUnder root arg → has_root arg root ≡ true
  root_over (rest, e, end) =
      subst (λ a. has_root a root ≡ true) (sym e)
        (rw (starts_with-append root rest, byte_at-append root rest) (ground (arith, long, end)))

  text-Means :
      (starts under : Bool)
      → (byte_at arg 0 == b'/') ≡ starts
      → has_root arg root ≡ under
      → Means root arg (classify_arg (some arg) (some root))
  unfolding classify_arg
  text-Means false under e u =
      let other : ¬ (byte_at arg 0 ≡ b'/') = ground (arith, e) in
      rw (no_path (byte_at arg 0) other)
        (elim (Bool-cases (byte_at arg 0 == 0)) [ inl z ↦ rw z other | inr z ↦ rw z other ])
  text-Means true true e u =
      let path : byte_at arg 0 ≡ b'/' = ground (arith, e) in
      rw (path, absolute, u) (path, IsUnder-root u)
  text-Means true false e u =
      let path : byte_at arg 0 ≡ b'/' = ground (arith, e) in
      rw (path, absolute, u) (path, λ there. clash (has_root arg root) (root_over there) u)

-- px_classify_arg by a root that is an absolute path other than "/" keeps what is not an absolute path,
-- finds translated already what is the root or stands below it, where the root ends at a component,
-- and has every other absolute path translated.
pub classify_arg-Means :
    (arg root : Str)
    → byte_at root 0 ≡ b'/'
    → 1 < length root
    → Means root arg (classify_arg (some arg) (some root))
classify_arg-Means arg root absolute long =
    text-Means arg root absolute long (byte_at arg 0 == b'/') (has_root arg root) refl refl
