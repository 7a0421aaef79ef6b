-- ===== src/Preload/Translate/Depth.antt =====
-- preload.c, translate_path: that the function returns, with the number of rounds that it takes.
use mathlib.Core.Path.{subst}
use bxroot.Prelude.{
  ℕ, suc, ◌-◌, ◌≤◌, ◌≡◌, refl, ap, ◌∙◌, Bool, true, false, Str, byte_at, ◌!=◌, Bool-cases, inl, inr,
  arith,
}
use bxroot.Preload.Config.{max_path_len, Config, World}
use bxroot.Preload.Reverse.{Absolute}
use bxroot.Preload.Reverse.Laws.{IsCwd, Leads, absolutize-Leads}
use bxroot.Preload.Termux.{Mapped, mapped, no_prefix, overlong}
use bxroot.Preload.Termux.Laws.{Maps}
use bxroot.Preload.Magic.{proc_magic_link_target}
use bxroot.Preload.Dots.{path_has_dotdot, Resolved, resolved, too_long, too_many_links}
use bxroot.Preload.Dots.Clean.{
  IsGuest, Resolves, guest_resolve_dotdot-IsGuest, IsWalk-clean, IsWalk-first,
}
use bxroot.Preload.Dots.Agreeing.{AskedAlike, guest_resolve_dotdot-alike}
use bxroot.Preload.Translate.{
  failed, kernel_link, link_of, after_dots, clamped, from_cwd, relative, link_target, guest_view,
  shm_tmp_base, translate_round, translate_on, translate_path, rounds,
}
use bxroot.Preload.Translate.Landing.{is_absolute}
use bxroot.Preload.Translate.Rounds.{Call, AgreeOn, guest_round-alike}
use bxroot.Preload.Translate.Kinds.{
  IsFinal, IsPlainGuest, termux_compat_map-IsFinal, shm_redirect-IsPlainGuest,
}

clash : {A : Type 0} (b : Bool) → b ≡ true → b ≡ false → A
clash true h k = absurd (cc)
clash false h k = absurd (cc)

Maps-weaker : (P Q : Str → Type 0) (m : Mapped) → ((s : Str) → P s → Q s) → Maps P m → Maps Q m
Maps-weaker P Q no_prefix f h = tt
Maps-weaker P Q overlong f h = tt
Maps-weaker P Q (mapped s) f h = f s h

abbrev IsAbsolute : Str → Type 0
IsAbsolute path = byte_at path 0 ≡ b'/'

module _ (cfg : Config) (w : World) (a a' : Call) where
  abbrev Rounds : (Str → Type 0) → Type 0
  Rounds P = AgreeOn P (λ p s. translate_round a cfg w p s) (λ p s. translate_round a' cfg w p s)

  IsFinal-round : Rounds IsFinal
  IsFinal-round path size f =
      guest_round-alike cfg w (λ s. ⊥) a a' (λ p s h. absurd h) path size f.guest
        (λ e. clash _ e f.not_shm) (λ e. f.not_termux)

  plain_round : AgreeOn IsFinal a a' → Rounds IsPlainGuest
  plain_round agree path size p =
      guest_round-alike cfg w IsFinal a a' agree path size p.guest (λ e. clash _ e p.not_shm)
        (λ e. termux_compat_map-IsFinal path max_path_len p.guest)

  IsGuest-round : IsGuest (shm_tmp_base cfg) → AgreeOn IsPlainGuest a a' → Rounds IsGuest
  IsGuest-round tmp agree path size g =
      guest_round-alike cfg w IsPlainGuest a a' agree path size g
        (shm_redirect-IsPlainGuest cfg path tmp g)
        (λ e.
          Maps-weaker IsFinal IsPlainGuest _
            (λ s f. record { guest = f.guest; not_shm = f.not_shm })
            (termux_compat_map-IsFinal path max_path_len g))

  link_target-alike : AgreeOn IsGuest a a' → AskedAlike (link_target a cfg w) (link_target a' cfg w)
  link_target-alike agree cur walked ne =
      ap (λ r. link_of (proc_magic_link_target cfg w cur max_path_len) (kernel_link w r))
        (agree cur max_path_len
          (record { absolute = IsWalk-first cur walked ne; clean = IsWalk-clean cur walked }))

  after_dots-alike :
      (size : ℕ) (r : Resolved)
      → AgreeOn IsGuest a a'
      → Resolves r
      → after_dots a cfg size r ≡ after_dots a' cfg size r
  after_dots-alike size (resolved g) agree ok_guest = agree g size ok_guest
  after_dots-alike size too_long agree ok_guest = refl
  after_dots-alike size too_many_links agree ok_guest = refl

  clamped-alike :
      (path : Str) (size : ℕ)
      → AgreeOn IsGuest a a'
      → clamped a cfg w path size ≡ clamped a' cfg w path size
  unfolding clamped
  clamped-alike path size agree =
      after_dots-alike size _ agree
        (guest_resolve_dotdot-IsGuest (link_target a cfg w) (guest_view cfg path) max_path_len)
      ∙ ap (after_dots a' cfg size) (
          guest_resolve_dotdot-alike _ _ (guest_view cfg path) max_path_len
            (link_target-alike agree))

  -- A path with ".." asks of paths without.
  IsAbsolute-round :
      IsGuest (shm_tmp_base cfg)
      → AgreeOn IsPlainGuest a a'
      → AgreeOn IsGuest a a'
      → Rounds IsAbsolute
  unfolding translate_round
  IsAbsolute-round tmp plain agree path size abs = elim (Bool-cases (path_has_dotdot path)) [
    | inl e ↦ rw (is_absolute path abs, e, clamped-alike path size agree) refl
    | inr e ↦ IsGuest-round tmp plain path size (record { absolute = abs; clean = e })
  ]

  -- A relative path asks of an absolute one.
  from_cwd-alike :
      (path : Str) (size : ℕ) (found : Absolute)
      → AgreeOn IsAbsolute a a'
      → Leads found
      → from_cwd a path size found ≡ from_cwd a' path size found
  from_cwd-alike path size Absolute.failed agree l = refl
  from_cwd-alike path size Absolute.unchanged agree l = refl
  from_cwd-alike path size (Absolute.absolute whole) agree l = agree whole size l

  any_round : IsCwd w → AgreeOn IsAbsolute a a' → Rounds IsAbsolute → Rounds (λ path. Unit {0})
  unfolding translate_round relative
  any_round cwd agree absolute path size any = elim (Bool-cases (byte_at path 0 != b'/')) [
    | inl e ↦ rw e (elim (Bool-cases (path_has_dotdot path)) [
      | inl d ↦
          rw (d, from_cwd-alike path size _ agree (absolutize-Leads cfg w path max_path_len cwd))
            refl
      | inr d ↦ rw d refl
    ])
    | inr e ↦ absolute path size (ground (arith, e))
  ]

module _ (cfg : Config) (w : World) (last last' : Call) (tmp : IsGuest (shm_tmp_base cfg))
    (cwd : IsCwd w) where
  abbrev On : ℕ → Call
  On n path size = translate_on last n cfg w path size

  abbrev Other : ℕ → Call
  Other n path size = translate_on last' n cfg w path size

  depth_1 : (n m : ℕ) → AgreeOn IsFinal (On (suc n)) (Other (suc m))
  unfolding translate_on
  depth_1 n m = IsFinal-round cfg w (On n) (Other m)

  depth_2 : (n m : ℕ) → AgreeOn IsPlainGuest (On (suc (suc n))) (Other (suc (suc m)))
  unfolding translate_on
  depth_2 n m = plain_round cfg w (On (suc n)) (Other (suc m)) (depth_1 n m)

  depth_3 : (n m : ℕ) → AgreeOn IsGuest (On (suc (suc (suc n)))) (Other (suc (suc (suc m))))
  unfolding translate_on
  depth_3 n m = IsGuest-round cfg w (On (suc (suc n))) (Other (suc (suc m))) tmp (depth_2 n m)

  depth_4 :
      (n m : ℕ)
      → AgreeOn IsAbsolute (On (suc (suc (suc (suc n))))) (Other (suc (suc (suc (suc m)))))
  unfolding translate_on
  depth_4 n m =
      IsAbsolute-round cfg w (On (suc (suc (suc n)))) (Other (suc (suc (suc m)))) tmp
        (depth_2 (suc n) (suc m)) (depth_3 n m)

  depth_5 :
      (n m : ℕ)
      → AgreeOn
          (λ path. Unit)
          (On (suc (suc (suc (suc (suc n))))))
          (Other (suc (suc (suc (suc (suc m))))))
  unfolding translate_on
  depth_5 n m =
      any_round cfg w (On (suc (suc (suc (suc n))))) (Other (suc (suc (suc (suc m))))) cwd
        (depth_4 n m) (depth_4 (suc n) (suc m))

-- translate_path returns: five rounds of its calls of itself are enough for every path, whatever the
-- links are. With five rounds or more the answer is the same, and it is so whatever would be answered
-- to calls behind the last round, so that it never depends on one. The directory for shared memory is an
-- absolute path without "..", and the working directory an absolute path.
pub translate_on-enough :
    (cfg : Config) (w : World) (last : Call) (fuel : ℕ) (path : Str) (size : ℕ)
    → IsGuest (shm_tmp_base cfg)
    → IsCwd w
    → rounds ≤ fuel
    → translate_on last fuel cfg w path size ≡ translate_path cfg w path size
unfolding translate_path
translate_on-enough cfg w last fuel path size tmp cwd enough =
    let five : suc (suc (suc (suc (suc (fuel - 5))))) ≡ fuel = omega arith in
    subst
      (λ n. translate_on last n cfg w path size ≡ translate_on (λ p s. failed) 5 cfg w path size)
      five (depth_5 cfg w last (λ p s. failed) tmp cwd (fuel - 5) 0 path size tt)
