-- ===== src/Preload/Translate/Rounds.antt =====
-- preload.c, translate_path: how deep the function calls itself.
use bxroot.Prelude.{
  ℕ, ◌≡◌, refl, true, false, Option, none, some, ◌++◌, Str, codes, length, drop, Bool-cases, inl,
  inr,
}
use bxroot.Preload.Config.{max_path_len, Bind, Config, World, beneath, printed}
use bxroot.Preload.Binds.{match_from}
use bxroot.Preload.Termux.{
  Mapped, mapped, no_prefix, overlong, termux_compat_enabled, termux_compat_map,
}
use bxroot.Preload.Termux.Laws.{Maps}
use bxroot.Preload.Dots.Clean.{IsGuest}
use bxroot.Preload.Translate.{
  Translated, root_of, shm_guest, shm_tmp_base, redirected, compatible, unbound, bound,
  absolute_path, translate_round,
}
use bxroot.Preload.Translate.Landing.{is_absolute}

abbrev pub Call : Type 0
Call = Str → ℕ → Translated

-- Two ways to make the further calls agree on a kind of path.
abbrev pub AgreeOn : (Str → Type 0) → Call → Call → Type 0
AgreeOn P a a' = (path : Str) (size : ℕ) → P path → a path size ≡ a' path size

-- Where an absolute path without ".." is sent back to the function.
abbrev pub shm_redirect : Config → Str → Option Str
shm_redirect cfg path =
    printed max_path_len
      (shm_tmp_base cfg ++ (codes "/.bxroot-shm" ++ drop (length shm_guest) path))

abbrev pub Redirects : (Str → Type 0) → Option Str → Type 0
Redirects P none = Unit
Redirects P (some s) = P s

module _ (cfg : Config) (w : World) (P : Str → Type 0) (a a' : Call) (agree : AgreeOn P a a') where
  redirected-alike :
      (size : ℕ) (found : Option Str)
      → Redirects P found
      → redirected a size found ≡ redirected a' size found
  redirected-alike size none r = refl
  redirected-alike size (some s) r = agree s size r

  compatible-alike :
      (path : Str) (size : ℕ) (found : Mapped)
      → Maps P found
      → compatible a cfg path size found ≡ compatible a' cfg path size found
  compatible-alike path size no_prefix m = refl
  compatible-alike path size overlong m = refl
  compatible-alike path size (mapped s) m = agree s size m

  unbound-alike :
      (path : Str) (size : ℕ)
      → (beneath path shm_guest ≡ true → Redirects P (shm_redirect cfg path))
      → (beneath path shm_guest ≡ false → Maps P (termux_compat_map path max_path_len))
      → unbound a cfg w path size ≡ unbound a' cfg w path size
  unfolding unbound
  unbound-alike path size shm termux = elim (Bool-cases (beneath path shm_guest)) [
    | inl e ↦ rw e (redirected-alike size _ (shm e))
    | inr e ↦ rw e (elim (Bool-cases (termux_compat_enabled (some (root_of cfg)) w.no_termux)) [
      | inl t ↦ rw t (compatible-alike path size _ (termux e))
      | inr t ↦ rw t refl
    ])
  ]

  bound-alike :
      (path : Str) (size : ℕ) (found : Option Bind)
      → unbound a cfg w path size ≡ unbound a' cfg w path size
      → bound a cfg w path size found ≡ bound a' cfg w path size found
  bound-alike path size none u = u
  bound-alike path size (some b) u = refl

  -- A round at an absolute path without "..".
  pub guest_round-alike :
      (path : Str) (size : ℕ)
      → IsGuest path
      → (beneath path shm_guest ≡ true → Redirects P (shm_redirect cfg path))
      → (beneath path shm_guest ≡ false → Maps P (termux_compat_map path max_path_len))
      → translate_round a cfg w path size ≡ translate_round a' cfg w path size
  unfolding translate_round absolute_path
  guest_round-alike path size g shm termux =
      rw
        (
          is_absolute path g.absolute,
          g.clean,
          bound-alike path size (match_from path cfg.binds none)
              (unbound-alike path size shm termux),
        )
        refl
