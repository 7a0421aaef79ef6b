-- ===== src/Preload/Translate/Kinds.antt =====
-- preload.c and termux_compat.h: the kinds of path that translate_path is called with, and where it sends
-- each of them.
use mathlib.Core.Path.{subst}
use bxroot.Prelude.{
  ℕ, ◌≡◌, refl, sym, ap, ◌∙◌, Bool, true, false, ◌&&◌, [], ◌∷◌, ◌++◌, Str, codes, byte_at,
  starts_with, starts_with-drop, length, drop, ltb, ◌==◌, Bool-cases, and_first, and_second, inl,
  inr, arith, append_assoc, append-nil,
}
use bxroot.Preload.Config.{max_path_len, Config, beneath, ends_name, text_or}
use bxroot.Preload.Termux.{termux_compat_map}
use bxroot.Preload.Termux.Laws.{Maps, termux_compat_map-Maps}
use bxroot.Preload.Dots.{path_has_dotdot, dotdot_from}
use bxroot.Preload.Dots.Clean.{IsGuest, dotdot_from-append}
use bxroot.Preload.Translate.{shm_guest, shm_tmp_base}
use bxroot.Preload.Translate.Landing.{append_first}
use bxroot.Preload.Translate.Rounds.{Redirects, shm_redirect}

-- What is left behind a prefix that ends a component.
abbrev IsTail : Str → Type 0
IsTail [] = Unit
IsTail (c ∷ s) = c ≡ b'/'

tail_of : (s : Str) → ends_name s ≡ true → IsTail s
tail_of [] h = tt
tail_of (c ∷ s) h = ground (arith, h)

slash-clean :
    (front to tail : Str)
    → path_has_dotdot (front ++ (b'/' ∷ tail)) ≡ false
    → path_has_dotdot to ≡ false
    → path_has_dotdot (to ++ (b'/' ∷ tail)) ≡ false
unfolding path_has_dotdot
slash-clean front to tail h k =
    ground (arith, h, k, dotdot_from-append b'/' front tail, dotdot_from-append b'/' to tail)

-- A path without ".." keeps none when its front is replaced by another such.
replaced-clean :
    (front to tail : Str)
    → IsTail tail
    → path_has_dotdot (front ++ tail) ≡ false
    → path_has_dotdot to ≡ false
    → path_has_dotdot (to ++ tail) ≡ false
replaced-clean front to [] t h k = rw (append-nil to) k
replaced-clean front to (c ∷ tail) t h k =
    subst (λ d. path_has_dotdot (to ++ (d ∷ tail)) ≡ false) (sym t)
      (slash-clean front to tail (subst (λ d. path_has_dotdot (front ++ (d ∷ tail)) ≡ false) t h) k)

-- Neither in /dev/shm nor of Termux: the function does not call itself.
pub record IsFinal (path : Str) : Type 0 where
  pub guest : IsGuest path
  pub not_shm : beneath path shm_guest ≡ false
  pub not_termux : Maps (λ s. ⊥) (termux_compat_map path max_path_len)

-- Not in /dev/shm.
pub record IsPlainGuest (path : Str) : Type 0 where
  pub guest : IsGuest path
  pub not_shm : beneath path shm_guest ≡ false

-- A target of the table of Termux is final, with whatever stands behind it.
module _ (front tail : Str) (t : IsTail tail)
    (clean : path_has_dotdot (front ++ tail) ≡ false) where
  under-IsFinal :
      (to : Str)
      → byte_at (to ++ tail) 0 ≡ b'/'
      → path_has_dotdot to ≡ false
      → beneath (to ++ tail) shm_guest ≡ false
      → Maps (λ s. ⊥) (termux_compat_map (to ++ tail) max_path_len)
      → IsFinal (to ++ tail)
  under-IsFinal to abs k s m = record {
    guest = record { absolute = abs; clean = replaced-clean front to tail t clean k };
    not_shm = s;
    not_termux = m;
  }

  tmp-IsFinal : IsFinal (codes "/tmp" ++ tail)
  unfolding path_has_dotdot dotdot_from beneath starts_with termux_compat_map
  tmp-IsFinal = under-IsFinal (codes "/tmp") refl refl refl tt

  etc-IsFinal : IsFinal (codes "/etc" ++ tail)
  unfolding path_has_dotdot dotdot_from beneath starts_with termux_compat_map
  etc-IsFinal = under-IsFinal (codes "/etc") refl refl refl tt

  var-IsFinal : IsFinal (codes "/var" ++ tail)
  unfolding path_has_dotdot dotdot_from beneath starts_with termux_compat_map
  var-IsFinal = under-IsFinal (codes "/var") refl refl refl tt

  usr-IsFinal : IsFinal (codes "/usr" ++ tail)
  unfolding path_has_dotdot dotdot_from beneath starts_with termux_compat_map
  usr-IsFinal = under-IsFinal (codes "/usr") refl refl refl tt

  root-IsFinal : IsFinal (codes "/root" ++ tail)
  unfolding path_has_dotdot dotdot_from beneath starts_with termux_compat_map
  root-IsFinal = under-IsFinal (codes "/root") refl refl refl tt

-- What stands behind a name that is replaced.
behind_prefix :
    (path base from : Str)
    → starts_with path base ≡ true
    → beneath (drop (length base) path) from ≡ true
    → (base ++ from) ++ drop (length from) (drop (length base) path) ≡ path
unfolding beneath
behind_prefix path base from b f =
    append_assoc base from _
    ∙ ap (λ s. base ++ s) (starts_with-drop (drop (length base) path) from (and_first _ _ f))
    ∙ starts_with-drop path base b

module _ (path base from : Str) (g : IsGuest path) (b : starts_with path base ≡ true)
    (f : beneath (drop (length base) path) from ≡ true) where
  prefix-tail : IsTail (drop (length from) (drop (length base) path))
  unfolding beneath
  prefix-tail = tail_of _ (and_second (starts_with (drop (length base) path) from) _ f)

  prefix-clean :
      path_has_dotdot ((base ++ from) ++ drop (length from) (drop (length base) path)) ≡ false
  prefix-clean = rw (behind_prefix path base from b f) g.clean

-- What bx_termux_compat_map gives is final.
pub termux_compat_map-IsFinal :
    (path : Str) (size : ℕ) → IsGuest path → Maps IsFinal (termux_compat_map path size)
termux_compat_map-IsFinal path size g = termux_compat_map-Maps IsFinal path size (λ base b. (
  λ f.
      tmp-IsFinal _ _ (prefix-tail path base (codes "/usr/tmp") g b f)
        (prefix-clean path base (codes "/usr/tmp") g b f),
  (
    λ f.
        etc-IsFinal _ _ (prefix-tail path base (codes "/usr/etc") g b f)
          (prefix-clean path base (codes "/usr/etc") g b f),
    (
      λ f.
          var-IsFinal _ _ (prefix-tail path base (codes "/usr/var") g b f)
            (prefix-clean path base (codes "/usr/var") g b f),
      (
        λ f.
            usr-IsFinal _ _ (prefix-tail path base (codes "/usr") g b f)
              (prefix-clean path base (codes "/usr") g b f),
        (
          λ f.
              root-IsFinal _ _ (prefix-tail path base (codes "/home") g b f)
                (prefix-clean path base (codes "/home") g b f),
          tt,
        ),
      ),
    ),
  ),
))

-- No slash of the text is followed by a dot, or stands at its end.
abbrev NoHidden : Str → Type 0
NoHidden [] = Unit
NoHidden (c ∷ []) = (c == b'/') ≡ false
NoHidden (c ∷ (d ∷ s)) = ((c == b'/' && d == b'.') ≡ false) × NoHidden (d ∷ s)

ends_front : (a r : Str) → ends_name (a ++ (b'/' ∷ r)) ≡ true → ends_name a ≡ true
ends_front [] r h = refl
ends_front (c ∷ a) r h = h

clash : (b : Bool) → b ≡ true → b ≡ false → ⊥
clash true h k = cc
clash false h k = cc

shm-NoHidden : NoHidden shm_guest
shm-NoHidden = (refl, (refl, (refl, (refl, (refl, (refl, (refl, refl)))))))

tmp_outside : beneath (codes "/tmp") shm_guest ≡ false
unfolding beneath starts_with
tmp_outside = refl

-- A prefix of that kind, of a text with "/." in it, ends before that.
before_hidden :
    (a s p : Str)
    → NoHidden p
    → starts_with (a ++ (b'/' ∷ (b'.' ∷ s))) p ≡ true
    → ends_name (drop (length p) (a ++ (b'/' ∷ (b'.' ∷ s)))) ≡ true
    → (starts_with a p && ends_name (drop (length p) a)) ≡ true
unfolding starts_with
before_hidden a s [] n h e = ends_front a (b'.' ∷ s) e
before_hidden [] s (x ∷ []) n h e = ground (arith, n, h)
before_hidden [] s (x ∷ (y ∷ p)) n h e = ground (arith, n.0, h)
before_hidden (c ∷ a) s (x ∷ []) n h e = rw (and_first (c == x) _ h) (ends_front a (b'.' ∷ s) e)
before_hidden (c ∷ a) s (x ∷ (y ∷ p)) n h e =
    rw (and_first (c == x) _ h) (before_hidden a s (y ∷ p) n.1 (and_second (c == x) _ h) e)

shm_tmp_base-outside : (cfg : Config) → beneath (shm_tmp_base cfg) shm_guest ≡ false
unfolding shm_tmp_base
shm_tmp_base-outside cfg =
    elim (Bool-cases (beneath (text_or cfg.tmp_dir (codes "/tmp")) shm_guest)) [
      | inl e ↦ rw e tmp_outside
      | inr e ↦ rw e e
    ]

redirect-outside :
    (base s : Str)
    → beneath base shm_guest ≡ false
    → beneath (base ++ (b'/' ∷ (b'.' ∷ s))) shm_guest ≡ false
unfolding beneath
redirect-outside base s out = elim (Bool-cases (beneath (base ++ (b'/' ∷ (b'.' ∷ s))) shm_guest)) [
  | inl e ↦ absurd (
      clash _
        (before_hidden base s shm_guest shm-NoHidden (and_first _ _ e)
          (and_second (starts_with (base ++ (b'/' ∷ (b'.' ∷ s))) shm_guest) _ e))
        out)
  | inr e ↦ e
]

hidden-clean :
    (base : Str)
    → path_has_dotdot base ≡ false
    → path_has_dotdot (base ++ codes "/.bxroot-shm") ≡ false
unfolding path_has_dotdot dotdot_from
hidden-clean base h = rw (dotdot_from-append b'/' base (codes ".bxroot-shm"), h) refl

module _ (cfg : Config) (path : Str) (tmp : IsGuest (shm_tmp_base cfg)) (g : IsGuest path)
    (shm : beneath path shm_guest ≡ true) where
  abbrev redirect : Str
  redirect = shm_tmp_base cfg ++ (codes "/.bxroot-shm" ++ drop (length shm_guest) path)

  redirect-clean : path_has_dotdot redirect ≡ false
  unfolding beneath
  redirect-clean =
      rw (← append_assoc (shm_tmp_base cfg) (codes "/.bxroot-shm") (drop (length shm_guest) path)) (
        replaced-clean shm_guest (shm_tmp_base cfg ++ codes "/.bxroot-shm")
          (drop (length shm_guest) path) (tail_of _ (and_second (starts_with path shm_guest) _ shm))
          (rw (starts_with-drop path shm_guest (and_first _ _ shm)) g.clean)
          (hidden-clean (shm_tmp_base cfg) tmp.clean))

  redirect-IsPlainGuest : IsPlainGuest redirect
  redirect-IsPlainGuest = record {
    guest = record {
      absolute = append_first (shm_tmp_base cfg) _ tmp.absolute;
      clean = redirect-clean;
    };
    not_shm = redirect-outside (shm_tmp_base cfg) _ (shm_tmp_base-outside cfg);
  }

  -- Where a path in /dev/shm is sent.
  pub shm_redirect-IsPlainGuest : Redirects IsPlainGuest (shm_redirect cfg path)
  shm_redirect-IsPlainGuest = elim (Bool-cases (ltb (length redirect) max_path_len)) [
    | inl e ↦ rw e redirect-IsPlainGuest
    | inr e ↦ rw e tt
  ]
