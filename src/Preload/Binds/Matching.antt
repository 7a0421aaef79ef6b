-- ===== src/Preload/Binds/Matching.antt =====
-- preload.c: bind_match_index, and the loop of translate_path that is the same.
use mathlib.Core.Path.{subst}
use bxroot.Prelude.{
  ◌≤◌, ◌≡◌, refl, sym, ◌⊎◌, Bool, true, false, ◌&&◌, Option, none, some, List, [], ◌∷◌, Str,
  byte_at, length, ltb, ◌!=◌, if◌then◌else◌, Bool-cases, and_first, and_second, inl, inr, arith,
}
use bxroot.Preload.Config.{Bind, beneath}
use bxroot.Preload.Binds.{is_longer, match_from, bind_match}

abbrev pub IsAmong : Bind → List Bind → Type 0
IsAmong b [] = ⊥
IsAmong b (c ∷ cs) = (b ≡ c) ⊎ IsAmong b cs

-- The path is the target of the bind, or lies below it.
abbrev pub hits : Str → Bind → Bool
hits path b = length b.target != 0 && beneath path b.target

-- The best of the entries that were seen: one that is hit, and none that is hit has a longer target.
abbrev pub IsBest : Str → (Bind → Type 0) → Option Bind → Type 0
IsBest path Seen none = (c : Bind) → Seen c → hits path c ≡ false
IsBest path Seen (some b) =
    Seen b
    × (hits path b ≡ true)
    × ((c : Bind) → Seen c → hits path c ≡ true → length c.target ≤ length b.target)

module _ (path : Str) (Seen : Bind → Type 0) (b : Bind) where
  abbrev Next : Bind → Type 0
  Next c = Seen c ⊎ (c ≡ b)

  clash : {A : Type 0} (c : Bind) → hits path c ≡ true → hits path c ≡ false → A
  clash c h k = ground (arith, h, k)

  taken :
      (best : Option Bind)
      → hits path b ≡ true
      → is_longer (length b.target) best ≡ true
      → IsBest path Seen best
      → IsBest path Next (some b)
  taken none hit longer s = (
    inr refl,
    hit,
    λ c. λ seen h. elim seen [
      | inl old ↦ clash c h (s c old)
      | inr e ↦ subst (λ d. length c.target ≤ length d.target) e (omega arith)
    ],
  )
  taken (some best) hit longer (seen, was, all) = (
    inr refl,
    hit,
    λ c. λ new h. elim new [
      | inl old ↦ ground (arith, longer, all c old h)
      | inr e ↦ subst (λ d. length c.target ≤ length d.target) e (omega arith)
    ],
  )

  missed : (h : Bool) → (h && true) ≡ false → h ≡ false
  missed true lost = absurd (cc)
  missed false lost = refl

  shorter :
      (best : Bind)
      → hits path b ≡ true
      → (hits path b && ltb (length best.target) (length b.target)) ≡ false
      → length b.target ≤ length best.target
  shorter best h lost = ground (arith, h, lost)

  left :
      (best : Option Bind)
      → (hits path b && is_longer (length b.target) best) ≡ false
      → IsBest path Seen best
      → IsBest path Next best
  left none lost s = λ c. λ seen. elim seen [
    | inl old ↦ s c old
    | inr e ↦ subst (λ d. hits path d ≡ false) (sym e) (missed (hits path b) lost)
  ]
  left (some best) lost (seen, was, all) = (
    inl seen,
    was,
    λ c. λ new h. elim new [
      | inl old ↦ all c old h
      | inr e ↦
          subst (λ d. length d.target ≤ length best.target) (sym e)
            (shorter best (subst (λ d. hits path d ≡ true) e h) lost)
    ],
  )

pub is_absolute : (path : Str) → byte_at path 0 ≡ b'/' → (byte_at path 0 != b'/') ≡ false
is_absolute path h = ground (arith, h)

-- A round of the search.
round-IsBest :
    (path : Str) (Seen : Bind → Type 0) (b : Bind) (best : Option Bind)
    → IsBest path Seen best
    → IsBest path
        (Next path Seen b)
        (if hits path b && is_longer (length b.target) best then some b else best)
round-IsBest path Seen b best s =
    elim (Bool-cases (hits path b && is_longer (length b.target) best)) [
      | inl e ↦ rw e (taken path Seen b best (and_first _ _ e) (and_second (hits path b) _ e) s)
      | inr e ↦ rw e (left path Seen b best e s)
    ]

IsBest-weaker :
    (path : Str) (P Q : Bind → Type 0) (best : Option Bind)
    → ((c : Bind) → P c → Q c)
    → ((c : Bind) → Q c → P c)
    → IsBest path P best
    → IsBest path Q best
IsBest-weaker path P Q none f g s = λ c q. s c (g c q)
IsBest-weaker path P Q (some b) f g (seen, hit, all) = (f b seen, hit, λ c. λ q h. all c (g c q) h)

match_from-IsBest :
    (path : Str) (Seen : Bind → Type 0) (rest : List Bind) (best : Option Bind)
    → IsBest path Seen best
    → IsBest path (λ c. Seen c ⊎ IsAmong c rest) (match_from path rest best)
unfolding match_from
match_from-IsBest path Seen [] best s =
    IsBest-weaker path Seen (λ c. Seen c ⊎ ⊥) best (λ c p. inl p)
      (λ c q. elim q [ inl p ↦ p | inr no_one ↦ absurd no_one ]) s
match_from-IsBest path Seen (b ∷ bs) best s =
    IsBest-weaker path (λ c. Next path Seen b c ⊎ IsAmong c bs) (λ c. Seen c ⊎ IsAmong c (b ∷ bs)) _
      (λ c q. elim q [
        | inl p ↦ elim p [ inl old ↦ inl old | inr e ↦ inr (inl e) ]
        | inr m ↦ inr (inr m)
      ])
      (λ c q. elim q [
        | inl old ↦ inl (inl old)
        | inr m ↦ elim m [ inl e ↦ inl (inr e) | inr later ↦ inr later ]
      ])
      (match_from-IsBest path (Next path Seen b) bs _ (round-IsBest path Seen b best s))

-- The bind that is selected for an absolute path is one of the table whose target the path is, or lies
-- below, and no other such target is longer; where none is selected, there is no such bind.
pub bind_match-IsBest :
    (binds : List Bind) (path : Str)
    → byte_at path 0 ≡ b'/'
    → IsBest path (λ c. IsAmong c binds) (bind_match binds (some path))
unfolding bind_match
bind_match-IsBest binds path abs = rw (is_absolute path abs) (
    IsBest-weaker path (λ c. ⊥ ⊎ IsAmong c binds) (λ c. IsAmong c binds) _
      (λ c q. elim q [ inl no_one ↦ absurd no_one | inr m ↦ m ]) (λ c m. inr m)
      (match_from-IsBest path (λ c. ⊥) binds none (λ c no_one. absurd no_one)))
