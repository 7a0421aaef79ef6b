-- ===== src/Launcher/Binds/Options.antt =====
-- launcher.c: what the bind options leave in the table.
use mathlib.Core.Path.{subst}
use bxroot.Prelude.{
  ℕ, ◌≤◌, ◌<◌, ◌≡◌, ◌≢◌, refl, Bool, true, false, Option, none, some, List, [], ◌∷◌, ◌++◌, Str,
  byte_at, has_byte, length, ◌==◌, ltb, leb, Bool-cases, inl, inr, arith, Result, ok, >>=-eq-ok,
  length-append, has_byte-append_false, reject_if, ◌||◌,
}
use bxroot.Preload.Config.{Bind}
use bxroot.Preload.Binds.{cut, strip_trailing_slash, max_binds}
use bxroot.Preload.Binds.Texts.{IsPart, cut_front, cut-none_free}
use bxroot.Preload.Binds.Stripping.{strip-free}
use bxroot.Launcher.Binds.{
  OptionError, has_semicolon, guest_of, spec_of, check_spec, parse_modifier, from_dir, dir_part,
  joined, joined_max, host_abspath, or_raw, split_spec, add_bind_ro, add_spec, add_specs,
}
use bxroot.Launcher.Binds.Texts.{IsPlain, IsEncodable, All}

ok-pair :
    {A B : Type 0} (a a' : A) (b b' : B)
    → ◌≡◌ {A = Result OptionError (A × B)} (ok (a, b)) (ok (a', b'))
    → (a ≡ a') × (b ≡ b')
ok-pair a a' b b' h = (cc, cc)

guest_of-free :
    (rest guest : Str) (ro : Bool) (found : Option (Str × Str))
    → cut b':' rest ≡ found
    → guest_of rest found ≡ ok (guest, ro)
    → has_byte b':' guest ≡ false
guest_of-free rest guest ro none e h =
    subst (λ g. has_byte b':' g ≡ false) (ok-pair rest guest false ro h).0
      (cut-none_free b':' rest e)
guest_of-free rest guest ro (some (g, m)) e h =
    let (readonly, _, same) = >>=-eq-ok (parse_modifier m) (λ r. ok (g, r)) h in
    subst (λ t. has_byte b':' t ≡ false) (ok-pair g guest readonly ro same).0
      (cut_front b':' b':' rest g m e).0

spec_of-free :
    (spec host guest : Str) (ro : Bool) (found : Option (Str × Str))
    → cut b':' spec ≡ found
    → spec_of spec found ≡ ok (host, guest, ro)
    → (has_byte b':' host ≡ false) × (has_byte b':' guest ≡ false)
spec_of-free spec host guest ro none e h =
    let free = cut-none_free b':' spec e in
    (subst (λ t. has_byte b':' t ≡ false) (cc) free, subst (λ t. has_byte b':' t ≡ false) (cc) free)
spec_of-free spec host guest ro (some (front, rest)) e h =
    let ((g, r), got, same) =
      >>=-eq-ok (guest_of rest (cut b':' rest)) (λ (g, r). ok (front, g, r)) h in
    (
      subst (λ t. has_byte b':' t ≡ false) (cc) (cut_front b':' b':' spec front rest e).0,
      subst (λ t. has_byte b':' t ≡ false) (cc) (guest_of-free rest g r _ refl got),
    )

-- The working directory, where it is to be had, has neither separator.
abbrev pub IsPlainDir : Option Str → Type 0
IsPlainDir none = Unit
IsPlainDir (some dir) = (has_byte b':' dir ≡ false) × (has_byte b';' dir ≡ false)

abbrev dir_host : Str → Str → Str
dir_host dir host = dir_part (strip_trailing_slash dir) ++ (b'/' ∷ host)

slash-ne : (a b : Str) → a ++ (b'/' ∷ b) ≢ []
slash-ne [] b e = cc
slash-ne (x ∷ a) b e = cc

dir_part-free : (c : ℕ) (dir : Str) → has_byte c dir ≡ false → has_byte c (dir_part dir) ≡ false
unfolding has_byte
dir_part-free c dir h = ground (arith, h)

dir_host-free :
    (c : ℕ) (dir host : Str)
    → (b'/' == c) ≡ false
    → has_byte c dir ≡ false
    → has_byte c host ≡ false
    → has_byte c (dir_host dir host) ≡ false
unfolding has_byte
dir_host-free c dir host s d h =
    has_byte-append_false c (dir_part (strip_trailing_slash dir)) (b'/' ∷ host)
      (dir_part-free c (strip_trailing_slash dir) (strip-free c dir d)) (rw (s, h) refl)

dir_host-IsPlain :
    (dir host : Str) → IsPlainDir (some dir) → IsPlain host → IsPlain (dir_host dir host)
dir_host-IsPlain dir host d p = (
  (slash-ne (dir_part (strip_trailing_slash dir)) host, dir_host-free b';' dir host refl d.1 p.0.1),
  dir_host-free b':' dir host refl d.0 p.1,
)

joined-IsPlain :
    (dir host : Str)
    → IsPlainDir (some dir)
    → IsPlain host
    → IsPlain (or_raw host (joined dir host))
joined-IsPlain dir host d p = elim (Bool-cases (ltb (length (dir_host dir host)) joined_max)) [
  | inl e ↦ rw e (dir_host-IsPlain dir host d p)
  | inr e ↦ rw e p
]

from_dir-IsPlain :
    (cwd : Option Str) (host : Str)
    → IsPlainDir cwd
    → IsPlain host
    → IsPlain (or_raw host (from_dir cwd host))
from_dir-IsPlain none host d p = p
from_dir-IsPlain (some dir) host d p = joined-IsPlain dir host d p

host_abspath-IsPlain :
    (cwd : Option Str) (host : Str)
    → IsPlainDir cwd
    → IsPlain host
    → IsPlain (or_raw host (host_abspath cwd host))
unfolding host_abspath
host_abspath-IsPlain cwd host d p = elim (Bool-cases (byte_at host 0 == b'/')) [
  | inl e ↦ rw e p
  | inr e ↦ rw e (from_dir-IsPlain cwd host d p)
]

rejects : (a b : Bool) (e : OptionError) → reject_if (a || b) e ≡ ok tt → (a ≡ false) × (b ≡ false)
rejects true b e h = absurd (cc)
rejects false true e h = absurd (cc)
rejects false false e h = (refl, refl)

check_spec-plain :
    (host guest : Str) (ro : Bool)
    → check_spec (host, guest, ro) ≡ ok tt
    → IsPart b';' host × IsPart b';' guest
check_spec-plain [] guest ro h = absurd (cc)
check_spec-plain (x ∷ host) [] ro h = absurd (cc)
check_spec-plain (x ∷ host) (y ∷ guest) ro h =
    let (host_free, guest_free) =
      rejects (has_byte b';' (x ∷ host)) (has_byte b';' (y ∷ guest)) has_semicolon h in
    ((λ e. cc, host_free), (λ e. cc, guest_free))

-- A table within its bound, with entries that the text can hold.
abbrev pub IsTable : List Bind → Type 0
IsTable binds = All IsEncodable binds × (length binds ≤ max_binds)

All-append :
    (bs : List Bind) (b : Bind)
    → All IsEncodable bs
    → IsEncodable b
    → All IsEncodable (bs ++ (b ∷ []))
All-append [] b all one = (one, tt)
All-append (c ∷ bs) b all one = (all.0, All-append bs b all.1 one)

abbrev bind_of : Option Str → Str → Str → Bool → Bind
bind_of cwd host guest ro = record {
  source = or_raw host (host_abspath cwd host);
  target = guest;
  readonly = ro;
}

room : (binds : List Bind) → leb max_binds (length binds) ≡ false → length binds < max_binds
room binds e = ground (arith, e)

add_bind_ro-IsTable :
    (cwd : Option Str) (binds more : List Bind) (host guest : Str) (ro : Bool)
    → IsPlainDir cwd
    → IsPlain host
    → IsPlain guest
    → IsTable binds
    → add_bind_ro cwd binds (host, guest, ro) ≡ ok more
    → IsTable more
unfolding add_bind_ro
add_bind_ro-IsTable cwd binds more host guest ro d p q t h =
    elim (Bool-cases (leb max_binds (length binds))) [
      | inl e ↦ absurd (ground (arith, h, e))
      | inr e ↦
          subst (λ bs. All IsEncodable bs × (length bs ≤ max_binds)) (ground (arith, h, e))
            (
              All-append binds (bind_of cwd host guest ro) t.0
                  (record { source_plain = host_abspath-IsPlain cwd host d p; target_plain = q }),
              omega (arith, length-append binds (bind_of cwd host guest ro ∷ []), room binds e),
            )
    ]

add_spec-IsTable :
    (cwd : Option Str) (binds more : List Bind) (spec : Str)
    → IsPlainDir cwd
    → IsTable binds
    → add_spec cwd binds spec ≡ ok more
    → IsTable more
unfolding add_spec split_spec
add_spec-IsTable cwd binds more spec d t h =
    let ((host, guest, ro), split, behind) = >>=-eq-ok (split_spec spec) _ h in
    let (done, checked, added) = >>=-eq-ok (check_spec (host, guest, ro)) _ behind in
    let free = spec_of-free spec host guest ro _ refl split in
    let plain = check_spec-plain host guest ro checked in
    add_bind_ro-IsTable cwd binds more host guest ro d (plain.0, free.0) (plain.1, free.1) t added

pub add_specs-IsTable :
    (cwd : Option Str) (binds more : List Bind) (specs : List Str)
    → IsPlainDir cwd
    → IsTable binds
    → add_specs cwd binds specs ≡ ok more
    → IsTable more
unfolding add_specs
add_specs-IsTable cwd binds more [] d t h = subst IsTable (cc) t
add_specs-IsTable cwd binds more (spec ∷ specs) d t h =
    let (next, added, rest) = >>=-eq-ok (add_spec cwd binds spec) _ h in
    add_specs-IsTable cwd next more specs d (add_spec-IsTable cwd binds next spec d t added) rest
