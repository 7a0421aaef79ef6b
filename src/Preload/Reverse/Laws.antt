-- ===== src/Preload/Reverse/Laws.antt =====
-- preload.c: the way back from the host, and the paths that bxroot_absolutize makes.
use bxroot.Prelude.{
  ℕ, ◌+◌, ◌≡◌, refl, Bool, true, false, ◌&&◌, ◌||◌, Option, none, some, [], ◌∷◌, ◌++◌, Str, codes,
  byte_at, starts_with, length, drop, ltb, ◌==◌, ◌!=◌, if◌then◌else◌, Bool-cases, and_second, inl,
  inr, arith,
}
use bxroot.Preload.Config.{Config, World, text_or, beneath, ends_name, is_empty}
use bxroot.Preload.Reverse.{
  behind, strip_real, strip_rootfs, Absolute, failed, unchanged, absolute, absolute_in, absolutize,
}

rest-absolute :
    (rest : Str)
    → ends_name rest ≡ true
    → byte_at (if is_empty rest then codes "/" else rest) 0 ≡ b'/'
rest-absolute [] h = refl
rest-absolute (c ∷ rest) h = ground (arith, h)

behind-absolute : (path top : Str) → beneath path top ≡ true → byte_at (behind path top) 0 ≡ b'/'
unfolding beneath
behind-absolute path top h =
    rest-absolute (drop (length top) path) (and_second (starts_with path top) _ h)

-- The path that a step leaves, absolute if the path was.
abbrev Stays : Option Str → Type 0
Stays none = Unit
Stays (some path) = byte_at path 0 ≡ b'/'

strip_real-Stays : (root : Str) (real : Option Str) (path : Str) → Stays (strip_real root real path)
unfolding strip_real
strip_real-Stays root none path = tt
strip_real-Stays root (some real) path =
    elim (Bool-cases (length real != 0 && length real != length root && beneath path real)) [
      | inl e ↦ rw e (
          behind-absolute path real
            (and_second (length real != 0 && length real != length root) _ e))
      | inr e ↦ rw e tt
    ]

strip_rootfs-Stays : (cfg : Config) (w : World) (path : Str) → Stays (strip_rootfs cfg w path)
unfolding strip_rootfs
strip_rootfs-Stays cfg w path =
    let root = text_or cfg.rootfs [] in
    elim (Bool-cases (length root == 0)) [
      | inl e ↦ rw e tt
      | inr e ↦ rw e (elim (Bool-cases (beneath path root)) [
        | inl b ↦ rw b (behind-absolute path root b)
        | inr b ↦ rw b (strip_real-Stays root w.real_root path)
      ])
    ]

text_or-absolute :
    (o : Option Str) (d : Str) → Stays o → byte_at d 0 ≡ b'/' → byte_at (text_or o d) 0 ≡ b'/'
text_or-absolute none d s h = h
text_or-absolute (some p) d s h = s

-- The working directory, where it is to be had, is an absolute path.
abbrev pub IsCwd : World → Type 0
IsCwd w = (host : Str) → w.getcwd ≡ some host → byte_at host 0 ≡ b'/'

abbrev pub Leads : Absolute → Type 0
Leads failed = Unit
Leads unchanged = Unit
Leads (absolute whole) = byte_at whole 0 ≡ b'/'

Leads-if : (b : Bool) (x y : Absolute) → Leads x → Leads y → Leads (if b then x else y)
Leads-if true x y p q = p
Leads-if false x y p q = q

append-absolute : (a b : Str) → byte_at a 0 ≡ b'/' → byte_at (a ++ b) 0 ≡ b'/'
append-absolute [] b h = absurd (omega arith)
append-absolute (x ∷ a) b h = h

absolute_in-Leads :
    (cfg : Config) (w : World) (cwd : Option Str) (path : Str) (size : ℕ)
    → ((host : Str) → cwd ≡ some host → byte_at host 0 ≡ b'/')
    → Leads (absolute_in cfg w cwd path size)
unfolding absolute_in
absolute_in-Leads cfg w none path size abs = tt
absolute_in-Leads cfg w (some host) path size abs =
    let dir = text_or (strip_rootfs cfg w host) host in
    Leads-if (ltb size (length dir + 1 + length path + 1)) failed (absolute (dir ++ (b'/' ∷ path)))
      tt
      (append-absolute dir (b'/' ∷ path) (
        text_or-absolute (strip_rootfs cfg w host) host (strip_rootfs-Stays cfg w host)
          (abs host refl)))

pub absolutize-Leads :
    (cfg : Config) (w : World) (path : Str) (size : ℕ)
    → IsCwd w
    → Leads (absolutize cfg w (some path) size)
unfolding absolutize
absolutize-Leads cfg w path size cwd =
    let there = absolute_in cfg w w.getcwd path size in
    let kept = byte_at path 0 == 0 || byte_at path 0 == b'/' in
    Leads-if (size == 0) failed (if kept then unchanged else there) tt
      (Leads-if kept unchanged there tt (absolute_in-Leads cfg w w.getcwd path size cwd))
