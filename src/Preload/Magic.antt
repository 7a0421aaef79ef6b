-- ===== src/Preload/Magic.antt =====
-- preload.c: the magic links under /proc (proc_who_kind, proc_other_pid_guest_exe,
-- proc_magic_link_target), as the guest is to see them. `real_open` and `real_readlink` are found.
use bxroot.Prelude.{
  ℕ, ◌+◌, ◌-◌, Bool, false, not, ◌&&◌, ◌||◌, Option, none, some, List, [], ◌∷◌, ◌++◌, Str, codes,
  byte_at, str_eq, starts_with, length, take, drop, ltb, leb, ◌==◌, ◌!=◌, if◌then◌else◌,
}
use bxroot.Preload.Config.{max_path_len, Config, World, copied}
use bxroot.Preload.Reverse.{readlink_fixup, or_else}

abbrev pub is_digit : ℕ → Bool
is_digit c = leb b'0' c && leb c b'9'

skip_digits : Str → Str
skip_digits [] = []
skip_digits (c ∷ s) = if is_digit c then skip_digits s else c ∷ s

pub data Who : Type 0 where
  unknown : Who
  oneself other : Str → Who

-- Who a path names behind "/proc/", and the rest from the slash on.
unfoldable pub proc_who_kind : Str → Who
unfolding skip_digits starts_with
proc_who_kind path =
    let rest = drop 6 path in
    let behind = skip_digits rest in
    if starts_with rest (codes "self/")
    then oneself (drop 4 rest)
    else if starts_with rest (codes "thread-self/")
    then oneself (drop 11 rest)
    else if is_digit (byte_at rest 0) && byte_at behind 0 == b'/'
    then other behind
    else unknown

abbrev fd_number : Str → Bool
fd_number slash =
    let p = drop 4 slash in
    starts_with slash (codes "/fd/") && is_digit (byte_at p 0) && byte_at (skip_digits p) 0 == 0

unfoldable pub proc_fd_magic_leaf : Option Str → Bool
unfolding proc_who_kind skip_digits starts_with
proc_fd_magic_leaf none = false
proc_fd_magic_leaf (some path) = starts_with path (codes "/proc/") && (elim (proc_who_kind path) [
  | unknown ↦ false
  | oneself slash ↦ fd_number slash
  | other slash ↦ fd_number slash
])

abbrev exe_name : Str
exe_name = codes "BXROOT_GUEST_EXE="

-- The first entry of the variable decides.
guest_exe_in : List Str → ℕ → Option Str
unfolding starts_with
guest_exe_in [] size = none
guest_exe_in (e ∷ es) size =
    let v = drop (length exe_name) e in
    if not (starts_with e exe_name)
    then guest_exe_in es size
    else if byte_at v 0 == b'/' && ltb (length v) size
    then some v
    else none

-- `exe_path` up to its last slash, here "/proc/<pid>", in a buffer of 128 bytes.
other_exe_of : World → Str → ℕ → Option Str
unfolding guest_exe_in
other_exe_of w dir size =
    if size == 0 || leb 128 (length dir + 9)
    then none
    else elim (w.environ (dir ++ codes "/environ")) [
      | none ↦ none
      | some entries ↦ guest_exe_in entries size
    ]

-- `exe`: where the path is another process's, its own answer comes first.
exe_target : Config → Option Str → ℕ → Option Str
exe_target cfg others size = elim cfg.guest_exe [
  | none ↦ none
  | some exe ↦ if byte_at exe 0 == b'/' then or_else others (some (copied size exe)) else none
]

-- `cwd` and `fd/N`: what the kernel says, for the guest.
kernel_target : Config → World → Option Str → ℕ → Option Str
unfolding readlink_fixup
kernel_target cfg w none size = none
kernel_target cfg w (some target) size =
    let raw = copied max_path_len target in
    if byte_at raw 0 != b'/'
    then none
    else or_else (readlink_fixup cfg w raw size) (some (copied size raw))

target_at : Config → World → Str → Str → Option Str → ℕ → Option Str
unfolding exe_target kernel_target str_eq starts_with
target_at cfg w path slash others size =
    if str_eq slash (codes "/root")
    then some (copied size (codes "/"))
    else if str_eq slash (codes "/exe")
    then exe_target cfg others size
    else if not (str_eq slash (codes "/cwd")) && not (starts_with slash (codes "/fd/"))
    then none
    else kernel_target cfg w (w.readlink path) size

abbrev who_target : Config → World → Str → Who → ℕ → Option Str
who_target cfg w path unknown size = none
who_target cfg w path (oneself slash) size = target_at cfg w path slash none size
who_target cfg w path (other slash) size =
    let dir = take (length path - length slash) path in
    target_at cfg w path slash (other_exe_of w dir size) size

-- `none` where the path is no such link.
unfoldable pub proc_magic_link_target : Config → World → Str → ℕ → Option Str
unfolding target_at other_exe_of proc_who_kind starts_with
proc_magic_link_target cfg w path size =
    if size == 0 || not (starts_with path (codes "/proc/"))
    then none
    else who_target cfg w path (proc_who_kind path) size
