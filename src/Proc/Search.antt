-- ===== src/Proc/Search.antt =====
-- proc.c, §3b: the candidates for a command in the directories of PATH.
pub mod Laws
use bxroot.Prelude.{
  ℕ, zero, suc, ◌+◌, ◌-◌, Bool, true, false, ◌||◌, Option, none, some, List, [], ◌∷◌, ◌++◌, Str,
  codes, byte_at, has_byte, length, ltb, ◌==◌, ◌!=◌, if◌then◌else◌, Result, ok, fail,
}

pub data SearchCode : Type 0 where
  enoent einval etoolong : SearchCode

abbrev pub path_or_default : Option Str → Str
path_or_default none = codes "/bin:/usr/bin"
path_or_default (some []) = codes "/bin:/usr/bin"
path_or_default (some (c ∷ path)) = c ∷ path

-- `do { n++; … } while (*p++ == ':');`, counted for each colon.
unfoldable pub count_from : Str → ℕ → ℕ
count_from [] n = n + 1
count_from (c ∷ s) n = count_from s (if c == b':' then n + 1 else n)

unfoldable pub search_count : Option Str → Option Str → ℕ
unfolding count_from
search_count none path = 0
search_count (some file) path =
    if byte_at file 0 == 0
    then 0
    else if has_byte b'/' file
    then 1
    else count_from (path_or_default path) 0

-- The candidate in a directory; an empty one stands for ".".
abbrev pub candidate : Str → Str → Str
candidate file dir =
    if length dir == 0
    then codes "./" ++ file
    else dir ++ (if byte_at dir (length dir - 1) == b'/' then file else b'/' ∷ file)

abbrev pub written : ℕ → Str → Result SearchCode Str
written size s = if ltb (length s) size then ok s else fail etoolong

-- The loop, with what was read of a directory, `[p, end)`, and its number.
unfoldable pub search_from : Str → ℕ → ℕ → Str → Str → ℕ → Result SearchCode Str
search_from file i size [] dir seg =
    if seg == i then written size (candidate file dir) else fail enoent
search_from file i size (c ∷ s) dir seg =
    let next = search_from file i size s [] (seg + 1) in
    let on = search_from file i size s (dir ++ (c ∷ [])) seg in
    if c == b':' then (if seg == i then written size (candidate file dir) else next) else on

abbrev pub alone : Str → ℕ → ℕ → Result SearchCode Str
alone file i size =
    if i != 0 then fail enoent else if ltb size (length file + 1) then fail etoolong else ok file

unfoldable pub search_get : Option Str → Option Str → ℕ → ℕ → Result SearchCode Str
unfolding search_from
search_get none path i size = fail einval
search_get (some file) path i size =
    if byte_at file 0 == 0 || size == 0
    then fail einval
    else if has_byte b'/' file
    then alone file i size
    else search_from file i size (path_or_default path) [] 0
