-- ===== src/Preload/Binds.antt =====
-- preload.c: parse_binds, which reads the bind table from BXROOT_BINDS, and bind_match_index, which
-- selects an entry. A call of bind_config_error ends the process: it is a `fail` with its reason.
pub mod Texts
pub mod Stripping
pub mod Matching
use mathlib.Core.Option
use bxroot.Prelude.{
  ℕ, zero, suc, ◌+◌, ◌-◌, Bool, true, false, not, ◌&&◌, ◌||◌, Option, none, some, List, [], ◌∷◌,
  ◌++◌, Str, codes, byte_at, str_eq, has_byte, length, take, ltb, leb, ◌==◌, ◌!=◌, if◌then◌else◌,
  Result, ok, fail, ◌>>=◌, ◌>>◌, reject_if,
}
use bxroot.Preload.Config.{Bind, beneath, is_empty}

-- `MAX_BINDS`, and `MAX_BIND_ENV - (sizeof("BXROOT_BINDS=") - 1)`
abbrev pub max_binds : ℕ
max_binds = 64

abbrev pub max_bind_text : ℕ
max_bind_text = 16371

pub data BindError : Type 0 where
  too_long_env empty_entry no_memory too_many_entries bad_modifier empty_part no_separator :
      BindError

-- `while (n > 1 && p[n - 1] == '/') p[--n] = '\0';`
strip_from : ℕ → Str → Str
strip_from zero p = []
strip_from (suc n) p =
    let shorter = strip_from n p in
    if ltb 1 (suc n) && byte_at p n == b'/' then shorter else take (suc n) p

unfoldable pub strip_trailing_slash : Str → Str
unfolding strip_from
strip_trailing_slash p = strip_from (length p) p

-- `strchr(s, c)`: what stands in front of the byte, and behind it.
unfoldable pub cut : ℕ → Str → Option (Str × Str)
cut c [] = none
cut c (x ∷ xs) = if x == c then some ([], xs) else Option.map (λ (a, b). (x ∷ a, b)) (cut c xs)

-- The parts between separators, empty ones too; strtok_r leaves those out.
unfoldable pub split_at : ℕ → Str → List Str
split_at c [] = [] ∷ []
split_at c (x ∷ xs) =
    let rest = split_at c xs in
    if x == c then [] ∷ rest else elim rest [ [] ↦ (x ∷ []) ∷ [] | p ∷ ps ↦ (x ∷ p) ∷ ps ]

without_empty : List Str → List Str
without_empty [] = []
without_empty ([] ∷ ps) = without_empty ps
without_empty ((x ∷ p) ∷ ps) = (x ∷ p) ∷ without_empty ps

unfoldable pub tokens : ℕ → Str → List Str
unfolding split_at without_empty
tokens c s = without_empty (split_at c s)

abbrev one_of : ℕ → ℕ → ℕ → Bool
one_of a b c = c == a || c == b

-- `:ro` in any case, and `strcasecmp(mod, "rw") == 0`
abbrev pub is_ro : Str → Bool
is_ro m = one_of b'r' b'R' (byte_at m 0) && one_of b'o' b'O' (byte_at m 1) && length m == 2

abbrev pub is_rw : Str → Bool
is_rw m = one_of b'r' b'R' (byte_at m 0) && one_of b'w' b'W' (byte_at m 1) && length m == 2

abbrev pub target_of : Str → Option (Str × Str) → Result BindError (Str × Bool)
target_of rest none = ok (rest, false)
target_of rest (some (target, modifier)) =
    if is_ro modifier
    then ok (target, true)
    else if is_rw modifier
    then ok (target, false)
    else fail bad_modifier

-- The target, and whether it may only be read.
unfoldable pub parse_target : Str → Result BindError (Str × Bool)
parse_target rest = target_of rest (cut b':' rest)

-- `strdup` of both parts; the argument says whether there is memory.
unfoldable pub store_bind : Bool → Str → Str × Bool → Result BindError Bind
store_bind given source (target, readonly) = do
  reject_if (is_empty source || is_empty target) empty_part
  reject_if (not given) no_memory
  ok (record {
    source = strip_trailing_slash source;
    target = strip_trailing_slash target;
    readonly = readonly;
  })

abbrev pub entry_of : Bool → Option (Str × Str) → Result BindError Bind
entry_of given none = fail no_separator
entry_of given (some (source, rest)) = parse_target rest >>= store_bind given source

unfoldable pub parse_entry : Bool → Str → Result BindError Bind
parse_entry given entry = entry_of given (cut b':' entry)

-- The loop, with the number of entries so far. `given` says of each allocation whether it succeeds: the
-- copy of the text, the arrays, and then the strings of each entry.
unfoldable pub parse_entries : (ℕ → Bool) → ℕ → List Str → Result BindError (List Bind)
parse_entries given count [] = ok []
parse_entries given count (entry ∷ rest) = do
  reject_if (leb max_binds count) too_many_entries
  bind ← parse_entry (given (count + 2)) entry
  binds ← parse_entries given (suc count) rest
  ok (bind ∷ binds)

-- `strstr(s, ";;") != NULL`
unfoldable pub doubled : ℕ → Str → Bool
doubled c [] = false
doubled c (x ∷ xs) = x == c && byte_at xs 0 == c || doubled c xs

-- `env[strlen(env) - 1]`
unfoldable pub last_byte : Str → ℕ
last_byte [] = 0
last_byte (x ∷ []) = x
last_byte (x ∷ (y ∷ s)) = last_byte (y ∷ s)

abbrev parse_text : (ℕ → Bool) → Str → Result BindError (List Bind)
parse_text given env = do
  reject_if (leb max_bind_text (length env)) too_long_env
  reject_if (byte_at env 0 == b';' || last_byte env == b';' || doubled b';' env) empty_entry
  reject_if (not (given 0)) no_memory
  reject_if (not (given 1)) no_memory
  parse_entries given 0 (tokens b';' env)

-- `none` where the variable is not set or empty: the table stays as it is.
unfoldable pub parse_binds : (ℕ → Bool) → Option Str → Result BindError (Option (List Bind))
parse_binds given none = ok none
parse_binds given (some []) = ok none
parse_binds given (some (c ∷ env)) = do binds ← parse_text given (c ∷ env); ok (some binds)

-- One round of the search: the entry is better than the best so far.
abbrev is_longer : ℕ → Option Bind → Bool
is_longer len none = true
is_longer len (some best) = ltb (length best.target) len

-- The loop over the table, with the best entry so far; an index stands for the entry that it names.
unfoldable pub match_from : Str → List Bind → Option Bind → Option Bind
unfolding beneath
match_from path [] best = best
match_from path (bind ∷ binds) best =
    let len = length bind.target in
    let hit = len != 0 && beneath path bind.target && is_longer len best in
    match_from path binds (if hit then some bind else best)

unfoldable pub bind_match : List Bind → Option Str → Option Bind
unfolding match_from
bind_match binds none = none
bind_match binds (some path) = if byte_at path 0 != b'/' then none else match_from path binds none
