-- ===== src/Proc/Env/Build.antt =====
-- proc.c, §2: px_env_build, which makes the environment of a new process. The buffer of strings with
-- its offsets, and the array of pointers made from it in the end, are one list of entries. `given` says
-- of each entry, by its place, whether there is memory to add it.
use bxroot.Prelude.{
  ℕ, ◌+◌, ◌-◌, ◌/◌, Bool, false, not, ◌&&◌, ◌||◌, Option, none, some, List, [], ◌∷◌, ◌++◌, Str,
  byte_at, length, take, ltb, leb, ◌==◌, if◌then◌else◌, Result, ok, fail, ◌>>=◌, ◌>>◌, reject_if,
}
use bxroot.Proc.Env.{envp_max, env_entry_matches, env_lookup}
use bxroot.Proc.Env.Merge.{EnvCode, enomem, etoolong, enospc, text_of, merge_preload}

-- PX_PRELOAD_MAX, PX_ENV_ENTRY_MAX, PX_ENV_PASSTHRU_MAX, PX_ENV_BUDGET_DEFAULT
abbrev pub preload_max : ℕ
preload_max = 16384

abbrev pub entry_max : ℕ
entry_max = 16416

abbrev pub passthru_max : ℕ
passthru_max = 131072

abbrev pub budget_default : ℕ
budget_default = 2097152

pub data EnvMode : Type 0 where
  set merge_preloads : EnvMode

pub record EnvKv : Type 0 where
  pub name : Option Str
  pub value : Option Str
  pub mode : EnvMode

pub record EnvPolicy : Type 0 where
  pub forced : List EnvKv
  pub drops : List (Option Str)
  pub max_entries : ℕ
  pub max_bytes : ℕ

pub record EnvOut : Type 0 where
  pub entries : List Str
  pub skipped_long : ℕ
  pub skipped_budget : ℕ

-- `buf_len`: each entry with its terminator
abbrev pub bytes : List Str → ℕ
bytes [] = 0
bytes (e ∷ es) = length e + 1 + bytes es

unfoldable pub push : (ℕ → Bool) → EnvOut → Str → Result EnvCode EnvOut
push given out entry =
    if given (length out.entries)
    then ok (record out { entries = out.entries ++ (entry ∷ []) })
    else fail enomem

unfoldable pub push_kv : (ℕ → Bool) → EnvOut → Str → Option Str → Result EnvCode EnvOut
push_kv given out name value = do
  reject_if (ltb entry_max (length name + 1 + length (text_of value))) etoolong
  push given out (name ++ (b'=' ∷ text_of value))

-- px_env_budget_left, and that what is left is enough
unfoldable pub fits : ℕ → EnvOut → ℕ → Bool
fits budget out need =
    not (ltb budget (bytes out.entries)) && not (ltb (budget - bytes out.entries) need)

unfoldable pub dropped_by : List (Option Str) → Str → Bool
dropped_by [] entry = false
dropped_by (name ∷ names) entry = env_entry_matches (some entry) name || dropped_by names entry

unfoldable pub forced_by : List EnvKv → Str → Bool
forced_by [] entry = false
forced_by (kv ∷ kvs) entry = env_entry_matches (some entry) kv.name || forced_by kvs entry

abbrev empty_policy : EnvPolicy
empty_policy = record { forced = []; drops = []; max_entries = 0; max_bytes = 0 }

abbrev pub policy_of : Option EnvPolicy → EnvPolicy
policy_of none = empty_policy
policy_of (some p) = p

abbrev pub limit_of : EnvPolicy → ℕ
limit_of p = if ltb 0 p.max_entries then p.max_entries else envp_max

abbrev pub budget_of : EnvPolicy → ℕ
budget_of p = if ltb 0 p.max_bytes then p.max_bytes else budget_default

-- One entry of the first pass.
unfoldable pub carry_one : (ℕ → Bool) → EnvPolicy → ℕ → EnvOut → Str → Result EnvCode EnvOut
carry_one given p half out e =
    if byte_at e 0 == 0
    then ok out
    else if dropped_by p.drops e || forced_by p.forced e
    then ok out
    else if ltb passthru_max (length e)
    then ok (record out { skipped_long = out.skipped_long + 1 })
    else if not (fits half out (length e + 1))
    then ok (record out { skipped_budget = out.skipped_budget + 1 })
    else push given out e

-- The first pass, which ends at the limit.
unfoldable pub carry : (ℕ → Bool) → EnvPolicy → ℕ → List Str → EnvOut → Result EnvCode EnvOut
carry given p half [] out = ok out
carry given p half (e ∷ es) out =
    let more = carry_one given p half out e >>= carry given p half es in
    if leb (limit_of p) (length out.entries) then ok out else more

-- The value for an entry that is merged.
abbrev current : Option (List Str) → Str → Option Str
current envp name = env_lookup envp (some name)

abbrev pub force_set : (ℕ → Bool) → ℕ → EnvOut → Str → Option Str → Result EnvCode (Option EnvOut)
force_set given budget out name value = do
  reject_if (not (fits budget out (length name + 1 + length (text_of value) + 1))) enospc
  next ← push_kv given out name value
  ok (some next)

-- One entry of the second pass: `none` where the loop ends at the limit.
unfoldable pub force_one :
    (ℕ → Bool)
    → ℕ
    → ℕ
    → Option (List Str)
    → EnvOut
    → Str
    → Option Str
    → EnvMode
    → Result EnvCode (Option EnvOut)
force_one given limit budget envp out name value merge_preloads = do
  merged ← merge_preload (current envp name) value preload_max
  next ← push_kv given out name (some merged)
  ok (some next)
force_one given limit budget envp out name value set =
    if leb limit (length out.entries) then ok none else force_set given budget out name value

-- The rest of the second pass, if there is one.
abbrev pub go_on : (EnvOut → Result EnvCode EnvOut) → EnvOut → Option EnvOut → Result EnvCode EnvOut
go_on rest out none = ok out
go_on rest out (some next) = rest next

abbrev pub force_named :
    (ℕ → Bool)
    → ℕ
    → ℕ
    → Option (List Str)
    → EnvOut
    → Option Str
    → EnvKv
    → Result EnvCode (Option EnvOut)
force_named given limit budget envp out none kv = ok (some out)
force_named given limit budget envp out (some name) kv =
    force_one given limit budget envp out name kv.value kv.mode

unfoldable pub force :
    (ℕ → Bool) → ℕ → ℕ → Option (List Str) → List EnvKv → EnvOut → Result EnvCode EnvOut
force given limit budget envp [] out = ok out
force given limit budget envp (kv ∷ kvs) out =
    force_named given limit budget envp out kv.name kv
    >>= go_on (λ next. force given limit budget envp kvs next) out

abbrev nothing : EnvOut
nothing = record { entries = []; skipped_long = 0; skipped_budget = 0 }

abbrev pub env_dispose : EnvOut → EnvOut
env_dispose out = nothing

abbrev pub carried : (ℕ → Bool) → EnvPolicy → Option (List Str) → Result EnvCode EnvOut
carried given p none = ok nothing
carried given p (some envp) = carry given p (budget_of p / 2) (take envp_max envp) nothing

-- The last argument says whether there is memory for the array.
unfoldable pub env_build :
    (ℕ → Bool) → Bool → Option (List Str) → Option EnvPolicy → Result EnvCode EnvOut
env_build given array envp pol = do
  let p = policy_of pol
  first ← carried given p envp
  out ← force given (limit_of p) (budget_of p) envp p.forced first
  reject_if (not array) enomem
  ok out
