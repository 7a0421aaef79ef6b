-- ===== src/L2s/Build.antt =====
-- l2s.c, "Building": the intermediate and final path of an original.
pub mod Shape
pub mod RoundTrip
pub mod Decoded
pub mod Pick
use bxroot.Prelude.{
  ℕ, zero, suc, ◌+◌, ◌-◌, Bool, true, false, ◌&&◌, ◌||◌, Option, none, some, [], ◌∷◌, ◌++◌, Str,
  byte_at, length, ltb, leb, ◌==◌, ◌!=◌, if◌then◌else◌, Result, ok, fail, ◌>>=◌, ◌>>◌, reject_if,
}
use bxroot.L2s.Types.{
  Rc, err, enametoolong, erange, Res, proot, Config, Paths, name_max, path_max, digits, gen_first,
  gen_last, gen_giveup, nlink_max, cfg_prefix, cfg_l2s_dir, cfg_embed,
}
use bxroot.L2s.Path.{split, join}
use bxroot.L2s.Format.{format_fixed}

-- The strings are locals of the function, which it copies to those of its outputs that are not NULL.
pub record Built : Type 0 where
  pub dir : Str
  pub base : Str
  pub mid : Str
  pub final_path : Str

-- `head`: the directory of the artifacts with its separator and the prefix. The first argument is
-- the effective l2s directory.
abbrev head_in : Option Str → Str → Str → Str → Res Str
head_in (some d) prefix dir base = do
  reject_if (leb path_max (length d + length prefix + length base + 11)) enametoolong
  join (some d) (some prefix) (some path_max)
head_in none prefix dir base = do
  let need =
      length dir
      + (if byte_at dir 0 != 0 then 1 else 0)
      + length prefix
      + length base
      + digits
      + 1
      + digits
  reject_if (leb path_max need) enametoolong
  join (some dir) (some prefix) (some path_max)

unfoldable pub make_head : Option Config → Str → Str → Res Str
make_head cfg dir base = head_in (cfg_l2s_dir cfg) (cfg_prefix cfg) dir base

abbrev counted : Str → Str → Str → Res Str → Res Built
counted dir base mid (ok count) =
    ok (record { dir = dir; base = base; mid = mid; final_path = mid ++ (b'.' ∷ count) })
counted dir base mid (fail e) = fail erange

-- The strings behind `head`.
unfoldable pub make_names : Option Config → ℕ → Str → Str → Str → Str → Res Built
make_names cfg nlink dir base tail head = do
  reject_if (ltb (name_max - 1) (length base + length (cfg_prefix cfg) + digits + 1 + digits))
      enametoolong
  reject_if (ltb path_max (length head + length base + digits + 1)) enametoolong
  let mid = head ++ (base ++ tail)
  reject_if (ltb path_max (length mid + 1 + digits + 1)) enametoolong
  counted dir base mid (format_fixed nlink digits (digits + 1))

-- What follows the split of `orig`.
unfoldable pub name_strings : Option Config → ℕ → ℕ → Str → Str → Res Built
name_strings cfg generation nlink dir base = do
  tail ← format_fixed generation digits (digits + 1)
  head ← make_head cfg dir base
  make_names cfg nlink dir base tail head

abbrev named_by : Option Config → ℕ → ℕ → Str × Str → Res Built
named_by cfg generation nlink (dir, base) = name_strings cfg generation nlink dir base

-- The checks of the two numbers.
unfoldable pub check_numbers : ℕ → ℕ → Res (Unit {0})
check_numbers generation nlink = do
  reject_if (ltb generation gen_first || ltb gen_last generation) erange
  reject_if (ltb nlink 1 || ltb nlink_max nlink) erange

unfoldable pub make_strings : Option Config → Option Str → ℕ → ℕ → Res Built
make_strings cfg none generation nlink = fail err
make_strings cfg (some orig) generation nlink =
    check_numbers generation nlink
    >> (split (some orig) (some path_max) (some name_max) >>= named_by cfg generation nlink)

abbrev copied_config : Option Config → Config
copied_config none = record {
  l2s_dir = none;
  prefix = none;
  scheme = proot;
  lenient_classify = false;
}
copied_config (some cfg) = cfg

-- What is left in `*out`; `out->cfg.l2s_dir` points into `l2s_dir_storage`.
abbrev paths_of : Option Config → Str → ℕ → ℕ → Built → Paths
paths_of cfg orig generation nlink b =
    let (l2s_dir, storage) = cfg_embed path_max cfg in
    record {
      orig = orig;
      mid = b.mid;
      final_path = b.final_path;
      dir = b.dir;
      name = b.base;
      generation = generation;
      nlink = nlink;
      cfg = record (copied_config cfg) { l2s_dir = l2s_dir };
      l2s_dir_storage = storage;
    }

-- `memcpy(out->orig, orig, strlen(orig) + 1)`, which a long path with an l2s directory does not fit.
abbrev echoed : Option Config → Str → ℕ → ℕ → Res Built → Option (Res Paths)
echoed cfg orig generation nlink (fail e) = some (fail e)
echoed cfg orig generation nlink (ok b) =
    if ltb path_max (length orig + 1)
    then none
    else some (ok (paths_of cfg orig generation nlink b))

-- `none` is a write behind the array `out->orig`.
unfoldable pub make_paths_ex : Option Config → Option Str → ℕ → ℕ → Option (Res Paths)
make_paths_ex cfg none generation nlink = some (fail err)
make_paths_ex cfg (some orig) generation nlink =
    echoed cfg orig generation nlink (make_strings cfg (some orig) generation nlink)

unfoldable pub make_paths : Option Str → Res Built
make_paths orig = make_strings none orig gen_first 1

-- The return code, and what `*out_generation` was set to, if it was.
abbrev pub Picked : Type 0
Picked = Res (Unit {0}) × Option ℕ

abbrev pick_step : (Str → Bool) → ℕ → Picked → Res Built → Picked
pick_step exists gen rest (fail e) = (fail erange, none)
pick_step exists gen rest (ok b) = if exists b.mid then rest else (ok tt, some gen)

-- The `for` loop, with the number of generations left to probe.
unfoldable pub pick_from : Option Config → Str → (Str → Bool) → ℕ → ℕ → Picked
pick_from cfg orig exists zero gen = (fail erange, some gen_giveup)
pick_from cfg orig exists (suc left) gen =
    let rest = pick_from cfg orig exists left (gen + 1) in
    pick_step exists gen rest (make_strings cfg (some orig) gen 1)

-- `exists` is the caller's predicate over candidates; a NULL predicate or output is refused alike.
unfoldable pub pick_generation : Option Config → Option Str → Option (Str → Bool) → Picked
unfolding pick_from
pick_generation cfg none exists = (fail err, none)
pick_generation cfg (some orig) none = (fail err, none)
pick_generation cfg (some orig) (some exists) = pick_from cfg orig exists gen_last gen_first
