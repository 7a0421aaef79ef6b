-- ===== src/L2s/Count/Patch.antt =====
-- The link counts that the guest is shown, at paths that `l2s_make_paths_ex` built.
use bxroot.Prelude.{ℕ, ◌≡◌, true, false, Option, none, some, Str, ok, fail, arith}
use bxroot.System.{Stat}
use bxroot.L2s.Types.{enotl2s, name_max, path_max, Config, cfg_prefix}
use bxroot.L2s.Path.Laws.{split-no_dir}
use bxroot.L2s.Name.Tail.{EndsInField}
use bxroot.L2s.Name.Sound.{IsPrefix, parse_l2s_name-final, parse_l2s_name-intermediate}
use bxroot.L2s.Build.{Built, make_strings}
use bxroot.L2s.Build.Shape.{Shape, make_strings-Shape}
use bxroot.L2s.Build.RoundTrip.{base-IsComponent, split-final, split-mid}
use bxroot.L2s.Count.{nlink_from_path, patch_nlink, patch_nlink_value}

module _ (cfg : Option Config) (orig : Str) (gen nlink : ℕ) {b : Built}
    (k : IsPrefix (cfg_prefix cfg)) (built : make_strings cfg (some orig) gen nlink ≡ ok b) where
  shape : Shape cfg orig gen nlink b
  shape = make_strings-Shape cfg orig gen nlink built

  nlink_from_path-final : nlink_from_path (some b.final_path) ≡ ok nlink
  unfolding nlink_from_path
  nlink_from_path-final =
      let s = shape in
      let c = base-IsComponent cfg orig gen nlink s in
      rw (
        split-no_dir b.final_path path_max name_max (split-final cfg orig gen nlink s k),
        parse_l2s_name-final none true (cfg_prefix cfg) b.base gen nlink k c.not_empty
            (omega (arith, s.name_fits)) (omega (arith, s.gen_in)) (omega (arith, s.nlink_in)),
      )

  nlink_from_path-mid : ¬ EndsInField b.base → nlink_from_path (some b.mid) ≡ fail enotl2s
  unfolding nlink_from_path
  nlink_from_path-mid other =
      let s = shape in
      let c = base-IsComponent cfg orig gen nlink s in
      rw (
        split-no_dir b.mid path_max name_max (split-mid cfg orig gen nlink s k),
        parse_l2s_name-intermediate none true (cfg_prefix cfg) b.base gen k c.not_empty
            (omega (arith, s.name_fits)) (omega (arith, s.gen_in)) other,
      )

  -- A `stat` of a final path is given the link count that the path was built with, and a `stat` of an
  -- intermediate one stays as it is, unless the name ends in a field and a dot.
  pub patch_nlink-built :
      (st : Stat)
      → ¬ EndsInField b.base
      → (patch_nlink (some st) (some b.final_path) ≡ ok (true, record st { st_nlink = nlink }))
        × (patch_nlink (some st) (some b.mid) ≡ ok (false, st))
  unfolding patch_nlink patch_nlink_value
  patch_nlink-built st other =
      let s = shape in
      (rw nlink_from_path-final (ground (arith, s.nlink_in)), rw (nlink_from_path-mid other))
