-- ===== src/L2s/Decode.antt =====
-- l2s.c, "Decoding", with the three predicates of its "Classification" part that take a path.
use bxroot.Prelude.{
  ◌+◌, Bool, true, false, ◌&&◌, Option, none, some, [], Str, byte_at, str_eq, has_byte, length, ltb,
  ◌==◌, if◌then◌else◌, ok, fail, ◌>>=◌, ◌>>◌, reject_if,
}
use bxroot.L2s.Types.{
  err, enametoolong, enotl2s, Res, Kind, intermediate, final, Config, Info, name_max, path_max,
  config_default, cfg_l2s_dir,
}
use bxroot.L2s.Path.{split, join}
use bxroot.L2s.Name.{classify}

abbrev pub succeeded {ℓ} : {A : Type ℓ} → Res A → Bool
succeeded (ok a) = true
succeeded (fail e) = false

abbrev classified : Option Config → Res (Str × Str) → Bool
classified cfg (ok (dir, base)) = succeeded (classify cfg false (some base))
classified cfg (fail e) = false

-- `ok false` and `ok true` are the answers 0 and 1.
unfoldable pub is_emulated_cfg : Option Config → Option Str → Res Bool
is_emulated_cfg cfg none = fail err
is_emulated_cfg cfg (some path) = ok (classified cfg (split (some path) none (some name_max)))

unfoldable pub is_emulated : Option Str → Res Bool
is_emulated path = is_emulated_cfg (some config_default) path

abbrev is_intermediate : Kind → Bool
is_intermediate intermediate = true
is_intermediate _ = false

abbrev faked_name : Res Info → Option Str
faked_name (ok info) = if is_intermediate info.kind then some info.orig_name else none
faked_name (fail e) = none

abbrev target_name : Option Config → Res (Str × Str) → Option Str
target_name cfg (ok (dir, base)) = faked_name (classify cfg true (some base))
target_name cfg (fail e) = none

-- `ok none` is the answer 0, `ok (some orig)` the answer 1 with what `out_orig` is given.
unfoldable pub is_emulated_target : Option Config → Option Str → Res (Option Str)
is_emulated_target cfg none = fail err
is_emulated_target cfg (some link_target) =
    if byte_at link_target 0 == 0
    then ok none
    else ok (target_name cfg (split (some link_target) none (some name_max)))

abbrev or_not_l2s : Res Info → Res Info
or_not_l2s (ok info) = ok info
or_not_l2s (fail e) = fail enotl2s

unfoldable pub decode_name : Option Config → Bool → Option Str → Res Info
decode_name cfg want none = fail err
decode_name cfg want (some name) =
    if has_byte b'/' name then fail err else or_not_l2s (classify cfg want (some name))

-- Is the artifact next to its original, rather than in the l2s directory?
abbrev pub dir_is_orig : Option Str → Str → Bool
dir_is_orig none dir = true
dir_is_orig (some d) dir = if str_eq dir d then false else true

abbrev pub is_proot_kind : Kind → Bool
is_proot_kind intermediate = true
is_proot_kind final = true
is_proot_kind _ = false

-- What goes through `out_orig` and `out`.
pub record Decoded : Type 0 where
  pub orig : Str
  pub info : Info

abbrev recover : Bool → Str → Info → Res Str
recover known dir info =
    if known && is_proot_kind info.kind
    then elim (join (some dir) (some info.orig_name) (some path_max)) [
      | ok orig ↦ ok orig
      | fail e ↦ fail enametoolong
    ]
    else ok info.orig_name

abbrev with_dirs : Bool → Str → Info → Info
with_dirs known dir info =
    if known && is_proot_kind info.kind
    then record info { orig_dir = dir; dir_known = true; mid_dir = dir }
    else record info { orig_dir = []; dir_known = false; mid_dir = dir }

-- The two flags say that `out_orig` and `out` are not NULL; what goes through a NULL is dropped.
unfoldable pub finish_decode : Option Config → Bool → Bool → Str → Info → Res Decoded
finish_decode cfg want_orig want_info dir info = do
  let known = dir_is_orig (cfg_l2s_dir cfg) dir
  orig ← if want_orig then recover known dir info else ok []
  reject_if (want_info && ltb path_max (length dir + 1)) enametoolong
  ok (record { orig = orig; info = with_dirs known dir info })

abbrev decode_base : Option Config → Bool → Bool → Res (Str × Str) → Res Decoded
decode_base cfg want_orig want_info (fail e) = fail enotl2s
decode_base cfg want_orig want_info (ok (dir, base)) = do
  info ← or_not_l2s (classify cfg true (some base))
  finish_decode cfg want_orig want_info dir info

unfoldable pub decode_ex : Option Config → Bool → Bool → Option Str → Res Decoded
decode_ex cfg want_orig want_info none = fail err
decode_ex cfg want_orig want_info (some path) =
    decode_base cfg want_orig want_info (split (some path) (some path_max) (some name_max))

-- `l2s_decode`, whose caller passes an `out_orig`.
unfoldable pub decode : Option Str → Res Str
decode path = do d ← decode_ex (some config_default) true false path; ok d.orig
