-- ===== src/L2s/Build/RoundTrip.antt =====
-- The steps of `l2s_decode_ex` on a path that `l2s_make_paths_ex` built.
use bxroot.Prelude.{
  ℕ, ◌<◌, ◌≡◌, refl, ap, ◌∙◌, true, false, [], ◌∷◌, ◌++◌, Option, none, some, Str, str_eq_iff,
  has_byte, length, ok, arith, length-append, append_assoc,
}
use bxroot.L2s.Types.{name_max, path_max, Config, Info, cfg_prefix, cfg_l2s_dir}
use bxroot.L2s.Path.{split, separator}
use bxroot.L2s.Path.Laws.{
  joined, IsComponent, Parts-joined, long-not_dots, split-Parts, split-Accepted, join-fits,
}
use bxroot.L2s.Format.Fixed.{field}
use bxroot.L2s.Name.{classify}
use bxroot.L2s.Name.Tail.{final_body}
use bxroot.L2s.Name.Sound.{IsPrefix, artifact_free, final_fields_free, field_free}
use bxroot.L2s.Decode.{decode_ex, finish_decode, is_proot_kind}
use bxroot.L2s.Build.{Built}
use bxroot.L2s.Build.Shape.{holder, Shape, make_head-joined}

-- A name that stands behind a directory in a built path.
artifact-IsComponent :
    (p orig tail : Str)
    → IsPrefix p
    → has_byte b'/' orig ≡ false
    → has_byte b'/' tail ≡ false
    → 2 < length tail
    → IsComponent (p ++ (orig ++ tail))
artifact-IsComponent p orig tail k o t h =
    let size : 2 < length (p ++ (orig ++ tail)) =
      omega (arith, length-append p (orig ++ tail), length-append orig tail) in
    record {
      no_slash = artifact_free p orig tail k o t;
      not_empty = omega (arith, size);
      not_dots = long-not_dots (p ++ (orig ++ tail)) size;
    }

joined_assoc : (d a b : Str) → joined d a ++ b ≡ joined d (a ++ b)
joined_assoc d a b =
    append_assoc d (separator d ++ a) b ∙ ap (λ t. d ++ t) (append_assoc (separator d) a b)

module _ (cfg : Option Config) (orig : Str) (gen nlink : ℕ) {b : Built}
    (s : Shape cfg orig gen nlink b) where
  abbrev pub where_held : Str
  where_held = holder cfg b.dir

  pub mid-joined : b.mid ≡ joined where_held (cfg_prefix cfg ++ (b.base ++ field gen))
  mid-joined =
      s.mid_is
      ∙ ap (λ t. t ++ (b.base ++ field gen)) (make_head-joined cfg b.dir b.base s.head_is)
      ∙ joined_assoc where_held (cfg_prefix cfg) (b.base ++ field gen)

  pub final-joined :
      b.final_path ≡ joined where_held (cfg_prefix cfg ++ final_body b.base gen nlink)
  final-joined =
      let tail = b'.' ∷ field nlink in
      s.final_is
      ∙ ap (λ t. t ++ tail) mid-joined
      ∙ joined_assoc where_held (cfg_prefix cfg ++ (b.base ++ field gen)) tail
      ∙ ap (λ t. joined where_held t)
          (append_assoc (cfg_prefix cfg) (b.base ++ field gen) tail
            ∙ ap (λ t. cfg_prefix cfg ++ t) (append_assoc b.base (field gen) tail))

  -- The directory that holds the artifacts leaves room for a terminator.
  pub holder_fits : length where_held < path_max
  holder_fits = omega (
    arith,
    s.path_fits,
    ap length final-joined,
    length-append where_held
        (separator where_held ++ (cfg_prefix cfg ++ final_body b.base gen nlink)),
  )

  pub base-IsComponent : IsComponent b.base
  base-IsComponent = (split-Accepted orig path_max name_max s.split_is).component

  pub split-final :
      IsPrefix (cfg_prefix cfg)
      → split (some b.final_path) (some path_max) (some name_max)
        ≡ ok (where_held, cfg_prefix cfg ++ final_body b.base gen nlink)
  split-final k =
      let name = cfg_prefix cfg ++ final_body b.base gen nlink in
      let c : IsComponent name =
        artifact-IsComponent (cfg_prefix cfg) b.base (field gen ++ (b'.' ∷ field nlink)) k
          base-IsComponent.no_slash (final_fields_free gen nlink) (omega arith) in
      rw final-joined (
        split-Parts (joined where_held name) path_max name_max
          (Parts-joined where_held name c.no_slash) c holder_fits
          (omega (
            arith,
            s.name_fits,
            length-append (cfg_prefix cfg) (final_body b.base gen nlink),
            length-append b.base (field gen ++ (b'.' ∷ field nlink)),
          )))

  pub split-mid :
      IsPrefix (cfg_prefix cfg)
      → split (some b.mid) (some path_max) (some name_max)
        ≡ ok (where_held, cfg_prefix cfg ++ (b.base ++ field gen))
  split-mid k =
      let name = cfg_prefix cfg ++ (b.base ++ field gen) in
      let c : IsComponent name =
        artifact-IsComponent (cfg_prefix cfg) b.base (field gen) k base-IsComponent.no_slash
          (field_free gen) (omega arith) in
      rw mid-joined (
        split-Parts (joined where_held name) path_max name_max
          (Parts-joined where_held name c.no_slash) c holder_fits
          (omega (
            arith,
            s.name_fits,
            length-append (cfg_prefix cfg) (b.base ++ field gen),
            length-append b.base (field gen),
          )))

pub decode_ex_lem :
    (cfg : Option Config) (path : Str) {dir name : Str} {info : Info}
    → split (some path) (some path_max) (some name_max) ≡ ok (dir, name)
    → classify cfg true (some name) ≡ ok info
    → decode_ex cfg true true (some path) ≡ finish_decode cfg true true dir info
unfolding decode_ex
decode_ex_lem cfg path s c = rw (s, c)

abbrev pub known_dir : Str → Info → Info
known_dir dir info = record info { orig_dir = dir; dir_known = true; mid_dir = dir }

abbrev pub lost_dir : Str → Info → Info
lost_dir dir info = record info { orig_dir = []; dir_known = false; mid_dir = dir }

pub finish_known :
    (cfg : Option Config) (dir : Str) (info : Info)
    → cfg_l2s_dir cfg ≡ none
    → is_proot_kind info.kind ≡ true
    → length (joined dir info.orig_name) < path_max
    → length dir < path_max
    → finish_decode cfg true true dir info
      ≡ ok (record { orig = joined dir info.orig_name; info = known_dir dir info })
unfolding finish_decode
finish_known cfg dir info e k fits room =
    rw (e, k, join-fits dir info.orig_name path_max fits) (ground arith)

pub finish_lost :
    (cfg : Option Config) (dir : Str) (info : Info)
    → cfg_l2s_dir cfg ≡ some dir
    → length dir < path_max
    → finish_decode cfg true true dir info
      ≡ ok (record { orig = info.orig_name; info = lost_dir dir info })
unfolding finish_decode
finish_lost cfg dir info e room = rw (e, (str_eq_iff dir dir).1 refl) (ground arith)

pub holder_beside :
    (cfg : Option Config) (dir : Str) → cfg_l2s_dir cfg ≡ none → holder cfg dir ≡ dir
holder_beside cfg dir e = rw e

pub holder_in_dir :
    (cfg : Option Config) (dir : Str) {d : Str} → cfg_l2s_dir cfg ≡ some d → holder cfg dir ≡ d
holder_in_dir cfg dir e = rw e
