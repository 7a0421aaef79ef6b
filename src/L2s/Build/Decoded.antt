-- ===== src/L2s/Build/Decoded.antt =====
-- Decoding what was built: `l2s_decode_ex` after `l2s_make_paths_ex`.
use bxroot.Prelude.{
  ℕ, ◌<◌, ◌≡◌, refl, ap, ◌∙◌, ◌⊎◌, true, ◌∷◌, ◌++◌, Option, none, some, Str, length, ok, arith,
  length-append,
}
use bxroot.L2s.Types.{name_max, path_max, proot, Config, cfg_scheme, cfg_prefix, cfg_l2s_dir}
use bxroot.L2s.Path.{separator}
use bxroot.L2s.Path.Laws.{joined, IsComponent, split-Accepted, joined-Accepted, DoubleRoot}
use bxroot.L2s.Format.Fixed.{field}
use bxroot.L2s.Name.{classify}
use bxroot.L2s.Name.Tail.{final_body, EndsInField}
use bxroot.L2s.Name.Sound.{
  IsPrefix, final_info, intermediate_info, parse_l2s_name-final, parse_l2s_name-intermediate,
  classify_of_parse, artifact_free, final_fields_free, field_free,
}
use bxroot.L2s.Decode.{decode_ex}
use bxroot.L2s.Build.{Built, make_strings}
use bxroot.L2s.Build.Shape.{Shape, make_strings-Shape}
use bxroot.L2s.Build.RoundTrip.{
  base-IsComponent, split-final, split-mid, holder_fits, decode_ex_lem, known_dir, lost_dir,
  finish_known, finish_lost, holder_beside, holder_in_dir, final-joined,
}

module _ (cfg : Option Config) (orig : Str) (gen nlink : ℕ) {b : Built}
    (scheme : cfg_scheme cfg ≡ proot) (k : IsPrefix (cfg_prefix cfg))
    (built : make_strings cfg (some orig) gen nlink ≡ ok b) where
  shape : Shape cfg orig gen nlink b
  shape = make_strings-Shape cfg orig gen nlink built

  component : IsComponent b.base
  component = base-IsComponent cfg orig gen nlink shape

  base_short : length b.base < name_max
  base_short = omega (arith, shape.name_fits)

  classify-final :
      classify cfg true (some (cfg_prefix cfg ++ final_body b.base gen nlink))
      ≡ ok (final_info b.base gen nlink)
  classify-final =
      let s = shape in
      classify_of_parse cfg true _ scheme
        (artifact_free (cfg_prefix cfg) b.base _ k component.no_slash (final_fields_free gen nlink))
        (parse_l2s_name-final cfg true (cfg_prefix cfg) b.base gen nlink k component.not_empty
          base_short (omega (arith, s.gen_in)) (omega (arith, s.nlink_in)))

  classify-mid :
      ¬ EndsInField b.base
      → classify cfg true (some (cfg_prefix cfg ++ (b.base ++ field gen)))
        ≡ ok (intermediate_info b.base gen)
  classify-mid other =
      let s = shape in
      classify_of_parse cfg true _ scheme
        (artifact_free (cfg_prefix cfg) b.base _ k component.no_slash (field_free gen))
        (parse_l2s_name-intermediate cfg true (cfg_prefix cfg) b.base gen k component.not_empty
          base_short (omega (arith, s.gen_in)) other)

  room_beside : cfg_l2s_dir cfg ≡ none → length b.dir < path_max
  room_beside e = rw (holder_beside cfg b.dir e) at (holder_fits cfg orig gen nlink shape)

  orig_fits : cfg_l2s_dir cfg ≡ none → length (joined b.dir b.base) < path_max
  orig_fits e =
      let s = shape in
      let tail = field gen ++ (b'.' ∷ field nlink) in
      let sep = separator b.dir in
      omega (
        arith,
        s.path_fits,
        ap length (
            final-joined cfg orig gen nlink s
            ∙ ap (λ d. joined d (cfg_prefix cfg ++ (b.base ++ tail))) (holder_beside cfg b.dir e)),
        length-append b.dir (sep ++ (cfg_prefix cfg ++ (b.base ++ tail))),
        length-append sep (cfg_prefix cfg ++ (b.base ++ tail)),
        length-append (cfg_prefix cfg) (b.base ++ tail),
        length-append b.base tail,
        length-append b.dir (sep ++ b.base),
        length-append sep b.base,
      )

  -- Without an l2s directory, the final path decodes to the original path (but for "//name", which
  -- comes back as "/name"), its name, directory, generation and link count.
  pub decode_ex-final_beside :
      cfg_l2s_dir cfg ≡ none
      → (decode_ex cfg true true (some b.final_path)
          ≡ ok (record {
            orig = joined b.dir b.base;
            info = known_dir b.dir (final_info b.base gen nlink);
          }))
        × ((joined b.dir b.base ≡ orig) ⊎ DoubleRoot orig b.base)
  decode_ex-final_beside e = (
    decode_ex_lem cfg b.final_path (split-final cfg orig gen nlink shape k) classify-final
        ∙ rw (holder_beside cfg b.dir e) (
            finish_known cfg b.dir (final_info b.base gen nlink) e refl (orig_fits e)
              (room_beside e)),
    joined-Accepted (split-Accepted orig path_max name_max (shape.split_is)),
  )

  -- Without an l2s directory, the intermediate path decodes to the original path (but for "//name"),
  -- its name, directory and generation, with no link count, unless the name ends in four digits and a
  -- dot behind something else.
  pub decode_ex-mid_beside :
      cfg_l2s_dir cfg ≡ none
      → ¬ EndsInField b.base
      → (decode_ex cfg true true (some b.mid)
          ≡ ok (record {
            orig = joined b.dir b.base;
            info = known_dir b.dir (intermediate_info b.base gen);
          }))
        × ((joined b.dir b.base ≡ orig) ⊎ DoubleRoot orig b.base)
  decode_ex-mid_beside e other = (
    decode_ex_lem cfg b.mid (split-mid cfg orig gen nlink shape k) (classify-mid other)
        ∙ rw (holder_beside cfg b.dir e) (
            finish_known cfg b.dir (intermediate_info b.base gen) e refl (orig_fits e)
              (room_beside e)),
    joined-Accepted (split-Accepted orig path_max name_max (shape.split_is)),
  )

  -- With an l2s directory, the final path decodes to the bare name: the directory is lost.
  pub decode_ex-final_in_dir :
      {d : Str}
      → cfg_l2s_dir cfg ≡ some d
      → decode_ex cfg true true (some b.final_path)
        ≡ ok (record { orig = b.base; info = lost_dir d (final_info b.base gen nlink) })
  decode_ex-final_in_dir {d} e =
      decode_ex_lem cfg b.final_path (split-final cfg orig gen nlink shape k) classify-final
      ∙ rw (holder_in_dir cfg b.dir e) (
          finish_lost cfg d (final_info b.base gen nlink) e
            (rw (holder_in_dir cfg b.dir e) at (holder_fits cfg orig gen nlink shape)))
