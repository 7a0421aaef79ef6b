-- ===== src/L2s/Tests.antt =====
-- Names and paths of one directory, worked out: "/d/f" and what is made of it.
use bxroot.Prelude.{
  ℕ, ◌==◌, ◌≡◌, ◌⊎◌, refl, ap, inl, true, false, none, some, [], ◌∷◌, ◌++◌, Str, codes, length,
  length-append, starts_with, str_eq, has_byte, if◌then◌else◌, ok, arith,
}
use bxroot.System.{Stat}
use bxroot.L2s.Types.{Config, proot, effective_dir}
use bxroot.L2s.Path.{is_dots, split, separator, join}
use bxroot.L2s.Path.Laws.{joined, DoubleRoot}
use bxroot.L2s.Format.{
  zeros, zero_padded, decimal, format_fixed, parse_fixed_from, is_key16, is_hex_lower, all_hex,
}
use bxroot.L2s.Format.Fixed.{field}
use bxroot.L2s.Name.{
  match_prefix, intermediate_tail, final_tail, parse_tail, parse_body, parse_l2s_name, classify,
  proroot_info,
}
use bxroot.L2s.Name.Tail.{EndsInField}
use bxroot.L2s.Name.Sound.{final_info, intermediate_info}
use bxroot.L2s.Name.Accepted.{FinalName, parse_l2s_name-FinalName}
use bxroot.L2s.Decode.{decode_ex}
use bxroot.L2s.Build.RoundTrip.{known_dir}
use bxroot.L2s.Build.Decoded.{decode_ex-final_beside, decode_ex-mid_beside}
use bxroot.L2s.Build.Pick.{Outcome, pick_generation-Outcome}
use bxroot.L2s.Count.{with_count, next_final, prev_final}
use bxroot.L2s.Count.Laws.{Counted}
use bxroot.L2s.Count.Undo.{prev_final-next_final}
use bxroot.L2s.Meta.{djb2, key16, check_entry, meta_entry}
use bxroot.L2s.Meta.Entry.{entry_prefix, entry_kind, meta_entry-classify}
use bxroot.L2s.Build.{
  Built, make_head, make_names, name_strings, check_numbers, make_strings, pick_generation,
}
use bxroot.L2s.Build.Shape.{make_strings-Shape, Shape}

abbrev file : Str
file = codes "/d/f"

abbrev built : Built
built = record {
  dir = codes "/d";
  base = codes "f";
  mid = codes "/d/.l2s.f0001";
  final_path = codes "/d/.l2s.f0001.0002";
}

make_strings-file : make_strings none (some file) 1 2 ≡ ok built
unfolding make_strings make_names name_strings check_numbers make_head split is_dots separator join
    str_eq format_fixed zero_padded zeros decimal effective_dir
make_strings-file = refl

no_field_f : ¬ EndsInField (codes "f")
no_field_f e = omega (
  arith,
  e.stem_not_empty,
  ap length e.orig_is,
  length-append e.stem (field e.number ++ (b'.' ∷ [])),
)

make_strings-Shape_example : Shape none file 1 2 built
make_strings-Shape_example = make_strings-Shape none file 1 2 make_strings-file

parse_l2s_name-FinalName_example :
    FinalName true (codes ".l2s.f0001.0002") (final_info (codes "f") 1 2)
unfolding parse_l2s_name match_prefix parse_body parse_tail final_tail intermediate_tail
    parse_fixed_from starts_with
parse_l2s_name-FinalName_example =
    parse_l2s_name-FinalName none true (codes ".l2s.f0001.0002") refl refl

decode_ex-final_beside_example :
    (decode_ex none true true (some (codes "/d/.l2s.f0001.0002"))
      ≡ ok (record {
        orig = joined (codes "/d") (codes "f");
        info = known_dir (codes "/d") (final_info (codes "f") 1 2);
      }))
    × ((joined (codes "/d") (codes "f") ≡ file) ⊎ DoubleRoot file (codes "f"))
decode_ex-final_beside_example =
    decode_ex-final_beside none file 1 2 refl (inl refl) make_strings-file refl

decode_ex-mid_beside_example :
    (decode_ex none true true (some (codes "/d/.l2s.f0001"))
      ≡ ok (record {
        orig = joined (codes "/d") (codes "f");
        info = known_dir (codes "/d") (intermediate_info (codes "f") 1);
      }))
    × ((joined (codes "/d") (codes "f") ≡ file) ⊎ DoubleRoot file (codes "f"))
decode_ex-mid_beside_example =
    decode_ex-mid_beside none file 1 2 refl (inl refl) make_strings-file refl no_field_f

abbrev collected : Config
collected = record {
  l2s_dir = some (codes "/h");
  prefix = none;
  scheme = proot;
  lenient_classify = false;
}

abbrev built_in_dir : Built
built_in_dir = record {
  dir = codes "/d";
  base = codes "f";
  mid = codes "/h/.l2s.f0001";
  final_path = codes "/h/.l2s.f0001.0002";
}

make_strings-collected : make_strings (some collected) (some file) 1 2 ≡ ok built_in_dir
unfolding make_strings make_names name_strings check_numbers make_head split is_dots separator join
    str_eq format_fixed zero_padded zeros decimal effective_dir
make_strings-collected = refl

pick_generation-Outcome_example :
    Outcome none file
      (λ p. str_eq p (codes "/d/.l2s.f0001"))
      999
      1
      (pick_generation none (some file) (some (λ p. str_eq p (codes "/d/.l2s.f0001"))))
pick_generation-Outcome_example =
    pick_generation-Outcome none file (λ p. str_eq p (codes "/d/.l2s.f0001"))

next_final-file :
    next_final (some (codes ".l2s.f0001.0002")) (some 256) ≡ some (ok (codes ".l2s.f0001.0003"))
unfolding next_final with_count parse_l2s_name match_prefix parse_body parse_tail final_tail
    intermediate_tail parse_fixed_from starts_with zero_padded zeros decimal format_fixed has_byte
next_final-file = refl

prev_final-next_final_example :
    (n : ℕ) × Counted (codes ".l2s.f0001.0002") n
    × (prev_final (some (codes ".l2s.f0001.0003")) (some 100)
        ≡ (if n == 0 then (ok none, some 0) else (ok (some (codes ".l2s.f0001.0002")), some n)))
prev_final-next_final_example =
    prev_final-next_final (codes ".l2s.f0001.0002") 256 100 next_final-file (omega arith)

abbrev plain : Stat
plain = record { st_dev = 5; st_ino = 6; st_mode = 0x81a4; st_uid = 10; st_gid = 20; st_nlink = 1 }

meta_entry-classify_example :
    (split (some (codes "/m/g_000000000002b60b")) (some 4096) (some 256)
      ≡ ok (codes "/m", entry_prefix true ++ key16 (some (codes "f"))))
    × (classify none true (some (entry_prefix true ++ key16 (some (codes "f"))))
        ≡ ok (proroot_info (entry_kind true) (key16 (some (codes "f")))))
unfolding meta_entry check_entry has_byte key16 djb2 is_key16 all_hex is_hex_lower join
meta_entry-classify_example =
    meta_entry-classify none true true (codes "/m") (some (codes "f")) 4096 4096 refl (omega arith)
