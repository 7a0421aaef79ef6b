-- ===== src/Launcher/Tests.antt =====
-- launcher.c: bind options at concrete arguments.
use bxroot.Prelude.{
  ◌≡◌, refl, true, false, some, none, [], ◌∷◌, List, Str, codes, ok, fail, has_byte, str_eq,
}
use bxroot.Preload.Config.{Bind}
use bxroot.Preload.Binds.{
  no_separator, bad_modifier, parse_binds, parse_entries, parse_entry, parse_target, tokens,
  doubled, last_byte, cut, strip_trailing_slash,
}
use bxroot.Launcher.Binds.{
  has_semicolon, unknown_modifier, split_spec, host_abspath, add_bind_ro, add_spec, add_specs,
  bind_env, bind_text, more_text, check_need,
}
use bxroot.Launcher.Binds.Laws.{table, bind_env-parse_binds}

abbrev options : List Str
options = codes "data:/mnt/:Ro" ∷ (codes "/sdcard" ∷ [])

abbrev accepted : List Bind
accepted =
    record { source = codes "/home/data"; target = codes "/mnt/"; readonly = true }
    ∷ (record { source = codes "/sdcard"; target = codes "/sdcard"; readonly = false } ∷ [])

bind_env-parse_binds_example :
    parse_binds (λ _. true) (some (codes "/home/data:/mnt/:ro;/sdcard:/sdcard"))
    ≡ ok (table accepted)
unfolding add_specs add_spec split_spec cut add_bind_ro host_abspath strip_trailing_slash str_eq
    has_byte bind_env bind_text more_text check_need
bind_env-parse_binds_example =
    bind_env-parse_binds (some (codes "/home/")) options accepted
      (some (codes "/home/data:/mnt/:ro;/sdcard:/sdcard")) (refl, refl) refl refl

refused_options :
    (add_spec none [] (codes "/a:/b;c") ≡ fail has_semicolon)
    × (add_spec none [] (codes "/a:/b:x") ≡ fail unknown_modifier)
    × (parse_binds (λ _. true) (some (codes "/a")) ≡ fail no_separator)
    × (parse_binds (λ _. true) (some (codes "/w:d/a:/b")) ≡ fail bad_modifier)
unfolding add_spec split_spec cut str_eq has_byte parse_binds tokens doubled last_byte parse_entries
    parse_entry parse_target
refused_options = (refl, refl, refl, refl)
