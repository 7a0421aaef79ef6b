-- ===== src/Proc/Args.antt =====
-- proc.c, §3: which arguments of a command are paths to translate.
pub mod Laws
pub mod Plan
use bxroot.Prelude.{
  ℕ, Bool, true, false, not, ◌&&◌, ◌||◌, Option, none, some, List, [], ◌∷◌, Str, byte_at, str_eq,
  starts_with, length, ltb, ◌==◌, ◌!=◌, if◌then◌else◌,
}

pub data ArgVerdict : Type 0 where
  keep translate already : ArgVerdict

-- Whether an argument has the prefix already, for a `rootfs` that is not empty.
abbrev pub has_root : Str → Str → Bool
has_root arg root =
    starts_with arg root
    && ltb 1 (length root)
    && (byte_at arg (length root) == 0 || byte_at arg (length root) == b'/')

abbrev pub in_root : Option Str → Str → Bool
in_root none arg = false
in_root (some root) arg = byte_at root 0 != 0 && has_root arg root

abbrev pub is_dashes : Str → Bool
is_dashes arg =
    byte_at arg 0 == b'-' && (byte_at arg 1 == 0 || byte_at arg 1 == b'-' && byte_at arg 2 == 0)

abbrev classify_text : Str → Option Str → ArgVerdict
classify_text arg rootfs =
    if byte_at arg 0 == 0
    then keep
    else if byte_at arg 0 != b'/'
    then keep
    else if is_dashes arg
    then keep
    else if in_root rootfs arg
    then already
    else translate

-- The source ignores its argument `is_argv0`.
unfoldable pub classify_arg : Option Str → Option Str → ArgVerdict
classify_arg none rootfs = keep
classify_arg (some arg) rootfs = classify_text arg rootfs

-- An option that is NULL is skipped.
pub record ArgPolicy : Type 0 where
  pub translate_argv0 : Bool
  pub translate_other_args : Bool
  pub path_options : List (Option Str)

abbrev pub argpolicy_default : ArgPolicy
argpolicy_default = record {
  translate_argv0 = true;
  translate_other_args = false;
  path_options = [];
}

abbrev pub argpolicy_or_default : Option ArgPolicy → ArgPolicy
argpolicy_or_default none = argpolicy_default
argpolicy_or_default (some p) = p

abbrev is_option : Str → Option Str → Bool
is_option arg none = false
is_option arg (some o) = str_eq arg o

abbrev pub among : Str → List (Option Str) → Bool
among arg [] = false
among arg (o ∷ os) = is_option arg o || among arg os

unfoldable pub arg_is_path_option : Option Str → Option ArgPolicy → Bool
arg_is_path_option none pol = false
arg_is_path_option (some arg) pol = among arg (argpolicy_or_default pol).path_options

unfoldable pub classify_arg_ex : Option Str → Bool → Option Str → Option ArgPolicy → ArgVerdict
classify_arg_ex arg is_argv0 rootfs pol =
    let p = argpolicy_or_default pol in
    if not is_argv0 && not p.translate_other_args
    then keep
    else if is_argv0 && not p.translate_argv0
    then keep
    else classify_arg arg rootfs
