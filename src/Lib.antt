-- ===== src/Lib.antt =====
-- bxroot runs a Linux user space on Android without privileges: a preloaded library translates paths,
-- shows the guest a false root, and stands in for what the kernel refuses. This library models the
-- parts of it that decide something by themselves, without a system call.
--
-- Link to symlink (src/l2s/l2s.c, l2s.h). Android refuses hard links. A file with several names is kept
-- as a final file PREFIX base GGGG.NNNN (generation, link count), to which an intermediate symbolic
-- link PREFIX base GGGG points, to which the names point. l2s.c is the algebra of these names:
--   L2s/Types      the types and limits of l2s.h, l2s_strerror, l2s_kind_name, cfg_*
--   L2s/Path       l2s_split, l2s_join
--   L2s/Format     format_fixed, parse_fixed, l2s_format_count, l2s_parse_count, l2s_is_key16
--   L2s/Name       match_prefix, parse_l2s_name, parse_proroot_meta_name, l2s_classify
--   L2s/Decode     l2s_is_emulated and its variants, l2s_decode_name, l2s_decode_ex, l2s_decode
--   L2s/Build      l2s_make_paths_ex, l2s_make_paths, l2s_pick_generation
--   L2s/Count      l2s_next_final, l2s_prev_final, l2s_patch_nlink, l2s_patch_statx_nlink
--   L2s/Meta       l2s_djb2, l2s_key16, l2s_meta_entry, l2s_refcount_path
-- Fakeroot (src/runtime/fakeroot.c, fakeroot.h) shows the guest a root identity, and what it chose by
-- chown and chmod:
--   Fakeroot/Types     the state and the record of a file
--   Fakeroot/Identity  fakeroot_state_*, the set*id calls, fakeroot_setgroups, fakeroot_getgroups
--   Fakeroot/Access    fakeroot_check_access, fakeroot_gate_chown, fakeroot_gate_chmod,
--                      fakeroot_chown_action
--   Fakeroot/Patch     fr_record_merge, fr_decide_ids, fr_compose_mode, fakeroot_patch_stat_ex
--   Fakeroot/Normalize fr_normalize_path
--   Fakeroot/Map       the table of records: in Keys fr_key_hash, fakeroot_key_equal, fakeroot_key_path,
--                      in Store fakeroot_map_create and the probe, in Upkeep the compaction and
--                      fakeroot_map_evict_lru, in Ops _put, _get, _remove, _clear and fr_map_update
-- Process supervision (src/proc/proc.c, proc.h) keeps signals inside the container and prepares what a
-- new process is given:
--   Proc/Ledger    the ledger of processes: in Ops px_ledger_create, _evict, the probe, the compaction
--                  and the growth, in Access px_ledger_put, _get, _reap, _remove, _clear
--   Proc/Kill      px_check_kill, and px_ledger_get, px_ledger_has, px_ledger_reap over what the table
--                  of the ledger shows; Proc/Ledger/Shown joins the two
--   Proc/Args      px_classify_arg, px_classify_arg_ex, px_arg_is_path_option; in Plan px_plan_argv_ex,
--                  with the plan's other functions, and px_apply_argv
--   Proc/Env       px_env_entry_matches, px_env_lookup; in Merge px_merge_preload, in Build px_env_build
--                  with the functions that push an entry and measure the budget
--   Proc/Search    px_path_env_or_default, px_search_count, px_search_get
-- Path translation (src/runtime/preload.c, config.h, termux_compat.h) turns a path of the guest into one
-- of the host and back:
--   Preload/Config     the configuration, and World, what the kernel and the environment answer
--   Preload/Binds      strip_trailing_slash, parse_binds, bind_match_index
--   Preload/Translate  bxroot_shm_tmp_base, translate_path
--   Preload/Dots       path_has_dotdot, guest_resolve_dotdot
--   Preload/Magic      proc_who_kind, proc_fd_magic_leaf, proc_other_pid_guest_exe,
--                      proc_magic_link_target
--   Preload/Termux     bx_termux_compat_enabled, bx_termux_compat_map
--   Preload/Reverse    strip_rootfs_prefix_inplace, detranslate_binds, readlink_fixup, getcwd_fixup,
--                      bxroot_absolutize
--   Preload/Guard      bind_is_readonly_target, ro_guard_path, open_flags_write_intent
-- The launcher (src/launcher/launcher.c) hands the binds to the run time through BXROOT_BINDS:
--   Launcher/Binds     the option -b of parse_args, host_abspath, add_bind_ro, and the text that main
--                      sets; Launcher/Binds/Laws joins it to parse_binds
-- Table holds what open addressing with tombstones needs whatever the keys are: slots, the map that they
-- stand for, and where a key may stand on its path of probes.
-- The parts do not call each other: the interposed functions of the run time call each of them. The
-- launcher and the run time meet in the text of BXROOT_BINDS.
-- Prelude and System hold what these share; the modules below a part hold its proofs, and Tests of a
-- part its examples.
--
-- A function keeps its name without the prefix l2s_, fr_, fakeroot_, px_, bx_ or bxroot_. A C string
-- is the list of its bytes before the terminator, a pointer that may be NULL an Option, an output
-- buffer its size (what a function leaves in it on success is in its result), a negative code the
-- `fail` of Result. Numbers are natural numbers, with the wrap-around of unsigned arithmetic written
-- out. The predicate that asks whether a path exists is a parameter, and so is what a lookup of a
-- record finds. The loop that prints a number runs on fuel, the number and one, which is enough as
-- each step divides by ten; the loop of fr_round_pow2 on 65 rounds, which is enough as each doubles a
-- number below 2^64; the loop of fr_normalize_path that takes slashes off the end on the length of
-- what is written; the walk of guest_resolve_dotdot on the length of the rest of the path and one
-- between two links, and on 40 links, as the code stops at the 41st; the calls of translate_path by
-- itself, straight and through the links of guest_resolve_dotdot, on five rounds, one for each kind of
-- path it can be given on the way; every other loop is structural. A write behind an array, where
-- nothing in the source excludes it, is the `none` of an Option, or `beyond` where the ledger answers
-- with an Ending, whose `locked_out` is a call that waits for a lock it holds itself. Where memory is
-- allocated, an argument says whether that succeeds.
--
-- Not modelled: the interposed functions of preload.c and fakeroot.c, with chown and chmod through the
-- table of records, the link operations on the disk (src/l2s/l2s-runtime.c), the fork guard
-- (src/proc/proc.c), the other options of the launcher, the host's session, the loaders, live patching
-- and the handling of signals and seccomp, which act through system calls and machine code; what an
-- output buffer holds after an error; locks, but for that of the ledger when px_ledger_put evicts.
pub mod Prelude
pub mod System
pub mod L2s
pub mod Table
pub mod Fakeroot
pub mod Proc
pub mod Preload
pub mod Launcher
