-- ===== src/Proc/Ledger/Access.antt =====
-- proc.c, §1: adding to the ledger, asking it, and taking from it.
use bxroot.Prelude.{
  ℕ, ◌+◌, ◌-◌, ◌%◌, ◌^◌, Bool, true, false, ◌||◌, List, [], ◌∷◌, set, ◌==◌, if◌then◌else◌, Result,
  ok, fail,
}
use bxroot.Proc.Kill.{pid_entry, pgid_entry, Life, reaped}
use bxroot.Proc.Ledger.Types.{PxCode, enoent, efull, einval, EntryKey, Entry, tag_fork, tag_spawn}
use bxroot.Proc.Ledger.Ops.{
  EntrySlot, Table, Done, Ending, returned, locked_out, beyond, probe, bury, make_room,
}
use bxroot.Table.{empty, tomb, live, Probe, hit, free, full, slot_at}

abbrev pub tick : ℕ → ℕ
tick n = (n + 1) % 2 ^ 64

abbrev pub write : Table → ℕ → EntryKey → Entry → Table
write l j k e = record l { slots = set l.slots j (live k e (tick l.clock)); clock = tick l.clock }

-- The entry of a process that is added again: one that was just made is alive again.
unfoldable pub refreshed : Entry → ℕ → ℕ → Entry
refreshed e ppid tag = record {
  ppid = ppid;
  life = if tag == tag_fork || tag == tag_spawn then Life.live else e.life;
  tag = tag;
}

abbrev pub new_entry : ℕ → ℕ → Entry
new_entry ppid tag = record { ppid = ppid; life = Life.live; tag = tag }

abbrev pub refresh : Table → ℕ → ℕ → ℕ → EntrySlot → Done
refresh l j ppid tag (live k e age) = (ok tt, write l j k (refreshed e ppid tag))
refresh l j ppid tag empty = (fail efull, l)
refresh l j ppid tag tomb = (fail efull, l)

-- `if (l->slots[idx].state == PX_SLOT_TOMB) l->tombs--;`
abbrev pub reused : EntrySlot → ℕ → ℕ
reused tomb n = n - 1
reused empty n = n
reused (live k e age) n = n

abbrev pub put_at : Table → EntryKey → ℕ → ℕ → Probe → Done
put_at l k ppid tag full = (fail efull, l)
put_at l k ppid tag (hit j) = refresh l j ppid tag (slot_at l.slots j)
put_at l k ppid tag (free j) = (
  ok tt,
  record (write l j k (new_entry ppid tag)) {
    count = l.count + 1;
    tomb_count = reused (slot_at l.slots j) l.tomb_count;
  },
)

-- In a full table it tries to evict, with the lock held.
abbrev pub put_or_evict : Table → EntryKey → ℕ → ℕ → Probe → Ending
put_or_evict l k ppid tag (hit j) = returned (put_at l k ppid tag (hit j))
put_or_evict l k ppid tag (free j) = returned (put_at l k ppid tag (free j))
put_or_evict l k ppid tag full = if l.eviction then locked_out else returned (fail efull, l)

abbrev pub put_in : EntryKey → ℕ → ℕ → Ending → Ending
put_in k ppid tag beyond = beyond
put_in k ppid tag locked_out = locked_out
put_in k ppid tag (returned (fail e, l)) = returned (fail e, l)
put_in k ppid tag (returned (ok _, l)) = put_or_evict l k ppid tag (probe l k)

unfoldable pub put : Bool → Bool → Table → EntryKey → ℕ → ℕ → Ending
unfolding make_room probe
put alloc_ok alloc_ok' l k ppid tag =
    if l.disabled
    then returned (ok tt, l)
    else if k.pid == 0
    then returned (fail einval, l)
    else put_in k ppid tag (make_room alloc_ok alloc_ok' l)

unfoldable pub add : Bool → Bool → Table → ℕ → ℕ → ℕ → Ending
unfolding put
add alloc_ok alloc_ok' l pid ppid tag =
    put alloc_ok alloc_ok' l (record { pid = pid; kind = pid_entry }) ppid tag

unfoldable pub add_pgid : Bool → Bool → Table → ℕ → ℕ → Ending
unfolding put
add_pgid alloc_ok alloc_ok' l pgid tag =
    put alloc_ok alloc_ok' l (record { pid = pgid; kind = pgid_entry }) 0 tag

abbrev pub entry_of : EntrySlot → Result PxCode Entry
entry_of (live k e age) = ok e
entry_of empty = fail enoent
entry_of tomb = fail enoent

abbrev pub got : Table → Probe → Result PxCode Entry
got l (hit j) = entry_of (slot_at l.slots j)
got l (free j) = fail enoent
got l full = fail enoent

unfoldable pub get : Table → EntryKey → Result PxCode Entry
unfolding probe
get l k = if l.disabled || k.pid == 0 then fail enoent else got l (probe l k)

abbrev pub with_life : EntrySlot → EntrySlot
with_life (live k e age) = live k (record e { life = reaped }) age
with_life empty = empty
with_life tomb = tomb

abbrev pub marked : Table → Probe → Bool × Table
marked l (hit j) = (true, record l { slots = set l.slots j (with_life (slot_at l.slots j)) })
marked l (free j) = (false, l)
marked l full = (false, l)

unfoldable pub mark_reaped : Table → EntryKey → Bool × Table
unfolding probe
mark_reaped l k = marked l (probe l k)

abbrev pub hit_code : Bool → Result PxCode (Unit {0})
hit_code true = ok tt
hit_code false = fail enoent

unfoldable pub reap : Table → ℕ → Done
unfolding mark_reaped
reap l pid =
    if l.disabled
    then (fail enoent, l)
    else if pid == 0
    then (fail enoent, l)
    else let (by_pid, l') = mark_reaped l (record { pid = pid; kind = pid_entry }) in
      let (by_pgid, l'') = mark_reaped l' (record { pid = pid; kind = pgid_entry }) in
      (hit_code (by_pid || by_pgid), l'')

abbrev pub removed : Table → Probe → Done
removed l (hit j) = (ok tt, bury l j)
removed l (free j) = (fail enoent, l)
removed l full = (fail enoent, l)

unfoldable pub remove : Table → EntryKey → Done
unfolding probe
remove l k = if l.disabled then (fail enoent, l) else removed l (probe l k)

unfoldable pub cleared : List EntrySlot → List EntrySlot
cleared [] = []
cleared (s ∷ slots) = empty ∷ cleared slots

unfoldable pub clear : Table → Table
unfolding cleared
clear l = record l { slots = cleared l.slots; count = 0; tomb_count = 0; clock = 0 }

-- `px_count_life`
abbrev pub has_life : (Life → Bool) → EntrySlot → ℕ
has_life want (live k e age) = if want e.life then 1 else 0
has_life want empty = 0
has_life want tomb = 0

unfoldable pub count_life : (Life → Bool) → List EntrySlot → ℕ
count_life want [] = 0
count_life want (s ∷ slots) = has_life want s + count_life want slots
