-- ===== src/Fakeroot/Map/Reached.antt =====
-- The tables that the operations make from the one of `fakeroot_map_create`.
use bxroot.Prelude.{
  ℕ, zero, suc, ◌-◌, ◌^◌, ◌/◌, ◌≡◌, refl, sym, ◌∙◌, Bool, true, false, ◌&&◌, Option, none, some,
  if◌then◌else◌, ltb, ◌==◌, ok, fail, arith,
}
use bxroot.Fakeroot.Types.{Record}
use bxroot.Fakeroot.Patch.{updated}
use bxroot.Fakeroot.Map.Keys.{FrKey, fr_key}
use bxroot.Fakeroot.Map.Store.{RecordMap, place, probe, create, evict_batch}
use bxroot.Fakeroot.Map.Upkeep.{Done, compact, evict_one, evict_loop, evict_lru, overloaded}
use bxroot.Fakeroot.Map.Ops.{
  tidied, relieved, put_at, put_in, put, get, update_at, update, remove, clear, check_invariants,
  set_disabled, set_eviction,
}
use bxroot.Fakeroot.Map.Probing.{probe-Ends}
use bxroot.Fakeroot.Map.Valid.{IsValid, write-Updated, insert-Updated, bury-Updated}
use bxroot.Fakeroot.Map.Lookup.{got_lem, removed_lem}
use bxroot.Fakeroot.Map.Compacting.{compact-keeps}
use bxroot.Fakeroot.Map.Oldest.{Found, at_slot, at_best, oldest-Found}
use bxroot.Fakeroot.Map.Creating.{create-IsValid, clear-IsEmpty, check_invariants-IsValid}
use bxroot.Table.{live, Probe, slot_at}
use bxroot.Table.Slots.{live_lt}
use bxroot.Table.Paths.{Ends, at_key, at_free, at_none}

-- One operation on the table, whatever its result.
pub data Step (m : RecordMap) : RecordMap → Type 0 where
  by_put : (alloc_ok : Bool) (k : FrKey) (rec : Record) → Step m (put alloc_ok m k rec).1
  by_update : (alloc_ok : Bool) (k : FrKey) (delta : Record) → Step m (update alloc_ok m k delta).1
  by_get : (k : FrKey) → Step m (get m k).1
  by_remove : (k : FrKey) → Step m (remove m k).1
  by_evict : (n : ℕ) → Step m (evict_lru m n).1
  by_clear : Step m (clear m)
  by_set_disabled : (off : Bool) → Step m (set_disabled m off)
  by_set_eviction : (enabled : Bool) → Step m (set_eviction m enabled)

pub data Reached : RecordMap → Type 0 where
  at_first : (n : ℕ) (m : RecordMap) → create true n ≡ some m → Reached m
  after : {m m' : RecordMap} → Reached m → Step m m' → Reached m'

if_IsValid : (b : Bool) (x y : RecordMap) → IsValid x → IsValid y → IsValid (if b then x else y)
if_IsValid true x y h h' = h
if_IsValid false x y h h' = h'

if_result-IsValid :
    {X : Type 0} (b : Bool) (x y : X × RecordMap)
    → IsValid x.1
    → IsValid y.1
    → IsValid (if b then x else y).1
if_result-IsValid true x y h h' = h
if_result-IsValid false x y h h' = h'

-- Any table that differs in its switches and its counters of compactions.
same-IsValid :
    (m m' : RecordMap)
    → IsValid m
    → m'.slots ≡ m.slots
    → m'.cap ≡ m.cap
    → m'.mask ≡ m.mask
    → m'.count ≡ m.count
    → m'.tomb_count ≡ m.tomb_count
    → IsValid m'
same-IsValid m m' valid e e' e'' f f' = record {
  sized = rw (e', e'') valid.sized;
  covers = rw (e', e'') valid.covers;
  placed = rw (e, e', e'') valid.placed;
  counted = rw (e, f) valid.counted;
  buried = rw (e, f') valid.buried;
}

whole-Ends :
    (m : RecordMap)
    → IsValid m
    → (k : FrKey) → Ends (place m.mask) m.cap m.slots k (probe m.slots m.cap m.mask k)
whole-Ends m valid k = probe-Ends m.mask m.cap valid.sized m.slots k valid.placed

evict_one-IsValid :
    (m : RecordMap) (o : Option ℕ) (next : RecordMap → ℕ × RecordMap)
    → IsValid m
    → ((m' : RecordMap) → IsValid m' → IsValid (next m').1)
    → Found m.slots 0 none (2 ^ 64 - 1) o
    → IsValid (evict_one o m next).1
evict_one-IsValid m _ next valid rest (at_slot j x k r age e here lt older) =
    let same : x ≡ j = omega arith in
    let found : slot_at m.slots j ≡ live k r age = rw same at here in
    let in_list = live_lt m.slots j (rw found refl) in
    rest _ (bury-Updated m valid k j (omega (arith, valid.placed.width)) r age found).0
evict_one-IsValid m _ next valid rest (at_best older) = valid

evict_loop-IsValid : (n : ℕ) (m : RecordMap) → IsValid m → IsValid (evict_loop n m).1
unfolding evict_loop
evict_loop-IsValid zero m valid = valid
evict_loop-IsValid (suc n) m valid =
    evict_one-IsValid m _ (λ m'. evict_loop n m') valid (λ m' v. evict_loop-IsValid n m' v)
      (oldest-Found m.slots 0 none (2 ^ 64 - 1))

evict_lru-IsValid : (m : RecordMap) (n : ℕ) → IsValid m → IsValid (evict_lru m n).1
unfolding evict_lru
evict_lru-IsValid m n valid =
    if_result-IsValid (m.cap == 0) (0, m) _ valid
      (if_result-IsValid (m.count == 0) (0, m) _ valid (evict_loop-IsValid _ m valid))

put_at-IsValid :
    (m : RecordMap) (k : FrKey) (rec : Record) (p : Probe)
    → IsValid m
    → Ends (place m.mask) m.cap m.slots k p
    → IsValid (put_at m k rec p).1
put_at-IsValid m k rec _ valid (at_key j old age lt here) =
    (write-Updated m valid k j lt old age here rec).0
put_at-IsValid m k rec _ valid (at_free j lt vacant absent reach) =
    (insert-Updated m valid k j lt rec vacant absent reach).0
put_at-IsValid m k rec _ valid (at_none absent crowd) = valid

compact-IsValid : (alloc_ok : Bool) (m : RecordMap) → IsValid m → IsValid (compact alloc_ok m).1
unfolding compact
compact-IsValid false m valid = same-IsValid m _ valid refl refl refl refl refl
compact-IsValid true m valid = (compact-keeps m valid).1

put_in-IsValid : (k : FrKey) (rec : Record) (d : Done) → IsValid d.1 → IsValid (put_in k rec d).1
put_in-IsValid k rec (fail e, m) valid = valid
put_in-IsValid k rec (ok _, m) valid =
    let ready =
      if_IsValid (overloaded m && m.eviction) _ m (evict_lru-IsValid m evict_batch valid) valid in
    put_at-IsValid (relieved m) k rec _ ready (whole-Ends (relieved m) ready k)

put-IsValid :
    (alloc_ok : Bool) (m : RecordMap) (k : FrKey) (rec : Record)
    → IsValid m
    → IsValid (put alloc_ok m k rec).1
unfolding put
put-IsValid alloc_ok m k rec valid =
    if_result-IsValid m.disabled (ok tt, m) (put_in k rec (tidied alloc_ok m)) valid
      (put_in-IsValid k rec (tidied alloc_ok m) (
        if_result-IsValid (ltb (m.cap / 4) m.tomb_count) (compact alloc_ok m) (ok tt, m)
          (compact-IsValid alloc_ok m valid) valid))

update_at-IsValid :
    (alloc_ok : Bool) (m : RecordMap) (k : FrKey) (delta : Record) (p : Probe)
    → IsValid m
    → Ends (place m.mask) m.cap m.slots k p
    → IsValid (update_at alloc_ok m k delta p).1
update_at-IsValid alloc_ok m k delta _ valid (at_key j old age lt here) =
    rw here (write-Updated m valid k j lt old age here (updated (some old) delta)).0
update_at-IsValid alloc_ok m k delta _ valid (at_free j lt vacant absent reach) =
    put-IsValid alloc_ok m k _ valid
update_at-IsValid alloc_ok m k delta _ valid (at_none absent crowd) =
    put-IsValid alloc_ok m k _ valid

Step-IsValid : {m m' : RecordMap} → IsValid m → Step m m' → IsValid m'
unfolding get update remove
Step-IsValid {m} valid (by_put alloc_ok k rec) = put-IsValid alloc_ok m k rec valid
Step-IsValid {m} valid (by_update alloc_ok k delta) =
    if_result-IsValid m.disabled (ok tt, m) _ valid
      (update_at-IsValid alloc_ok m k delta _ valid (whole-Ends m valid k))
Step-IsValid {m} valid (by_get k) =
    if_result-IsValid m.disabled _ _ valid (got_lem m valid k _ (whole-Ends m valid k)).1.0
Step-IsValid {m} valid (by_remove k) =
    if_result-IsValid m.disabled _ _ valid (removed_lem m valid k _ (whole-Ends m valid k)).1.0
Step-IsValid {m} valid (by_evict n) = evict_lru-IsValid m n valid
Step-IsValid {m} valid by_clear = (clear-IsEmpty m valid).0
Step-IsValid {m} valid (by_set_disabled off) = same-IsValid m _ valid refl refl refl refl refl
Step-IsValid {m} valid (by_set_eviction enabled) = same-IsValid m _ valid refl refl refl refl refl

made : (m m' : RecordMap) → some m ≡ some m' → m ≡ m'
made m m' h = cc

Reached-IsValid : {m : RecordMap} → Reached m → IsValid m
Reached-IsValid {m} (at_first n _ e) =
    let (m', e', valid, blank, size) = create-IsValid n in
    let same : m' ≡ m = made m' m (sym e' ∙ e) in rw same at valid
Reached-IsValid (after before step) = Step-IsValid (Reached-IsValid before) step

-- Whatever puts, updates, gets, removes, evictions and clears were made on a table, on or off, since
-- fakeroot_map_create made it, and whether or not memory was given, the table is well-formed: each key
-- occurs once and where its probe finds it, and fakeroot_map_check_invariants says yes.
pub Reached-invariants : (m : RecordMap) → Reached m → IsValid m × (check_invariants m ≡ true)
Reached-invariants m reached =
    let valid = Reached-IsValid reached in (valid, check_invariants-IsValid m valid)
