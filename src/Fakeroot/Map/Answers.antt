-- ===== src/Fakeroot/Map/Answers.antt =====
-- fakeroot.c: `fakeroot_map_put`, and then `fakeroot_map_get`.
use bxroot.Prelude.{
  ℕ, zero, suc, ◌/◌, ◌≡◌, refl, sym, ◌∙◌, inl, inr, Bool, true, false, ◌&&◌, Option, none, some,
  if◌then◌else◌, ltb, ◌==◌, ok, fail,
}
use bxroot.Fakeroot.Types.{Record}
use bxroot.Fakeroot.Map.Keys.{FrKey, key_equal_iff, fr_key}
use bxroot.Fakeroot.Map.Store.{RecordMap, evict_batch}
use bxroot.Fakeroot.Map.Upkeep.{
  Done, Moved, moved, stuck, compact, compacted, bury, evict_one, evict_loop, evict_lru, overloaded,
}
use bxroot.Fakeroot.Map.Ops.{relieved, put_at, put_in, tidied, put, get}
use bxroot.Fakeroot.Map.Valid.{IsValid}
use bxroot.Fakeroot.Map.Lookup.{get-answer}
use bxroot.Fakeroot.Map.Oldest.{Aged}
use bxroot.Fakeroot.Map.Putting.{Outcome, Stored, stored, no_memory, no_room, put-Outcome}
use bxroot.Table.{Probe, hit, free, full, view}

-- No operation of `fakeroot_map_put` turns the table on or off.
evict_one_on :
    (o : Option ℕ) (m : RecordMap) (next : RecordMap → ℕ × RecordMap)
    → ((m' : RecordMap) → (next m').1.disabled ≡ m'.disabled)
    → (evict_one o m next).1.disabled ≡ m.disabled
evict_one_on none m next rest = refl
evict_one_on (some j) m next rest = rest (bury m j)

evict_loop_on : (n : ℕ) (m : RecordMap) → (evict_loop n m).1.disabled ≡ m.disabled
unfolding evict_loop
evict_loop_on zero m = refl
evict_loop_on (suc n) m = evict_one_on _ m (λ m'. evict_loop n m') (λ m'. evict_loop_on n m')

if_on :
    (b : Bool) (x y : RecordMap) {on : Bool}
    → x.disabled ≡ on
    → y.disabled ≡ on
    → (if b then x else y).disabled ≡ on
if_on true x y h h' = h
if_on false x y h h' = h'

if_done_on :
    {X : Type 0} (b : Bool) (x y : X × RecordMap) {on : Bool}
    → x.1.disabled ≡ on
    → y.1.disabled ≡ on
    → (if b then x else y).1.disabled ≡ on
if_done_on true x y h h' = h
if_done_on false x y h h' = h'

evict_lru_on : (m : RecordMap) (n : ℕ) → (evict_lru m n).1.disabled ≡ m.disabled
unfolding evict_lru
evict_lru_on m n =
    if_done_on (m.cap == 0) _ _ refl (if_done_on (m.count == 0) _ _ refl (evict_loop_on _ m))

compacted_on : (m : RecordMap) (d : Moved) → (compacted m d).1.disabled ≡ m.disabled
compacted_on m (moved new n) = refl
compacted_on m (stuck old) = refl

compact_on : (alloc_ok : Bool) (m : RecordMap) → (compact alloc_ok m).1.disabled ≡ m.disabled
unfolding compact
compact_on false m = refl
compact_on true m = compacted_on m _

put_at_on :
    (m : RecordMap) (k : FrKey) (rec : Record) (p : Probe)
    → (put_at m k rec p).1.disabled ≡ m.disabled
put_at_on m k rec (hit j) = refl
put_at_on m k rec (free j) = refl
put_at_on m k rec full = refl

put_in_on : (k : FrKey) (rec : Record) (d : Done) → (put_in k rec d).1.disabled ≡ d.1.disabled
put_in_on k rec (fail e, m) = refl
put_in_on k rec (ok _, m) =
    put_at_on (relieved m) k rec _
    ∙ if_on (overloaded m && m.eviction) _ m (evict_lru_on m evict_batch) refl

tidied_on : (alloc_ok : Bool) (m : RecordMap) → (tidied alloc_ok m).1.disabled ≡ m.disabled
tidied_on alloc_ok m =
    if_done_on (ltb (m.cap / 4) m.tomb_count) (compact alloc_ok m) (ok tt, m)
      (compact_on alloc_ok m) refl

put_on :
    (alloc_ok : Bool) (m : RecordMap) (k : FrKey) (rec : Record)
    → (put alloc_ok m k rec).1.disabled ≡ m.disabled
unfolding put
put_on alloc_ok m k rec =
    if_done_on m.disabled (ok tt, m) (put_in k rec (tidied alloc_ok m)) refl
      (put_in_on k rec (tidied alloc_ok m) ∙ tidied_on alloc_ok m)

-- What a table that may forget makes of a put.
abbrev Success : RecordMap → FrKey → Record → Done → Type 0
Success m k rec d = (d.0 ≡ ok tt) × IsValid d.1 × (view d.1.slots k ≡ some rec)

true-ne-false : true ≡ false → ⊥
true-ne-false h = cc

Stored-here :
    (m m' : RecordMap) (k : FrKey) (rec : Record) → Stored m k rec m' → view m'.slots k ≡ some rec
Stored-here m m' k rec held =
    let same = (key_equal_iff k k).1 refl in
    elim (held k) [
      | inl e ↦ rw same at e
      | inr (other, gone, may, heavy) ↦ absurd (true-ne-false (sym same ∙ other))
    ]

success :
    {m : RecordMap} {k : FrKey} {rec : Record} (d : Done)
    → m.eviction ≡ true
    → Outcome true m k rec d
    → Success m k rec d
success {m} {k} {rec} _ may (stored m' valid held) = (refl, valid, Stored-here m m' k rec held)
success _ may (no_memory m' valid same failed) = absurd (true-ne-false failed)
success _ may (no_room m' valid same off crowded) = absurd (true-ne-false (sym may ∙ off))

-- With memory, and with eviction on as `fakeroot_map_create` leaves it, `fakeroot_map_put` always
-- succeeds, and `fakeroot_map_get` then returns what was put. The table is well-formed and not
-- disabled, and no record has UINT64_MAX for its time.
pub get-put :
    (m : RecordMap) (k : FrKey) (rec : Record)
    → IsValid m
    → Aged m.slots
    → m.disabled ≡ false
    → m.eviction ≡ true
    → ((put true m k rec).0 ≡ ok tt) × ((get (put true m k rec).1 k).0 ≡ ok rec)
get-put m k rec valid aged on may =
    let (done, valid', held) = success _ may (put-Outcome true m k rec valid aged on) in
    (done, (get-answer _ valid' k (put_on true m k rec ∙ on)).0 ∙ rw held refl)
