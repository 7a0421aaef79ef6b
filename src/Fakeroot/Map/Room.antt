-- ===== src/Fakeroot/Map/Room.antt =====
-- What `fakeroot_map_put` does before it writes: it compacts a table with many tombstones, and takes
-- away old records from an overloaded one.
use Prim.Native.Nat.{min}
use bxroot.Prelude.{
  ℕ, ◌-◌, ◌^◌, ◌≤◌, ◌<◌, ◌≡◌, refl, sym, ◌∙◌, ◌⊎◌, Bool, true, false, ◌&&◌, none, Bool-cases, inl,
  inr, leb, arith,
}
use bxroot.Fakeroot.Map.Keys.{FrKey, fr_key}
use bxroot.Fakeroot.Map.Store.{RecordMap, evict_batch}
use bxroot.Fakeroot.Map.Upkeep.{compact, overloaded, evict_lru}
use bxroot.Fakeroot.Map.Ops.{relieved}
use bxroot.Fakeroot.Map.Valid.{IsValid}
use bxroot.Fakeroot.Map.Compacting.{compact-keeps}
use bxroot.Fakeroot.Map.Oldest.{Aged}
use bxroot.Fakeroot.Map.Evicting.{Evicted, evict_lru-Evicted}
use bxroot.Fakeroot.Map.Ages.{compact-Ages, compact_settings}
use bxroot.Table.{view}
use bxroot.Table.Slots.{used-le}

abbrev pub Same : RecordMap → RecordMap → Type 0
Same m m' = (q : FrKey) → view m'.slots q ≡ view m.slots q

true-ne-false : true ≡ false → ⊥
true-ne-false h = cc

leb-false→lt : (a b : ℕ) → leb a b ≡ false → b < a
leb-false→lt a b h = ground arith

leb→le : (a b : ℕ) → leb a b ≡ true → a ≤ b
leb→le a b h = ground arith

le→leb : (a b : ℕ) → a ≤ b → leb a b ≡ true
le→leb a b h = ground arith

and_right : (a : Bool) {b : Bool} → b ≡ false → (a && b) ≡ false
and_right true h = h
and_right false h = refl

and_left : {a : Bool} (b : Bool) → a ≡ false → (a && b) ≡ false
and_left b h = rw h refl

and_true : {a b : Bool} → a ≡ true → b ≡ true → (a && b) ≡ true
and_true h h' = rw (h, h') refl

-- What compacting first leaves as it is.
pub record Prepared (m m' : RecordMap) : Type 0 where
  pub valid : IsValid m'
  pub same : Same m m'
  pub aged : Aged m'.slots
  pub eviction_same : m'.eviction ≡ m.eviction
  pub cap_same : m'.cap ≡ m.cap
  pub count_same : m'.count ≡ m.count
  pub fewer : m'.tomb_count ≤ m.tomb_count

pub unchanged : (m : RecordMap) → IsValid m → Aged m.slots → Prepared m m
unchanged m valid aged = record {
  valid = valid;
  same = λ q. refl;
  aged = aged;
  eviction_same = refl;
  cap_same = refl;
  count_same = refl;
  fewer = omega arith;
}

pub packed : (m : RecordMap) → IsValid m → Aged m.slots → Prepared m (compact true m).1
packed m valid aged =
    let (done, valid', no_tombs, count_same, same) = compact-keeps m valid in
    let (eviction_same, cap_same) = compact_settings m in
    record {
      valid = valid';
      same = same;
      aged = compact-Ages (λ age. age < 2 ^ 64 - 1) m aged done;
      eviction_same = eviction_same;
      cap_same = cap_same;
      count_same = count_same;
      fewer = omega (arith, no_tombs);
    }

-- What making room leaves.
pub record Relieved (m m' : RecordMap) : Type 0 where
  pub valid : IsValid m'
  pub fades :
      (q : FrKey)
      → (view m'.slots q ≡ view m.slots q)
        ⊎ ((view m'.slots q ≡ none) × (m.eviction ≡ true) × (overloaded m ≡ true))
  pub kept : m.eviction ≡ false → m' ≡ m
  pub room : m.eviction ≡ true → m'.count < m'.cap

calm : (m : RecordMap) → (overloaded m && m.eviction) ≡ false → relieved m ≡ m
calm m e = simp e refl

pressed :
    (m : RecordMap) → (overloaded m && m.eviction) ≡ true → relieved m ≡ (evict_lru m evict_batch).1
pressed m e = simp e refl

counted_le : (m : RecordMap) → IsValid m → m.count ≤ m.cap
counted_le m valid = omega (arith, valid.counted, used-le m.slots, valid.placed.width)

-- Nothing is taken away.
rests : (m : RecordMap) → IsValid m → (m.eviction ≡ true → m.count < m.cap) → Relieved m m
rests m valid room = record {
  valid = valid;
  fades = λ q. inl refl;
  kept = λ off. refl;
  room = room;
}

light_room : (m : RecordMap) → IsValid m → overloaded m ≡ false → m.count < m.cap
light_room m valid light = omega (arith, valid.sized, leb-false→lt _ _ light)

makes_room :
    (m : RecordMap) (result : ℕ × RecordMap)
    → IsValid m
    → m.eviction ≡ true
    → overloaded m ≡ true
    → Evicted (min evict_batch m.count) m result
    → Relieved m result.1
makes_room m result valid on heavy (done, valid', fewer, cap_same, gone, fades) = record {
  valid = valid';
  fades = λ q. elim (fades q) [ inl e ↦ inl e | inr e ↦ inr (e, on, heavy) ];
  kept = λ off. absurd (true-ne-false (sym on ∙ off));
  room = λ _. omega (arith, fewer, cap_same, counted_le m valid, valid'.sized);
}

pub relieved-Relieved : (m : RecordMap) → IsValid m → Aged m.slots → Relieved m (relieved m)
relieved-Relieved m valid aged = elim (Bool-cases m.eviction) [
  | inr off ↦
      rw (calm m (and_right (overloaded m) off))
        (rests m valid (λ on. absurd (true-ne-false (sym on ∙ off))))
  | inl on ↦ elim (Bool-cases (overloaded m)) [
    | inr light ↦
        rw (calm m (and_left m.eviction light)) (rests m valid (λ _. light_room m valid light))
    | inl heavy ↦
        rw (pressed m (and_true heavy on))
          (makes_room m _ valid on heavy (evict_lru-Evicted m evict_batch valid aged))
  ]
]

pub overloaded_before :
    (m m' : RecordMap) → Prepared m m' → overloaded m' ≡ true → overloaded m ≡ true
overloaded_before m m' before heavy =
    le→leb _ _ (omega (arith, before.cap_same, before.count_same, before.fewer, leb→le _ _ heavy))
