-- ===== src/Fakeroot/Map/Putting.antt =====
-- `fakeroot_map_put` on a well-formed table.
use bxroot.Prelude.{
  ◌/◌, ◌≡◌, refl, sym, ◌∙◌, ap, ◌⊎◌, Bool, true, false, none, some, Bool-cases, inl, inr,
  if◌then◌else◌, ltb, ok, fail, arith,
}
use bxroot.Fakeroot.Types.{enomem, efull, Record}
use bxroot.Fakeroot.Map.Keys.{FrKey, key_equal, fr_key}
use bxroot.Fakeroot.Map.Store.{RecordMap, place, probe}
use bxroot.Fakeroot.Map.Upkeep.{Done, compact, overloaded}
use bxroot.Fakeroot.Map.Ops.{relieved, put_at, put_in, put}
use bxroot.Fakeroot.Map.Probing.{probe-Ends}
use bxroot.Fakeroot.Map.Valid.{IsValid, Updated, write-Updated, insert-Updated}
use bxroot.Fakeroot.Map.Compacting.{compact-keeps}
use bxroot.Fakeroot.Map.Oldest.{Aged}
use bxroot.Table.Relocate.{crowded_full}
use bxroot.Table.{Probe, view}
use bxroot.Table.Paths.{Ends, at_key, at_free, at_none}
use bxroot.Fakeroot.Map.Room.{
  Same, Prepared, Relieved, unchanged, packed, relieved-Relieved, overloaded_before,
}

-- The map after a record was stored: as it should be, but that another key may be gone if the table
-- was allowed to forget and was overloaded.
abbrev pub Stored : RecordMap → FrKey → Record → RecordMap → Type 0
Stored m k rec m' =
    (q : FrKey)
    → (view m'.slots q ≡ (if key_equal k q then some rec else view m.slots q))
      ⊎ ((key_equal k q ≡ false)
          × (view m'.slots q ≡ none)
          × (m.eviction ≡ true)
          × (overloaded m ≡ true))

-- How `fakeroot_map_put` may end.
pub data Outcome (alloc_ok : Bool) (m : RecordMap) (k : FrKey) (rec : Record) : Done → Type 0 where
  stored : (m' : RecordMap) → IsValid m' → Stored m k rec m' → Outcome alloc_ok m k rec (ok tt, m')
  no_memory :
      (m' : RecordMap)
      → IsValid m'
      → Same m m'
      → alloc_ok ≡ false
      → Outcome alloc_ok m k rec (fail enomem, m')
  no_room :
      (m' : RecordMap)
      → IsValid m'
      → Same m m'
      → m.eviction ≡ false
      → m.count ≡ m.cap
      → Outcome alloc_ok m k rec (fail efull, m')

-- The write, once the table was compacted and relieved.
module _ (alloc_ok : Bool) (m m' m'' : RecordMap) (k : FrKey) (rec : Record)
    (before : Prepared m m') (ready : Relieved m' m'') where
  around :
      (q : FrKey)
      → (view m''.slots q ≡ view m.slots q)
        ⊎ ((view m''.slots q ≡ none) × (m.eviction ≡ true) × (overloaded m ≡ true))
  around q = elim (ready.fades q) [
    | inl e ↦ inl (e ∙ before.same q)
    | inr (gone, on, heavy) ↦
        inr (gone, sym before.eviction_same ∙ on, overloaded_before m m' before heavy)
  ]

  written :
      (after : RecordMap) → Updated m'' k (some rec) after → Outcome alloc_ok m k rec (ok tt, after)
  written after (valid, reads) = stored after valid (λ q. elim (Bool-cases (key_equal k q)) [
    | inl same ↦ inl (reads q ∙ rw same refl)
    | inr other ↦ elim (around q) [
      | inl e ↦ inl (reads q ∙ rw (other, e) refl)
      | inr (gone, on, heavy) ↦ inr (other, reads q ∙ rw (other, gone) refl, on, heavy)
    ]
  ])

  put_at-Outcome :
      (p : Probe)
      → Ends (place m''.mask) m''.cap m''.slots k p
      → Outcome alloc_ok m k rec (put_at m'' k rec p)
  put_at-Outcome _ (at_key j old age lt here) =
      written _ (write-Updated m'' ready.valid k j lt old age here rec)
  put_at-Outcome _ (at_free j lt vacant absent reach) =
      written _ (insert-Updated m'' ready.valid k j lt rec vacant absent reach)
  put_at-Outcome _ (at_none absent crowd) =
      let all =
        crowded_full (place m''.mask) m''.cap ready.valid.covers m''.slots k
          ready.valid.placed.width crowd in
      elim (Bool-cases m'.eviction) [
        | inl on ↦ absurd (omega (arith, ready.room on, ready.valid.counted, all))
        | inr off ↦
            let same = ready.kept off in
            no_room m'' ready.valid (λ q. ap (λ x. view x.slots q) same ∙ before.same q)
              (sym before.eviction_same ∙ off)
              (omega (
                arith,
                ready.valid.counted,
                all,
                ap (λ x. x.count) same,
                ap (λ x. x.cap) same,
                before.count_same,
                before.cap_same,
              ))
      ]

module _ (m : RecordMap) (k : FrKey) (rec : Record) where
  put_prepared : RecordMap → Done
  put_prepared m' =
      put_at (relieved m') k rec (probe (relieved m').slots (relieved m').cap (relieved m').mask k)

  put_in-ok : (d : Done) → d.0 ≡ ok tt → put_in k rec d ≡ put_prepared d.1
  unfolding put_prepared
  put_in-ok (ok _, m') h = refl
  put_in-ok (fail e, m') h = cc

  put_prepared-Outcome :
      (alloc_ok : Bool) (m' : RecordMap)
      → Prepared m m'
      → Outcome alloc_ok m k rec (put_prepared m')
  unfolding put_prepared
  put_prepared-Outcome alloc_ok m' before =
      let ready = relieved-Relieved m' before.valid before.aged in
      put_at-Outcome alloc_ok m m' (relieved m') k rec before ready _ (
        probe-Ends (relieved m').mask (relieved m').cap ready.valid.sized (relieved m').slots k
          ready.valid.placed)

  put_compacted :
      (alloc_ok : Bool)
      → IsValid m
      → Aged m.slots
      → Outcome alloc_ok m k rec (put_in k rec (compact alloc_ok m))
  unfolding compact
  put_compacted false valid aged =
      no_memory _
        (record {
          sized = valid.sized;
          covers = valid.covers;
          placed = valid.placed;
          counted = valid.counted;
          buried = valid.buried;
        })
        (λ q. refl) refl
  put_compacted true valid aged =
      rw (put_in-ok (compact true m) (compact-keeps m valid).0)
        (put_prepared-Outcome true _ (packed m valid aged))

-- `fakeroot_map_put` on a well-formed table that is not disabled. It stores the record, and each
-- other key keeps its record, unless eviction is on and the table was overloaded; or `calloc` failed
-- and the table holds what it held; or eviction is off, every slot has a record, and the table holds
-- what it held. In all cases the table is well-formed. No record has UINT64_MAX for its time.
pub put-Outcome :
    (alloc_ok : Bool) (m : RecordMap) (k : FrKey) (rec : Record)
    → IsValid m
    → Aged m.slots
    → m.disabled ≡ false
    → Outcome alloc_ok m k rec (put alloc_ok m k rec)
unfolding put put_prepared
put-Outcome alloc_ok m k rec valid aged on = elim (Bool-cases (ltb (m.cap / 4) m.tomb_count)) [
  | inl many ↦ simp (on, many) (put_compacted m k rec alloc_ok valid aged)
  | inr few ↦ simp (on, few) (put_prepared-Outcome m k rec alloc_ok m (unchanged m valid aged))
]
