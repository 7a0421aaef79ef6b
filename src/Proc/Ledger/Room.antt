-- ===== src/Proc/Ledger/Room.antt =====
-- What `px_ledger_put` does before it adds: it compacts an overloaded ledger or lets it grow.
use bxroot.Prelude.{
  ◌^◌, ◌≤◌, ◌≡◌, refl, sym, ◌∙◌, inl, inr, Bool, true, false, ◌&&◌, Option, some, Bool-cases, ltb,
  leb, ok, fail, arith,
}
use bxroot.Proc.Ledger.Types.{PxCode, enomem, efull, entry_key, max_slots, EntryKey}
use bxroot.Proc.Ledger.Ops.{
  Table, Done, compact, grow, overloaded, Ending, returned, locked_out, after_grow, then_end,
  after_compact, make_room,
}
use bxroot.Proc.Ledger.Valid.{IsValid}
use bxroot.Proc.Ledger.Growing.{Repacked, compact-Repacked, grow-Repacked}
use bxroot.Table.{view}

-- Why nothing was added.
pub data Refusal (alloc_ok alloc_ok' : Bool) (l : Table) : PxCode → Type 0 where
  no_memory : (alloc_ok && alloc_ok') ≡ false → Refusal alloc_ok alloc_ok' l enomem
  at_limit : 2 ^ 22 ≤ l.cap → Refusal alloc_ok alloc_ok' l efull
  crowded : l.count ≡ l.cap → Refusal alloc_ok alloc_ok' l efull

-- The table holds what it held.
pub record Holds (l l' : Table) : Type 0 where
  pub same : (q : EntryKey) → view l'.slots q ≡ view l.slots q
  pub eviction_same : l'.eviction ≡ l.eviction

pub nothing_done : (l : Table) → Holds l l
nothing_done l = record { same = λ q. refl; eviction_same = refl }

pub then_packed : (l l' l'' : Table) → Holds l l' → Repacked l' l'' → Holds l l''
then_packed l l' l'' h packed = record {
  same = λ q. packed.same q ∙ h.same q;
  eviction_same = packed.eviction_same ∙ h.eviction_same;
}

-- How making room may end.
pub data Roomy (alloc_ok alloc_ok' : Bool) (l : Table) : Ending → Type 0 where
  ready : (l' : Table) → IsValid l' → Holds l l' → Roomy alloc_ok alloc_ok' l (returned (ok tt, l'))
  stopped :
      (e : PxCode) (l' : Table)
      → IsValid l'
      → Holds l l'
      → Refusal alloc_ok alloc_ok' l' e
      → Roomy alloc_ok alloc_ok' l (returned (fail e, l'))
  waits :
      (e : PxCode) (l' : Table)
      → Holds l l'
      → Refusal alloc_ok alloc_ok' l' e
      → l.eviction ≡ true
      → Roomy alloc_ok alloc_ok' l locked_out

-- How growing may end.
data Grows (alloc_ok : Bool) (l : Table) : Option Done → Type 0 where
  bigger : (l' : Table) → Repacked l l' → Grows alloc_ok l (some (ok tt, l'))
  at_most : 2 ^ 22 ≤ l.cap → Grows alloc_ok l (some (fail efull, l))
  starved : alloc_ok ≡ false → Grows alloc_ok l (some (fail enomem, l))

Grows-below :
    (alloc_ok : Bool) (l : Table)
    → IsValid l
    → leb max_slots l.cap ≡ false
    → Grows alloc_ok l (grow alloc_ok l)
unfolding grow
Grows-below false l valid small = simp small (starved refl)
Grows-below true l valid small =
    let (l', e, packed, cap_same) = grow-Repacked l valid (ground (arith, small)) in
    rw e (bigger l' packed)

grow-Grows : (alloc_ok : Bool) (l : Table) → IsValid l → Grows alloc_ok l (grow alloc_ok l)
unfolding grow
grow-Grows alloc_ok l valid = elim (Bool-cases (leb max_slots l.cap)) [
  | inl big ↦ simp big (at_most (ground (arith, big)))
  | inr small ↦ Grows-below alloc_ok l valid small
]

and_false : (a : Bool) {b : Bool} → b ≡ false → (a && b) ≡ false
and_false true h = h
and_false false h = refl

module _ (alloc_ok alloc_ok' : Bool) (l : Table) where
  stopped_or_waits :
      (e : PxCode) (l' : Table)
      → IsValid l'
      → Holds l l'
      → Refusal alloc_ok alloc_ok' l' e
      → Roomy alloc_ok alloc_ok' l (then_end (after_grow l') (some (fail e, l')))
  stopped_or_waits e l' valid holds why = elim (Bool-cases l'.eviction) [
    | inl on ↦ simp on (waits e l' holds why (sym holds.eviction_same ∙ on))
    | inr off ↦ simp off (stopped e l' valid holds why)
  ]

  grown_Roomy :
      (l' : Table) (d : Option Done)
      → IsValid l'
      → Holds l l'
      → Grows alloc_ok' l' d
      → Roomy alloc_ok alloc_ok' l (then_end (after_grow l') d)
  grown_Roomy l' _ valid holds (bigger l'' packed) =
      ready l'' packed.valid (then_packed l l' l'' holds packed)
  grown_Roomy l' _ valid holds (at_most big) = stopped_or_waits efull l' valid holds (at_limit big)
  grown_Roomy l' _ valid holds (starved failed) =
      stopped_or_waits enomem l' valid holds (no_memory (and_false alloc_ok failed))

  after_compact_ok :
      (l' : Table)
      → IsValid l'
      → Holds l l'
      → Roomy alloc_ok alloc_ok' l (after_compact alloc_ok' (some (ok tt, l')))
  after_compact_ok l' valid holds = elim (Bool-cases (overloaded l')) [
    | inl heavy ↦ simp heavy (grown_Roomy l' _ valid holds (grow-Grows alloc_ok' l' valid))
    | inr light ↦ simp light (ready l' valid holds)
  ]

packed_first :
    (alloc_ok alloc_ok' : Bool) (l : Table)
    → IsValid l
    → Roomy alloc_ok alloc_ok' l (after_compact alloc_ok' (compact alloc_ok l))
unfolding compact
packed_first false alloc_ok' l valid = stopped enomem l valid (nothing_done l) (no_memory refl)
packed_first true alloc_ok' l valid =
    let (l', e, packed, cap_same) = compact-Repacked l valid in
    rw e (
      after_compact_ok true alloc_ok' l l' packed.valid
        (then_packed l l l' (nothing_done l) packed))

pub make_room-Roomy :
    (alloc_ok alloc_ok' : Bool) (l : Table)
    → IsValid l
    → Roomy alloc_ok alloc_ok' l (make_room alloc_ok alloc_ok' l)
unfolding make_room
make_room-Roomy alloc_ok alloc_ok' l valid = elim (Bool-cases (overloaded l)) [
  | inr light ↦ simp light (ready l valid (nothing_done l))
  | inl heavy ↦ elim (Bool-cases (ltb 0 l.tomb_count)) [
    | inr none_there ↦
        simp (heavy, none_there)
          (grown_Roomy alloc_ok alloc_ok' l l _ valid (nothing_done l)
            (grow-Grows alloc_ok' l valid))
    | inl some_there ↦ simp (heavy, some_there) (packed_first alloc_ok alloc_ok' l valid)
  ]
]
