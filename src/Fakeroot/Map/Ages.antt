-- ===== src/Fakeroot/Map/Ages.antt =====
-- fakeroot.c, `fr_map_compact`: what it makes of `last_used`, and of the settings.
use bxroot.Prelude.{
  ℕ, zero, suc, ◌+◌, ◌≡◌, refl, sym, ◌∙◌, List, [], ◌∷◌, set, Option-cases, inl, inr, Result, ok,
  fail, true,
}
use bxroot.Fakeroot.Types.{FrCode, Record}
use bxroot.Fakeroot.Map.Keys.{FrKey, fr_key}
use bxroot.Fakeroot.Map.Store.{RecordSlot, probe, RecordMap}
use bxroot.Fakeroot.Map.Upkeep.{Moved, moved, stuck, behind, move_all, compacted, compact}
use bxroot.Table.Moves.{empties-IsBlank}
use bxroot.Table.{empties, index_of, empty, tomb, live, slot_at}
use bxroot.Table.Moves.{slot_at-blank}
use bxroot.Table.Paths.{live-ne-empty}

age_of :
    {k k' : FrKey} {r r' : Record} {a b : ℕ}
    → ◌≡◌ {A = RecordSlot} (live k r a) (live k' r' b)
    → a ≡ b
age_of h = cc

behind-moved :
    (s : RecordSlot) (d : Moved) (new : List RecordSlot) (n : ℕ)
    → behind s d ≡ moved new n
    → d ≡ moved new n
behind-moved s (moved new' n') new n h = h
behind-moved s (stuck old) new n h = cc

moved_same : {new new' : List RecordSlot} {n n' : ℕ} → moved new n ≡ moved new' n' → new ≡ new'
moved_same h = cc

stuck-ne-moved : {old new : List RecordSlot} {n : ℕ} → stuck old ≡ moved new n → ⊥
stuck-ne-moved h = cc

ok-ne-fail : {e : FrCode} → ◌≡◌ {A = Result FrCode (Unit {0})} (fail e) (ok tt) → ⊥
ok-ne-fail h = cc

module _ (P : ℕ → Type 0) where
  abbrev pub Ages : List RecordSlot → Type 0
  Ages slots = (j : ℕ) (k : FrKey) (r : Record) (age : ℕ) → slot_at slots j ≡ live k r age → P age

  Ages-rest : (s : RecordSlot) (slots : List RecordSlot) → Ages (s ∷ slots) → Ages slots
  Ages-rest s slots ages j = ages (suc j)

  pub Ages-set :
      (slots : List RecordSlot) (i : ℕ) (k : FrKey) (r : Record) (age : ℕ)
      → P age
      → Ages slots
      → Ages (set slots i (live k r age))
  Ages-set [] i k r age p ages j k' r' age' h = absurd (live-ne-empty (sym h))
  Ages-set (s ∷ slots) zero k r age p ages zero k' r' age' h = rw (age_of h) at p
  Ages-set (s ∷ slots) zero k r age p ages (suc j) k' r' age' h = ages (suc j) k' r' age' h
  Ages-set (s ∷ slots) (suc i) k r age p ages zero k' r' age' h = ages 0 k' r' age' h
  Ages-set (s ∷ slots) (suc i) k r age p ages (suc j) k' r' age' h =
      Ages-set slots i k r age p (Ages-rest s slots ages) j k' r' age' h

  Ages-moved :
      (cap mask : ℕ) (old new : List RecordSlot) (n : ℕ) (new' : List RecordSlot) (n' : ℕ)
      → Ages old
      → Ages new
      → move_all cap mask old new n ≡ moved new' n'
      → Ages new'
  unfolding move_all
  Ages-moved cap mask [] new n new' n' olds news h = rw (moved_same h) at news
  Ages-moved cap mask (empty ∷ old) new n new' n' olds news h =
      Ages-moved cap mask old new n new' n' (Ages-rest empty old olds) news
        (behind-moved empty _ new' n' h)
  Ages-moved cap mask (tomb ∷ old) new n new' n' olds news h =
      Ages-moved cap mask old new n new' n' (Ages-rest tomb old olds) news
        (behind-moved tomb _ new' n' h)
  Ages-moved cap mask (live k r age ∷ old) new n new' n' olds news h =
      elim (Option-cases (index_of (probe new cap mask k))) [
        | inl e ↦ absurd (stuck-ne-moved (rw e at h))
        | inr (j, e) ↦
            Ages-moved cap mask old (set new j (live k r age)) (n + 1) new' n'
              (Ages-rest _ old olds) (Ages-set new j k r age (olds 0 k r age refl) news)
              (behind-moved empty _ new' n' (rw e at h))
      ]

  compacted-Ages :
      (m : RecordMap) (d : Moved)
      → ((new : List RecordSlot) (n : ℕ) → d ≡ moved new n → Ages new)
      → (compacted m d).0 ≡ ok tt
      → Ages (compacted m d).1.slots
  compacted-Ages m (moved new n) ages h = ages new n refl
  compacted-Ages m (stuck old) ages h = absurd (ok-ne-fail h)

  pub compact-Ages :
      (m : RecordMap) → Ages m.slots → (compact true m).0 ≡ ok tt → Ages (compact true m).1.slots
  unfolding compact
  compact-Ages m ages = compacted-Ages m _ (λ new n h.
      Ages-moved m.cap m.mask m.slots (empties m.cap) 0 new n ages
        (λ j k r age e. absurd (live-ne-empty (sym e ∙ slot_at-blank j (empties-IsBlank m.cap)))) h)

compacted_settings :
    (m : RecordMap) (d : Moved)
    → ((compacted m d).1.eviction ≡ m.eviction) × ((compacted m d).1.cap ≡ m.cap)
compacted_settings m (moved new n) = (refl, refl)
compacted_settings m (stuck old) = (refl, refl)

pub compact_settings :
    (m : RecordMap) → ((compact true m).1.eviction ≡ m.eviction) × ((compact true m).1.cap ≡ m.cap)
unfolding compact
compact_settings m = compacted_settings m _
