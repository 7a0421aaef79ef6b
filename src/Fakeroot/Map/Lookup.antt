-- ===== src/Fakeroot/Map/Lookup.antt =====
-- `fakeroot_map_get` and `fakeroot_map_remove` on a well-formed table.
use bxroot.Prelude.{◌≡◌, refl, false, Option, none, some, Result, ok, fail}
use bxroot.Fakeroot.Types.{FrCode, enoent, Record}
use bxroot.Fakeroot.Map.Keys.{FrKey, fr_key}
use bxroot.Fakeroot.Map.Store.{RecordMap, place}
use bxroot.Fakeroot.Map.Ops.{got, get, removed, remove}
use bxroot.Fakeroot.Map.Probing.{probe-Ends}
use bxroot.Fakeroot.Map.Valid.{
  IsValid, Updated, answer, write-Updated, bury-Updated, absent_same, read_at,
}
use bxroot.Table.{Probe, view}
use bxroot.Table.Paths.{Ends, at_key, at_free, at_none}

abbrev pub deletion : Option Record → Result FrCode (Unit {0})
deletion none = fail enoent
deletion (some r) = ok tt

module _ (m : RecordMap) (valid : IsValid m) (k : FrKey) where
  unmoved : {o : Option Record} → o ≡ none → view m.slots k ≡ none → Updated m k o m
  unmoved {o} e absent = (valid, λ q. absent_same m valid k o q e absent)

  pub got_lem :
      (p : Probe)
      → Ends (place m.mask) m.cap m.slots k p
      → ((got m p).0 ≡ answer (view m.slots k)) × Updated m k (view m.slots k) (got m p).1
  got_lem _ (at_key j old age lt here) =
      let seen = read_at m valid k j old age here in
      rw (here, seen) (refl, write-Updated m valid k j lt old age here old)
  got_lem _ (at_free j lt vacant absent reach) = rw absent (refl, unmoved refl absent)
  got_lem _ (at_none absent crowd) = rw absent (refl, unmoved refl absent)

  pub removed_lem :
      (p : Probe)
      → Ends (place m.mask) m.cap m.slots k p
      → ((removed m p).0 ≡ deletion (view m.slots k)) × Updated m k none (removed m p).1
  removed_lem _ (at_key j old age lt here) =
      let seen = read_at m valid k j old age here in
      rw seen (refl, bury-Updated m valid k j lt old age here)
  removed_lem _ (at_free j lt vacant absent reach) = rw absent (refl, unmoved refl absent)
  removed_lem _ (at_none absent crowd) = rw absent (refl, unmoved refl absent)

  -- On a well-formed table that is not disabled, `fakeroot_map_get` returns the record that the map
  -- holds for the key, and FR_ENOENT if it holds none; and it changes no key's record.
  pub get-answer :
      m.disabled ≡ false
      → ((get m k).0 ≡ answer (view m.slots k)) × Updated m k (view m.slots k) (get m k).1
  unfolding get
  get-answer on = simp on (got_lem _ (probe-Ends m.mask m.cap valid.sized m.slots k valid.placed))

  -- On a well-formed table that is not disabled, `fakeroot_map_remove` succeeds if the map holds the
  -- key, and says FR_ENOENT if not; in both cases the key is gone then, the other keys have the
  -- records they had, and the table is well-formed.
  pub remove-deletion :
      m.disabled ≡ false
      → ((remove m k).0 ≡ deletion (view m.slots k)) × Updated m k none (remove m k).1
  unfolding remove
  remove-deletion on =
      simp on (removed_lem _ (probe-Ends m.mask m.cap valid.sized m.slots k valid.placed))
