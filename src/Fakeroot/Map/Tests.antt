-- ===== src/Fakeroot/Map/Tests.antt =====
-- The theorems on the table of records at a table of four slots with one record.
use bxroot.Prelude.{◌-◌, ◌^◌, ◌<◌, ◌≡◌, refl, sym, ◌∙◌, true, false, none, [], ◌∷◌, ok, arith}
use bxroot.Fakeroot.Types.{Record}
use bxroot.Fakeroot.Map.Keys.{FrKey, fd_key, path_key, fr_key}
use bxroot.Fakeroot.Map.Store.{RecordMap, fresh, place, create}
use bxroot.Fakeroot.Map.Upkeep.{compact, evict_lru}
use bxroot.Fakeroot.Map.Ops.{put_at, put, get, remove, check_invariants}
use bxroot.Fakeroot.Map.Probing.{place-lt}
use bxroot.Fakeroot.Map.Valid.{IsValid, Updated, answer, insert-Updated}
use bxroot.Fakeroot.Map.Lookup.{deletion, get-answer, remove-deletion}
use bxroot.Fakeroot.Map.Compacting.{compact-keeps}
use bxroot.Fakeroot.Map.Oldest.{Aged}
use bxroot.Fakeroot.Map.Evicting.{Evicted, evict_lru-Evicted}
use bxroot.Fakeroot.Map.Ages.{Ages-set}
use bxroot.Fakeroot.Map.Putting.{Outcome, put-Outcome}
use bxroot.Fakeroot.Map.Creating.{fresh-IsValid}
use bxroot.Fakeroot.Map.Reached.{at_first, after, by_put, by_remove, Reached-invariants}
use bxroot.Fakeroot.Map.Answers.{get-put}
use bxroot.Table.Moves.{empties-IsBlank}
use bxroot.Table.Rounding.{IsLeastPow}
use bxroot.Table.{empties, index_of, free, view}
use bxroot.Table.Paths.{live-ne-empty}
use bxroot.Table.Moves.{slot_at-blank, view-blank}

abbrev seventh : FrKey
seventh = fd_key 7

abbrev owner : Record
owner = record {
  uid = 3;
  gid = 4;
  mode = 0;
  uid_faked = true;
  gid_faked = true;
  mode_faked = false;
}

abbrev table : RecordMap
table = (put_at (fresh 4) seventh owner (free (place 3 seventh 0))).1

table-IsValid : IsValid table
table-IsValid =
    let blank = empties-IsBlank 4 in
    (insert-Updated (fresh 4) (fresh-IsValid 2) seventh (place 3 seventh 0)
      (place-lt 3 4 seventh 0 refl) owner (rw (slot_at-blank (place 3 seventh 0) blank) refl)
      (view-blank seventh blank) (0, omega arith, refl, λ i lt. absurd (omega arith))).0

table-Aged : Aged table.slots
table-Aged =
    Ages-set (λ age. age < 2 ^ 64 - 1) (empties 4) (place 3 seventh 0) seventh owner 1 (omega arith)
      (λ j k r age e. absurd (live-ne-empty (sym e ∙ slot_at-blank j (empties-IsBlank 4))))

get-put_example :
    ((put true table seventh owner).0 ≡ ok tt)
    × ((get (put true table seventh owner).1 seventh).0 ≡ ok owner)
get-put_example = get-put table seventh owner table-IsValid table-Aged refl refl

put-Outcome_example :
    Outcome false table
      (path_key (47 ∷ 97 ∷ []))
      owner
      (put false table (path_key (47 ∷ 97 ∷ [])) owner)
put-Outcome_example =
    put-Outcome false table (path_key (47 ∷ 97 ∷ [])) owner table-IsValid table-Aged refl

get-answer_example :
    ((get table seventh).0 ≡ answer (view table.slots seventh))
    × Updated table seventh (view table.slots seventh) (get table seventh).1
get-answer_example = get-answer table table-IsValid seventh refl

remove-deletion_example :
    ((remove table seventh).0 ≡ deletion (view table.slots seventh))
    × Updated table seventh none (remove table seventh).1
remove-deletion_example = remove-deletion table table-IsValid seventh refl

compact-keeps_example :
    ((compact true table).0 ≡ ok tt)
    × IsValid (compact true table).1
    × ((compact true table).1.tomb_count ≡ 0)
    × ((compact true table).1.count ≡ table.count)
    × ((q : FrKey) → view (compact true table).1.slots q ≡ view table.slots q)
compact-keeps_example = compact-keeps table table-IsValid

evict_lru-Evicted_example : Evicted 1 table (evict_lru table 8)
evict_lru-Evicted_example = evict_lru-Evicted table 8 table-IsValid table-Aged

abbrev used_twice : RecordMap
used_twice = (remove (put true (fresh 4) seventh owner).1 seventh).1

Reached-invariants_example : IsValid used_twice × (check_invariants used_twice ≡ true)
unfolding create bxroot.Table.Rounding.round_pow2
Reached-invariants_example =
    Reached-invariants used_twice
      (after (after (at_first 4 (fresh 4) refl) (by_put true seventh owner)) (by_remove seventh))
