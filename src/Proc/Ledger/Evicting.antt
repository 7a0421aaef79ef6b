-- ===== src/Proc/Ledger/Evicting.antt =====
-- proc.c: `px_ledger_evict` on a well-formed ledger.
use bxroot.Prelude.{
  ℕ, zero, suc, ◌+◌, ◌<◌, ◌≡◌, refl, ◌∙◌, ◌⊎◌, inl, inr, Bool, true, false, ◌&&◌, Option, none,
  some, List, [], ◌∷◌, Bool-cases, arith,
}
use bxroot.Proc.Kill.{Life, reaped}
use bxroot.Proc.Ledger.Types.{EntryKey, Entry, entry_key, same_entry, same_entry_iff}
use bxroot.Proc.Ledger.Ops.{
  EntrySlot, Table, is_reaped, is_older, oldest_reaped, bury, evict_one, evict,
}
use bxroot.Proc.Ledger.Valid.{IsValid, bury-Updated, read_at}
use bxroot.Table.{empty, tomb, live, slot_at, view}
use bxroot.Table.Slots.{live_lt, lives-set}

-- An entry that is there, of a reaped process.
abbrev pub IsReaped : Option Entry → Type 0
IsReaped o = (e : Entry) × (o ≡ some e) × (e.life ≡ reaped)

-- What a ledger may forget: each process has its entry still, or has none and was reaped.
abbrev pub Forgets : Table → Table → Type 0
Forgets l l' =
    (q : EntryKey)
    → (view l'.slots q ≡ view l.slots q) ⊎ ((view l'.slots q ≡ none) × IsReaped (view l.slots q))

pub nothing_forgotten :
    (l l' : Table) → ((q : EntryKey) → view l'.slots q ≡ view l.slots q) → Forgets l l'
nothing_forgotten l l' same q = inl (same q)

not_there : {o : Option Entry} → o ≡ none → IsReaped o → ⊥
not_there h (e, here, dead) = cc

-- Forgetting twice is forgetting.
pub forget_both : (l l' l'' : Table) → Forgets l l' → Forgets l' l'' → Forgets l l''
forget_both l l' l'' first second q = elim (second q) [
  | inl e ↦ elim (first q) [ inl e' ↦ inl (e ∙ e') | inr (gone, was) ↦ inr (e ∙ gone, was) ]
  | inr (gone, was) ↦ elim (first q) [
    | inl e' ↦ inr (gone, rw e' at was)
    | inr (gone', was') ↦ absurd (not_there gone' was)
  ]
]

-- What the scan finds from index `i` on: a reaped entry, or what it had before.
data Found (slots : List EntrySlot) (i : ℕ) (best : Option (ℕ × ℕ)) : Option (ℕ × ℕ) → Type 0 where
  at_slot :
      (j x : ℕ) (k : EntryKey) (e : Entry) (age : ℕ)
      → j ≡ x + i
      → slot_at slots x ≡ live k e age
      → e.life ≡ reaped
      → Found slots i best (some (j, age))
  at_best : Found slots i best best

is_reaped_lem : (x : Life) → is_reaped x ≡ true → x ≡ reaped
is_reaped_lem Life.live h = cc
is_reaped_lem reaped h = refl

Found-next :
    (s : EntrySlot) (slots : List EntrySlot) (i : ℕ) (best o : Option (ℕ × ℕ))
    → Found slots (suc i) best o
    → Found (s ∷ slots) i best o
Found-next s slots i best _ (at_slot j x k e age at_j here dead) =
    at_slot j (suc x) k e age (omega arith) here dead
Found-next s slots i best _ at_best = at_best

Found-better :
    (k : EntryKey) (e : Entry) (age : ℕ) (slots : List EntrySlot) (i : ℕ) (best o : Option (ℕ × ℕ))
    → e.life ≡ reaped
    → Found slots (suc i) (some (i, age)) o
    → Found (live k e age ∷ slots) i best o
Found-better k e age slots i best _ dead (at_slot j x k' e' age' at_j here dead') =
    at_slot j (suc x) k' e' age' (omega arith) here dead'
Found-better k e age slots i best _ dead at_best = at_slot i 0 k e age (omega arith) refl dead

left_of_and : (a b : Bool) → (a && b) ≡ true → a ≡ true
left_of_and true b h = refl
left_of_and false b h = h

oldest_reaped-Found :
    (slots : List EntrySlot) (i : ℕ) (best : Option (ℕ × ℕ))
    → Found slots i best (oldest_reaped slots i best)
unfolding oldest_reaped
oldest_reaped-Found [] i best = at_best
oldest_reaped-Found (empty ∷ slots) i best =
    Found-next empty slots i best _ (oldest_reaped-Found slots (suc i) best)
oldest_reaped-Found (tomb ∷ slots) i best =
    Found-next tomb slots i best _ (oldest_reaped-Found slots (suc i) best)
oldest_reaped-Found (live k e age ∷ slots) i best =
    elim (Bool-cases (is_reaped e.life && is_older age best)) [
      | inl h ↦ simp h (
          Found-better k e age slots i best _
            (is_reaped_lem e.life (left_of_and (is_reaped e.life) _ h))
            (oldest_reaped-Found slots (suc i) (some (i, age))))
      | inr h ↦
          simp h (Found-next (live k e age) slots i best _ (oldest_reaped-Found slots (suc i) best))
    ]

abbrev pub Evicted : Table → ℕ × Table → Type 0
Evicted l result =
    IsValid result.1
    × Forgets l result.1
    × (result.1.count + result.0 ≡ l.count)
    × (result.1.cap ≡ l.cap)

evict_one-Evicted :
    (l : Table) (o : Option (ℕ × ℕ)) (next : Table → ℕ × Table)
    → IsValid l
    → ((l' : Table) → IsValid l' → Evicted l' (next l'))
    → Found l.slots 0 none o
    → Evicted l (evict_one o l next)
evict_one-Evicted l _ next valid rest (at_slot j x k e age at_j here dead) =
    let same : x ≡ j = omega arith in
    let found : slot_at l.slots j ≡ live k e age = rw same at here in
    let in_list = live_lt l.slots j (rw found refl) in
    let lt : j < l.cap = omega (arith, valid.placed.width) in
    let (valid', reads) = bury-Updated l valid k j lt e age found in
    let (valid'', forgets, fewer, cap_same) = rest (bury l j) valid' in
    (
      valid'',
      forget_both l (bury l j) (next (bury l j)).1
          (λ q. elim (Bool-cases (same_entry k q)) [
            | inl is_k ↦
                let seen = read_at l valid k j lt e age found in
                inr (rw is_k at (reads q), (e, (rw ((same_entry_iff k q).0 is_k) at seen), dead))
            | inr other ↦ inl (rw other at (reads q))
          ])
          forgets,
      omega (arith, fewer, rw found at (lives-set l.slots j tomb in_list), valid.counted),
      cap_same,
    )
evict_one-Evicted l _ next valid rest at_best = (valid, (λ q. inl refl), omega arith, refl)

-- `px_ledger_evict` takes away entries of reaped processes only, and the ledger stays well-formed.
pub evict-Evicted : (n : ℕ) (l : Table) → IsValid l → Evicted l (evict l n)
unfolding evict
evict-Evicted zero l valid = (valid, (λ q. inl refl), omega arith, refl)
evict-Evicted (suc n) l valid =
    evict_one-Evicted l _ (λ l'. evict l' n) valid (λ l' v. evict-Evicted n l' v)
      (oldest_reaped-Found l.slots 0 none)
