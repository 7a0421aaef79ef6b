-- ===== src/L2s/Count/Undo.antt =====
-- `l2s_prev_final` undoes `l2s_next_final`.
use bxroot.Prelude.{
  ℕ, ◌+◌, ◌<◌, ◌≡◌, refl, ◌++◌, none, some, Str, length, ◌==◌, if◌then◌else◌, ok, arith,
}
use bxroot.L2s.Name.Tail.{final_body}
use bxroot.L2s.Count.{next_final, prev_final}
use bxroot.L2s.Count.Laws.{Counted, count_of_built, count_step, length_same, next_final-Counted}

-- The same name with another count.
abbrev recounted :
    {name : Str} {n : ℕ} (c : Counted name n) (m : ℕ)
    → m < 10000
    → Counted (c.prefix ++ final_body c.orig c.gen m) m
recounted c m h = record {
  prefix = c.prefix;
  orig = c.orig;
  gen = c.gen;
  is_prefix = c.is_prefix;
  name_is = refl;
  orig_not_empty = c.orig_not_empty;
  orig_fits = c.orig_fits;
  gen_in = c.gen_in;
  count_in = h;
}

-- What `l2s_prev_final` answers at a final name, by its count.
prev_final-built :
    {name : Str} {n : ℕ} (c : Counted name n) (m outsz : ℕ)
    → m < 9999
    → length name < outsz
    → prev_final (some (c.prefix ++ final_body c.orig c.gen (m + 1))) (some outsz) ≡ (
        if m == 0
        then (ok none, some 0)
        else (ok (some (c.prefix ++ final_body c.orig c.gen m)), some m))
unfolding prev_final
prev_final-built {name} {n} c m outsz h fits =
    let step =
      count_step (recounted c (m + 1) (omega arith)) m outsz (omega arith)
        (omega (arith, fits, length_same c (m + 1))) in
    rw (count_of_built c (m + 1) (omega arith)) (ground (arith, step))

-- Where `l2s_next_final` returns a name, and writes within its arrays, `l2s_prev_final` with room gives
-- the old name back with its count; a count of 0 is not given back: there the answer is that no name is
-- left.
pub prev_final-next_final :
    (name : Str) (outsz outsz' : ℕ) {s : Str}
    → next_final (some name) (some outsz) ≡ some (ok s)
    → length name < outsz'
    → (n : ℕ) × Counted name n
      × (prev_final (some s) (some outsz')
          ≡ (if n == 0 then (ok none, some 0) else (ok (some name), some n)))
prev_final-next_final name outsz outsz' h fits =
    let (n, c, below, _, e) = next_final-Counted name outsz h in
    (n, c, rw (e, prev_final-built c n outsz' below fits, ← c.name_is))
