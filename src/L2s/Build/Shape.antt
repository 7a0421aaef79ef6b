-- ===== src/L2s/Build/Shape.antt =====
-- What `l2s_make_paths_ex` builds, and within which bounds.
use bxroot.Prelude.{
  ℕ, ◌+◌, ◌<◌, ◌≤◌, ◌≡◌, refl, ◌∷◌, ◌++◌, Option, none, some, Str, length, ok, ◌>>=◌, >>=-eq-ok,
  arith, length-append,
}
use bxroot.L2s.Types.{
  name_max, path_max, gen_first, gen_last, nlink_max, Config, cfg_prefix, cfg_l2s_dir,
}
use bxroot.L2s.Path.{split}
use bxroot.L2s.Path.Laws.{joined, join-joined}
use bxroot.L2s.Format.Fixed.{field, format_fixed-field}
use bxroot.L2s.Build.{
  Built, head_in, make_head, make_names, name_strings, named_by, check_numbers, make_strings,
}

-- The directory that holds the artifacts of an original in `dir`.
abbrev holder_of : Option Str → Str → Str
holder_of none dir = dir
holder_of (some d) dir = d

abbrev pub holder : Option Config → Str → Str
holder cfg dir = holder_of (cfg_l2s_dir cfg) dir

head_in-joined :
    (dir_option : Option Str) (prefix dir base : Str) {head : Str}
    → head_in dir_option prefix dir base ≡ ok head
    → head ≡ joined (holder_of dir_option dir) prefix
head_in-joined none prefix dir base {head} h =
    ground (arith, join-joined dir prefix path_max {p = head})
head_in-joined (some d) prefix dir base {head} h =
    ground (arith, join-joined d prefix path_max {p = head})

pub make_head-joined :
    (cfg : Option Config) (dir base : Str) {head : Str}
    → make_head cfg dir base ≡ ok head
    → head ≡ joined (holder cfg dir) (cfg_prefix cfg)
unfolding make_head
make_head-joined cfg dir base h = head_in-joined (cfg_l2s_dir cfg) (cfg_prefix cfg) dir base h

-- The strings, where the function returns them.
pub record Shape (cfg : Option Config) (orig : Str) (gen nlink : ℕ) (b : Built) : Type 0 where
  pub split_is : split (some orig) (some path_max) (some name_max) ≡ ok (b.dir, b.base)
  pub head : Str
  pub head_is : make_head cfg b.dir b.base ≡ ok head
  pub head_text : head ≡ joined (holder cfg b.dir) (cfg_prefix cfg)
  pub mid_is : b.mid ≡ head ++ (b.base ++ field gen)
  pub final_is : b.final_path ≡ b.mid ++ (b'.' ∷ field nlink)
  pub gen_in : (gen_first ≤ gen) × (gen ≤ gen_last)
  pub nlink_in : (1 ≤ nlink) × (nlink ≤ nlink_max)
  pub name_fits : length b.base + length (cfg_prefix cfg) + 9 < name_max
  pub path_fits : length b.final_path < path_max

make_names-shape :
    (cfg : Option Config) (gen nlink : ℕ) (dir base head : Str) {b : Built}
    → nlink ≤ nlink_max
    → make_names cfg nlink dir base (field gen) head ≡ ok b
    → (b ≡ record {
      dir = dir;
      base = base;
      mid = head ++ (base ++ field gen);
      final_path = (head ++ (base ++ field gen)) ++ (b'.' ∷ field nlink);
    })
      × (length base + length (cfg_prefix cfg) + 9 < name_max)
      × (length head + length base + 9 < path_max)
unfolding make_names
make_names-shape cfg gen nlink dir base head n h = ground (
  arith,
  rw (format_fixed-field nlink 5 (omega arith) (omega arith)) at h,
  length-append head (base ++ field gen),
  length-append base (field gen),
)

check_numbers_lem :
    (gen nlink : ℕ)
    → check_numbers gen nlink ≡ ok tt
    → ((gen_first ≤ gen) × (gen ≤ gen_last)) × ((1 ≤ nlink) × (nlink ≤ nlink_max))
unfolding check_numbers
check_numbers_lem gen nlink h = ground arith

name_strings-head :
    (cfg : Option Config) (gen nlink : ℕ) (dir base : Str) {b : Built}
    → gen ≤ gen_last
    → name_strings cfg gen nlink dir base ≡ ok b
    → (head : Str) × (make_head cfg dir base ≡ ok head)
      × (make_names cfg nlink dir base (field gen) head ≡ ok b)
unfolding name_strings
name_strings-head cfg gen nlink dir base g h =
    >>=-eq-ok (make_head cfg dir base) (make_names cfg nlink dir base (field gen))
      (rw (format_fixed-field gen 5 (omega arith) (omega arith)) at h)

-- Whatever `l2s_make_paths_ex` returns has generation and count in range, and directory and base from the
-- split; its intermediate path is the holder directory with a separator, the prefix, the base and the
-- generation, its final path that with a dot and the count, and both fit the limits.
pub make_strings-Shape :
    (cfg : Option Config) (orig : Str) (gen nlink : ℕ) {b : Built}
    → make_strings cfg (some orig) gen nlink ≡ ok b
    → Shape cfg orig gen nlink b
unfolding make_strings
make_strings-Shape cfg orig gen nlink {b} h =
    let (u, checked, h1) =
      >>=-eq-ok (check_numbers gen nlink)
        (λ _. split (some orig) (some path_max) (some name_max) >>= named_by cfg gen nlink) h in
    let ((dir, base), cut, h2) =
      >>=-eq-ok (split (some orig) (some path_max) (some name_max)) (named_by cfg gen nlink) h1 in
    let (g, n) = check_numbers_lem gen nlink checked in
    let (head, head_is, names) = name_strings-head cfg gen nlink dir base g.1 h2 in
    let (e, name_fits, path_fits) = make_names-shape cfg gen nlink dir base head n.1 names in
    rw e (record {
      split_is = cut;
      head = head;
      head_is = head_is;
      head_text = make_head-joined cfg dir base head_is;
      mid_is = refl;
      final_is = refl;
      gen_in = g;
      nlink_in = n;
      name_fits = name_fits;
      path_fits = omega (
        arith,
        path_fits,
        length-append (head ++ (base ++ field gen)) (b'.' ∷ field nlink),
        length-append head (base ++ field gen),
        length-append base (field gen),
      );
    })
