-- ===== src/Fakeroot/Normalize/Tests.antt =====
-- The path under which a file is recorded, on examples.
use bxroot.Prelude.{◌≡◌, refl, ◌⊎◌, true, false, some, [], ◌∷◌, Str, codes, ok, arith}
use bxroot.Fakeroot.Normalize.{normalize, ends_in_slash}
use bxroot.Fakeroot.Normalize.Laws.{no_double, is_absolute}
use bxroot.Fakeroot.Normalize.Names.{parts, names}
use bxroot.Fakeroot.Normalize.Fits.{normalize-tidy}

abbrev messy : Str
messy = codes "/a//./b/"

normalize-messy : normalize (some messy) 16 ≡ ok (codes "/a/b")
unfolding normalize
normalize-messy = refl

normalize-dot : normalize (some (codes "./")) 16 ≡ ok []
unfolding normalize
normalize-dot = refl

normalize-tidy_example :
    (out : Str) × (normalize (some messy) 16 ≡ ok out)
    × (parts out ≡ names messy)
    × (no_double out ≡ true)
    × ((ends_in_slash out ≡ false) ⊎ (out ≡ (b'/' ∷ [])))
    × (is_absolute out ≡ is_absolute messy)
normalize-tidy_example = normalize-tidy messy 16 (omega arith)
