-- ===== src/Preload/Guard/Laws.antt =====
-- preload.c: which bind decides whether a path may be written.
use bxroot.Prelude.{
  ℕ, ◌≡◌, true, false, Option, none, some, ◌++◌, Str, length, drop, Result, ok, fail,
}
use bxroot.Preload.Config.{Bind, Config, World, printed}
use bxroot.Preload.Binds.Matching.{IsAmong, IsBest}
use bxroot.Preload.Translate.{or_failed, translate_path}
use bxroot.Preload.Guard.{is_readonly, erofs}

-- Where the path leads: with the target of the bind replaced by its source.
abbrev pub Through : Config → World → Str → ℕ → Option Bind → Type 0
Through cfg w path size none = Unit
Through cfg w path size (some b) =
    translate_path cfg w path size
    ≡ or_failed (printed size (b.source ++ drop (length b.target) path))

-- The bind whose target is the longest above the path, through which the path leads, may only be read;
-- or, where there is none or that bind may be written, the write goes on.
abbrev pub Decides : Config → World → Str → ℕ → Result ℕ (Unit {0}) → Type 0
Decides cfg w path size (fail code) =
    (code ≡ erofs)
    × ((b : Bind) × IsBest path (λ c. IsAmong c cfg.binds) (some b)
        × (b.readonly ≡ true)
        × Through cfg w path size (some b))
Decides cfg w path size (ok done) =
    (b : Option Bind) × IsBest path (λ c. IsAmong c cfg.binds) b
    × (is_readonly b ≡ false)
    × Through cfg w path size b
