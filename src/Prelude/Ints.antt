-- ===== src/Prelude/Ints.antt =====
-- Signed numbers over the native ones, as C's `int` and `pid_t` hold them.
use Prim.Native.Nat.{ℕ, zero, suc}
use mathlib.Core.Path.{◌≡◌}
use mathlib.Core.Logic.{◌↔◌}
use mathlib.Core.Bool.{Bool, true, false}
use native.Mathlib.Omega.{arith}
use bxroot.Prelude.Tests.{◌==◌}

-- `negsuc n` is -(n + 1).
pub data ℤ : Type 0 where
  pos negsuc : ℕ → ℤ

abbrev pub negative : ℕ → ℤ
negative zero = pos 0
negative (suc n) = negsuc n

-- `i > 0`
abbrev pub is_positive : ℤ → Bool
is_positive (pos zero) = false
is_positive (pos (suc n)) = true
is_positive (negsuc n) = false

-- `i == n` for a number that is not negative.
abbrev pub int_is : ℤ → ℕ → Bool
int_is (pos m) n = m == n
int_is (negsuc m) n = false

pub int_is_iff : (i : ℤ) (n : ℕ) → (int_is i n ≡ true) ↔ (i ≡ pos n)
int_is_iff (pos m) n = ground arith
int_is_iff (negsuc m) n = ground arith
