-- ===== src/Base/Int.antt =====
-- Signed integers over the native numbers, as the codes that C functions return and pack.
use Prim.Native.Nat.{ℕ, ◌-◌, ◌%◌, ◌^◌, ◌<◌}
use mathlib.Core.Path.{◌≡◌}
use mathlib.Core.Logic.{◌↔◌}
use native.Mathlib.Omega.{arith}
use magit.Base.Tests.{ltb, if◌then◌else◌}

-- `negsuc n` is -(n + 1).
pub data ℤ : Type 0 where
  pos : ℕ → ℤ
  negsuc : ℕ → ℤ

-- The conversion of an unsigned value to a 32-bit `int`.
unfoldable pub to_int : ℕ → ℤ
to_int v = if ltb (v % 2 ^ 32) (2 ^ 31) then pos (v % 2 ^ 32) else negsuc (2 ^ 32 - v % 2 ^ 32 - 1)

pub to_int_small : (v : ℕ) → v < 2 ^ 31 → to_int v ≡ pos v
unfolding to_int
to_int_small v h = ground arith

pub to_int_iff : (v : ℕ) → (to_int v ≡ pos v) ↔ (v < 2 ^ 31)
unfolding to_int
to_int_iff v = (λ h. ground arith, λ h. to_int_small v h)
