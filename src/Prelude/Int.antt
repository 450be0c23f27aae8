-- ===== src/Prelude/Int.antt =====
-- A signed 64-bit integer as a number with a sign, its conversion from a bit pattern, and its
-- order, over the native numbers.
use Prim.Native.Nat.{ℕ, ◌-◌, ◌<◌, ◌^◌}
use mathlib.Core.Path.{◌≡◌}
use mathlib.Core.Bool.{Bool, true, false}
use native.Mathlib.Omega.{arith}
use native.Mathlib.Decide.{ℕ_discrete}
use mathlib.Core.HLevel.{hedberg}
use p2p_tests.Prelude.Tests.{ltb, leb, if◌then◌else◌}

-- `negsuc n` is -(n + 1).
pub data ℤ : Type 0 where
  pos : ℕ → ℤ
  negsuc : ℕ → ℤ

pub ℤ-discrete : Discrete ℤ
ℤ-discrete = hlevel ℕ_discrete

pub ℤ-set : IsSet ℤ
ℤ-set = hedberg ℤ-discrete

-- int(w) for a uint64 w: the bits are read in two's complement.
unfoldable pub to_int : ℕ → ℤ
to_int w = if ltb w (2 ^ 63) then pos w else negsuc (2 ^ 64 - w - 1)

-- The bit pattern of an int.
unfoldable pub to_bits : ℤ → ℕ
to_bits (pos n) = n
to_bits (negsuc n) = 2 ^ 64 - n - 1

pub to_bits-to_int : (w : ℕ) → w < 2 ^ 64 → to_bits (to_int w) ≡ w
unfolding to_int to_bits
to_bits-to_int w h = ground arith

abbrev pub leb_ℤ : ℤ → ℤ → Bool
leb_ℤ (pos a) (pos b) = leb a b
leb_ℤ (pos a) (negsuc b) = false
leb_ℤ (negsuc a) (pos b) = true
leb_ℤ (negsuc a) (negsuc b) = leb b a
