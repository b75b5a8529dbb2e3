-- ===== src/Common/Integers.antt =====
-- Integers over the native numbers, and int32 in them.
use Prim.Native.Nat.{ℕ, zero, suc, ◌-◌, ◌/◌, ◌%◌, ◌^◌}
use mathlib.Core.Bool.{Bool, true, false}
use argocd_vee.Common.Tests.{ltb, if◌then◌else◌}

pub data ℤ : Type 0 where
  pos : ℕ → ℤ
  negsuc : ℕ → ℤ

abbrev pub int_ltb : ℤ → ℤ → Bool
int_ltb (pos a) (pos b) = ltb a b
int_ltb (pos a) (negsuc b) = false
int_ltb (negsuc a) (pos b) = true
int_ltb (negsuc a) (negsuc b) = ltb b a

abbrev pub neg : ℕ → ℤ
neg zero = pos 0
neg (suc n) = negsuc n

-- The quotient of two int32 in Go, cut off towards zero; the divisor is not 0.
abbrev pub quot : ℤ → ℤ → ℤ
quot (pos a) (pos b) = pos (a / b)
quot (pos a) (negsuc b) = neg (a / suc b)
quot (negsuc a) (pos b) = neg (suc a / b)
quot (negsuc a) (negsuc b) = pos (suc a / suc b)

-- `int32(n)` of a length: the low 32 bits, read with their sign.
abbrev pub wrap : ℕ → ℤ
wrap m = if ltb m (2 ^ 31) then pos m else negsuc ((2 ^ 32 - m) - 1)

abbrev pub to_int32 : ℕ → ℤ
to_int32 n = wrap (n % (2 ^ 32))
