-- ===== src/Prelude/Int.antt =====
-- Go's signed integers, over the native numbers, and their conversions.
use Prim.Native.Nat.{ℕ, suc, ◌+◌, ◌-◌, ◌*◌, ◌/◌, ◌%◌, ◌^◌}
use mathlib.Core.Bool.{Bool, true, false}
use mathlib.Core.Path.{◌≡◌}
use native.Mathlib.Omega.{arith}
use chirpstack_gateway_bridg.Prelude.Tests.{ltb, leb, ◌==◌, if◌then◌else◌}

-- `negsuc n` is -(n + 1).
pub data ℤ : Type 0 where
  pos : ℕ → ℤ
  negsuc : ℕ → ℤ

-- The integer -n.
abbrev pub negate : ℕ → ℤ
negate n = if ltb 0 n then negsuc (n - 1) else pos 0

-- `a / n` at a positive constant n: Go rounds towards zero.
abbrev pub quotient : ℤ → ℕ → ℤ
quotient (pos a) n = pos (a / n)
quotient (negsuc a) n = negate (suc a / n)

-- `uint32(a)`, `uint64(a)`: the residue modulo 2 ^ w.
abbrev pub wrap : ℕ → ℤ → ℕ
wrap w (pos a) = a % 2 ^ w
wrap w (negsuc a) = 2 ^ w - suc (a % 2 ^ w)

-- `int64` of a bit pattern.
abbrev pub int64 : ℕ → ℤ
int64 a = if ltb a (2 ^ 63) then pos a else negsuc (2 ^ 64 - a - 1)

-- `a * n` on `int64`, which wraps.
abbrev pub mul_int64 : ℤ → ℕ → ℤ
mul_int64 a n = int64 (wrap 64 a * n % 2 ^ 64)

abbrev pub is_zero_ℤ : ℤ → Bool
is_zero_ℤ (pos n) = n == 0
is_zero_ℤ (negsuc n) = false

-- `int(a) - int(b)` of two numbers.
abbrev pub int_sub : ℕ → ℕ → ℤ
int_sub a b = if ltb a b then negsuc (b - a - 1) else pos (a - b)

-- Their sum, which is below 0 where the second term is.
abbrev pub add_int : ℤ → ℕ → ℤ
add_int (pos a) b = pos (a + b)
add_int (negsuc a) b = int_sub b (suc a)

pub add_int-int_sub : (a b : ℕ) → add_int (int_sub a b) b ≡ pos a
add_int-int_sub a b = ground arith

-- `int(a) - z`
abbrev pub sub_from : ℕ → ℤ → ℤ
sub_from a (pos b) = int_sub a b
sub_from a (negsuc b) = pos (a + suc b)

abbrev pub add_ℤ : ℤ → ℤ → ℤ
add_ℤ x (pos b) = add_int x b
add_ℤ (pos a) (negsuc b) = int_sub a (suc b)
add_ℤ (negsuc a) (negsuc b) = negsuc (a + suc b)

abbrev pub sub_int : ℤ → ℕ → ℤ
sub_int (pos a) b = int_sub a b
sub_int (negsuc a) b = negsuc (a + b)

abbrev pub leb_ℤ : ℤ → ℤ → Bool
leb_ℤ (pos a) (pos b) = leb a b
leb_ℤ (pos a) (negsuc b) = false
leb_ℤ (negsuc a) (pos b) = true
leb_ℤ (negsuc a) (negsuc b) = leb b a

pub add_ℤ-sub_from : (a : ℕ) (z : ℤ) → add_ℤ (sub_from a z) z ≡ pos a
add_ℤ-sub_from a (pos b) = add_int-int_sub a b
add_ℤ-sub_from a (negsuc b) = ground arith
