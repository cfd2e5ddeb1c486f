-- ===== src/Base/Int.antt =====
-- Go's signed integers: the values, the two's complement wrap of `int64`, the division that
-- truncates towards zero, and the `%d` verb of package fmt.
use Prim.Native.Nat.{ℕ, zero, suc, ◌+◌, ◌-◌, ◌*◌, ◌/◌, ◌%◌, ◌^◌}
use Prim.Native.String.{String, slice, ◌++◌}
use mathlib.Core.Path.{◌≡◌, refl}
use mathlib.Core.Logic.{◌↔◌}
use mathlib.Core.Bool.{Bool, true, false}
use native.Mathlib.Omega.{arith}
use steerd_presto_operator.Base.Tests.{ltb, eqb, if◌then◌else◌}

-- `negsuc n` is -(n + 1).
pub data ℤ : Type 0 where
  pos : ℕ → ℤ
  negsuc : ℕ → ℤ

infix 50 ◌==ℤ◌
abbrev pub ◌==ℤ◌ : ℤ → ℤ → Bool
pos a ==ℤ pos b = eqb a b
pos a ==ℤ negsuc b = false
negsuc a ==ℤ pos b = false
negsuc a ==ℤ negsuc b = eqb a b

pub ==ℤ_iff : (a b : ℤ) → ((a ==ℤ b) ≡ true) ↔ (a ≡ b)
==ℤ_iff a b = ground arith

-- The value of an `int64` whose bit pattern is `n`, and the bit pattern of a value.
abbrev pub int64_of_bits : ℕ → ℤ
int64_of_bits n = if ltb n (2 ^ 63) then pos n else negsuc (2 ^ 64 - 1 - n)

abbrev pub bits64 : ℤ → ℕ
bits64 (pos n) = n % 2 ^ 64
bits64 (negsuc n) = 2 ^ 64 - 1 - n % 2 ^ 64

unfoldable pub add64 : ℤ → ℤ → ℤ
add64 a b = int64_of_bits ((bits64 a + bits64 b) % 2 ^ 64)

unfoldable pub mul64 : ℤ → ℤ → ℤ
mul64 a b = int64_of_bits ((bits64 a * bits64 b) % 2 ^ 64)

-- `a / b` for `b ≠ 0`. The quotient -2^63 / -1 wraps to itself.
abbrev neg_or_zero : ℕ → ℤ
neg_or_zero zero = pos 0
neg_or_zero (suc n) = negsuc n

unfoldable pub div64 : ℤ → ℤ → ℤ
div64 (pos a) (pos b) = pos (a / b)
div64 (pos a) (negsuc b) = neg_or_zero (a / suc b)
div64 (negsuc a) (pos b) = neg_or_zero (suc a / b)
div64 (negsuc a) (negsuc b) = int64_of_bits ((suc a / suc b) % 2 ^ 64)

digit : ℕ → String
digit d = slice "0123456789" d (d + 1)

decimal_onto : ℕ → ℕ → String → String
decimal_onto zero n acc = acc
decimal_onto (suc fuel) n acc =
    let more = decimal_onto fuel (n / 10) (digit (n % 10) ++ acc) in
    if ltb n 10 then digit n ++ acc else more

-- The decimal digits of a number. A number has fewer digits than its value plus one.
unfoldable pub decimal : ℕ → String
unfolding decimal_onto digit
decimal n = decimal_onto (suc n) n ""

-- `fmt.Sprintf("%d", a)`
unfoldable pub format_int : ℤ → String
unfolding decimal
format_int (pos n) = decimal n
format_int (negsuc n) = "-" ++ decimal (suc n)

format_int_examples :
    (format_int (pos 8080) ≡ "8080") × (format_int (negsuc 0) ≡ "-1") × (format_int (pos 0) ≡ "0")
unfolding format_int
format_int_examples = (refl, refl, refl)
