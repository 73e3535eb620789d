-- ===== src/Base/Word.antt =====
-- Go's int and int64 on a 64-bit machine: an integer is brought back into range after each
-- operation, and division truncates toward zero.
use kingsway_academy.Base.Tests.{if◌then◌else◌}
use Prim.Native.Nat.{ℕ, suc, ◌+◌, ◌-◌, ◌/◌, ◌%◌, ◌^◌}
use mathlib.Core.Bool.{Bool, true, false, xor}
use mathlib.Core.Logic.{◌≢◌}
use native.Mathlib.Omega.{arith}
use kingsway_academy.Base.Int.{ℤ, pos, negsuc, pos_part, neg_part, sub_ℕ, ◌+ℤ◌, ◌-ℤ◌, ◌*ℤ◌}

abbrev pub half_word : ℕ
half_word = 2 ^ 63

abbrev pub word : ℕ
word = 2 ^ 64

-- The value of the low 64 bits, read in two's complement.
unfoldable pub wrap64 : ℤ → ℤ
wrap64 z = sub_ℕ ((pos_part z % word + (word - neg_part z % word) + half_word) % word) half_word

abbrev magnitude : ℤ → ℕ
magnitude (pos n) = n
magnitude (negsuc n) = suc n

abbrev is_negative : ℤ → Bool
is_negative (pos n) = false
is_negative (negsuc n) = true

-- The quotient of two integers, truncated toward zero.
unfoldable pub quot_ℤ : ℤ → ℤ → ℤ
quot_ℤ a b =
    let q = magnitude a / magnitude b in
    if xor (is_negative a) (is_negative b) then sub_ℕ 0 q else pos q

unfoldable pub add64 : ℤ → ℤ → ℤ
add64 a b = wrap64 (a +ℤ b)

unfoldable pub sub64 : ℤ → ℤ → ℤ
sub64 a b = wrap64 (a -ℤ b)

unfoldable pub mul64 : ℤ → ℤ → ℤ
mul64 a b = wrap64 (a *ℤ b)

unfoldable pub div64 : ℤ → ℤ → ℤ
div64 a b = wrap64 (quot_ℤ a b)

-- One more is another integer, also where it wraps around.
pub add64_moves : (a : ℤ) → add64 a (pos 1) ≢ a
unfolding add64 wrap64 ◌+ℤ◌
add64_moves (pos n) h = ground arith
add64_moves (negsuc n) h = ground arith
