-- ===== src/Domain/Swap.antt =====
-- What CalculateSwapAllocation pays out.
use kingsway_academy.Base.{ℕ, ap, ◌∙◌, ◌-◌, ◌+◌, ◌*◌, ◌/◌, ◌≤◌, ◌<◌, ◌≡◌, arith}
use mathlib.Core.Bool.{xor}
use kingsway_academy.Base.Int.{pos, ◌+ℤ◌, ◌*ℤ◌, ◌-ℤ◌}
use kingsway_academy.Base.Word.{add64, half_word, wrap64, sub64, mul64, div64, quot_ℤ}
use kingsway_academy.Domain.Salary.{calculate_swap_allocation}

wrap64_small : (n : ℕ) → n < half_word → wrap64 (pos n) ≡ pos n
unfolding wrap64
wrap64_small n h = ground arith

mul64_small : (a b : ℕ) → a * b < half_word → mul64 (pos a) (pos b) ≡ pos (a * b)
unfolding mul64 ◌*ℤ◌
mul64_small a b h = ap wrap64 (ground arith) ∙ wrap64_small (a * b) h

add64_small : (a b : ℕ) → a + b < half_word → add64 (pos a) (pos b) ≡ pos (a + b)
unfolding add64 ◌+ℤ◌
add64_small a b h = ap wrap64 (ground arith) ∙ wrap64_small (a + b) h

sub64_small : (a b : ℕ) → b ≤ a → a < half_word → sub64 (pos a) (pos b) ≡ pos (a - b)
unfolding sub64 ◌-ℤ◌
sub64_small a b h k = ap wrap64 (ground arith) ∙ wrap64_small (a - b) (omega arith)

div64_small : (a b : ℕ) → a < half_word → div64 (pos a) (pos b) ≡ pos (a / b)
unfolding div64 quot_ℤ xor
div64_small a b h = wrap64_small (a / b) (omega arith)

-- The share of `d` days out of `d + e`, rounded down.
abbrev pub share : ℕ → ℕ → ℕ → ℕ
share total d e = total * d / (d + e)

share-le : (total d e : ℕ) → 0 < d + e → share total d e ≤ total
share-le total d e p = grind arith

-- A positive amount and two numbers of days from zero up, whose sum is positive, where the amount, that
-- sum and the product of the amount and the first teacher's days fit an int64: the first share is the
-- amount times the first teacher's days, divided by all days and rounded down, the second is the rest,
-- and the first does not exceed the amount.
pub swap_shares :
    (total d e : ℕ)
    → 0 < total
    → 0 < d + e
    → d + e < half_word
    → total < half_word
    → total * d < half_word
    → (calculate_swap_allocation (pos total) (pos d) (pos e)
        ≡ (pos (share total d e), pos (total - share total d e)))
      × (share total d e ≤ total)
unfolding calculate_swap_allocation
swap_shares total d e p q small_days small_total small_product = (
  rw
      (
        add64_small d e small_days,
        mul64_small total d small_product,
        div64_small (total * d) (d + e) small_product,
        sub64_small total (share total d e) (share-le total d e q) small_total,
      )
      (ground arith),
  share-le total d e q,
)
