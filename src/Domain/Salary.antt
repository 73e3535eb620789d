-- ===== src/Domain/Salary.antt =====
-- salary.go: the shares of two teachers in one amount.
use kingsway_academy.Base.{◌||◌, if◌then◌else◌}
use kingsway_academy.Base.Int.{ℤ, pos, leb_ℤ}
use kingsway_academy.Base.Word.{add64, sub64, mul64, div64}

-- CalculateSwapAllocation
unfoldable pub calculate_swap_allocation : ℤ → ℤ → ℤ → ℤ × ℤ
calculate_swap_allocation total_amount_cents first_teacher_days second_teacher_days =
    let total_days = add64 first_teacher_days second_teacher_days in
    let first = div64 (mul64 total_amount_cents first_teacher_days) total_days in
    if leb_ℤ total_amount_cents (pos 0) || leb_ℤ total_days (pos 0)
    then (pos 0, pos 0)
    else (first, sub64 total_amount_cents first)
