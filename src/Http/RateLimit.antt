-- ===== src/Http/RateLimit.antt =====
-- The rateLimiter of httpapi/middleware.go. The lock is held for the whole of `allow`.
pub mod Bound
use kingsway_academy.Base.{
  ℕ, ◌+◌, ◌*◌, suc, String, Bool, true, false, not, ◌||◌, List, [], ◌∷◌, if◌then◌else◌, leb, ltb,
  length,
}
use kingsway_academy.Base.Int.{ℤ, pos, leb_ℤ, pos_part, ◌-ℤ◌}
use kingsway_academy.Map.{Map, lookup, insert, get_or, delete_where}
use kingsway_academy.Domain.{Time, is_zero, before, after}

-- rateWindow
pub record RateWindow : Type 0 where
  pub count : ℕ
  pub reset : Time

-- One minute, in nanoseconds
abbrev pub minute : Time
minute = 60 * 1000000000

-- The window that counts a request at `now`: the stored one, or a new one where there is none or
-- the stored one is over.
unfoldable pub current_window : Time → RateWindow → RateWindow
current_window now window =
    if is_zero window.reset || not (before now window.reset)
    then record { count = 0; reset = now + minute }
    else window

-- The windows after a request is counted: where there are more than 1000, those that are over go.
unfoldable pub store_window : Time → String → RateWindow → Map RateWindow → Map RateWindow
store_window now key window windows =
    let stored = insert key window windows in
    if ltb 1000 (length stored) then delete_where (λ w. after now w.reset) stored else stored

-- allow; `later` is the clock when the time to the reset is computed
unfoldable pub allow : ℤ → Time → Time → String → Map RateWindow → (Bool × ℤ) × Map RateWindow
unfolding current_window store_window
allow limit now later key windows =
    let window = current_window now (get_or key windows (record { count = 0; reset = 0 })) in
    if leb_ℤ limit (pos 0)
    then ((true, pos 0), windows)
    else if leb_ℤ limit (pos window.count)
    then ((false, pos window.reset -ℤ pos later), windows)
    else (
      (true, pos 0),
      store_window now key (record { count = suc window.count; reset = window.reset }) windows,
    )
