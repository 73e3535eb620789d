-- ===== src/Http/Tests.antt =====
-- The bound on the rate limiter at a window that has counted one request of two.
use kingsway_academy.Base.{◌+◌, ◌≤◌, refl, arith, List, [], ◌∷◌}
use kingsway_academy.Base.Int.{pos}
use kingsway_academy.Map.{Map, lookup}
use kingsway_academy.Http.RateLimit.{RateWindow}
use kingsway_academy.Http.RateLimit.Bound.{Request, passed, passed_bound, bound_from_start}

abbrev windows : Map RateWindow
windows = ("k", record { count = 1; reset = 100 }) ∷ []

abbrev requests : List Request
requests =
    record { now = 5; later = 6; key = "k" }
    ∷ record { now = 7; later = 8; key = "other" }
    ∷ record { now = 9; later = 10; key = "k" }
    ∷ []

abbrev later_requests : List Request
later_requests =
    record { now = 100; later = 101; key = "k" } ∷ record { now = 200; later = 201; key = "k" } ∷ []

passed_bound_example : passed (pos 2) "k" requests windows + 1 ≤ 2
unfolding lookup
passed_bound_example =
    passed_bound (pos 2) "k" requests windows (record { count = 1; reset = 100 }) refl refl
      (omega arith) (omega arith, (omega arith, (omega arith, tt)))

-- The window of the key is over when the first request comes.
bound_from_start_example :
    passed (pos 1) "k" (record { now = 100; later = 101; key = "k" } ∷ later_requests) windows ≤ 1
unfolding lookup
bound_from_start_example =
    bound_from_start (pos 1) (record { now = 100; later = 101; key = "k" }) later_requests windows
      refl (λ w found. ground arith) (omega arith, (omega arith, tt))
