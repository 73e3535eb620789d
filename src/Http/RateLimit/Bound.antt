-- ===== src/Http/RateLimit/Bound.antt =====
-- How many requests the rate limiter lets through.
use kingsway_academy.Base.{
  ℕ, ◌+◌, ◌≤◌, ◌<◌, suc, String, ◌≡◌, ◌⊎◌, refl, sym, ◌∙◌, ap, true, false, List, [], ◌∷◌,
  if◌then◌else◌, ltb, length, some, arith, eq_iff, eq_refl, Bool-cases, Option-cases, inl, inr,
  ◌==◌, All,
}
use kingsway_academy.Base.Int.{ℤ, pos, leb_ℤ, pos_part}
use kingsway_academy.Map.{Map, lookup, insert, get_or, lookup-insert, lookup-delete_where}
use kingsway_academy.Domain.{Time, after}
use kingsway_academy.Http.RateLimit.{RateWindow, allow, current_window, minute, store_window}

-- A request: when it arrives, when the answer is computed, and its key.
pub record Request : Type 0 where
  pub now : Time
  pub later : Time
  pub key : String

-- How many of the requests with a key pass, one after the other.
unfoldable pub passed : ℤ → String → List Request → Map RateWindow → ℕ
passed limit key [] windows = 0
passed limit key (r ∷ rs) windows =
    let o = allow limit r.now r.later r.key windows in
    let rest = passed limit key rs o.1 in
    if r.key == key then (if o.0.0 then suc rest else rest) else rest

-- What a request stores under a key stays, unless it is over.
lookup-store_window :
    (now : Time) (other key : String) (v w : RateWindow) (windows : Map RateWindow)
    → lookup key (insert other v windows) ≡ some w
    → now < w.reset
    → lookup key (store_window now other v windows) ≡ some w
unfolding store_window
lookup-store_window now other key v w windows h current =
    elim (Bool-cases (ltb 1000 (length (insert other v windows)))) [
      | inl many ↦ rw many (
          ground (
            arith,
            lookup-delete_where (λ (w : RateWindow). after now w.reset) key
                (insert other v windows),
          ))
      | inr few ↦ rw few h
    ]

-- A window that is not over is still stored after a request with another key.
other_key :
    (limit : ℤ) (now later : Time) (other key : String) (windows : Map RateWindow) (w : RateWindow)
    → lookup key windows ≡ some w
    → now < w.reset
    → (other == key) ≡ false
    → lookup key (allow limit now later other windows).1 ≡ some w
unfolding allow
other_key limit now later other key windows w found current differ =
    let window = current_window now (get_or other windows (record { count = 0; reset = 0 })) in
    let counted : RateWindow = record { count = suc window.count; reset = window.reset } in
    elim (Bool-cases (leb_ℤ limit (pos 0))) [
      | inl unlimited ↦ rw (unlimited, allow) found
      | inr limited ↦ elim (Bool-cases (leb_ℤ limit (pos window.count))) [
        | inl full ↦ rw (limited, full, allow) found
        | inr free ↦
            rw (limited, free, allow)
              (lookup-store_window now other key counted w windows
                (ground (arith, lookup-insert other key counted windows)) current)
      ]
    ]

counted_by :
    (limit : ℤ) (now later : Time) (key : String) (windows : Map RateWindow) (w : RateWindow)
    → current_window now (get_or key windows (record { count = 0; reset = 0 })) ≡ w
    → leb_ℤ limit (pos 0) ≡ false
    → leb_ℤ limit (pos w.count) ≡ false
    → allow limit now later key windows ≡ (
      (true, pos 0),
      store_window now key (record { count = suc w.count; reset = w.reset }) windows,
    )
unfolding allow
counted_by limit now later key windows w same limited free = rw (limited, same, free, allow) refl

-- A request with the key of an open window passes and is counted, or does not pass.
same_key :
    (limit : ℤ) (now later : Time) (key : String) (windows : Map RateWindow) (w : RateWindow)
    → lookup key windows ≡ some w
    → now < w.reset
    → leb_ℤ limit (pos 0) ≡ false
    → let o = allow limit now later key windows in
      ((o.0.0 ≡ true)
        × (w.count < pos_part limit)
        × (lookup key o.1 ≡ some (record { count = suc w.count; reset = w.reset })))
      ⊎ ((o.0.0 ≡ false) × (o.1 ≡ windows))
unfolding allow current_window
same_key limit now later key windows w found current limited =
    let counted : RateWindow = record { count = suc w.count; reset = w.reset } in
    let same : current_window now (get_or key windows (record { count = 0; reset = 0 })) ≡ w =
      ground arith in
    elim (Bool-cases (leb_ℤ limit (pos w.count))) [
      | inl full ↦ inr (ground arith, ground arith)
      | inr free ↦ inl (
        ap (λ o. o.0.0) (counted_by limit now later key windows w same limited free),
        ground arith,
        ap (λ o. lookup key o.1) (counted_by limit now later key windows w same limited free)
            ∙ lookup-store_window now key key counted counted windows
                (ground (arith, lookup-insert key key counted windows, eq_refl key)) current,
      )
    ]

-- Under a positive limit, while its window lasts, a key gets no more requests through than the
-- limit leaves: whatever requests with other keys come between, those that pass and those that
-- the window has counted already are the limit at most.
pub passed_bound :
    (limit : ℤ) (key : String) (rs : List Request) (windows : Map RateWindow) (w : RateWindow)
    → leb_ℤ limit (pos 0) ≡ false
    → lookup key windows ≡ some w
    → w.count ≤ pos_part limit
    → All (λ r. r.now < w.reset) rs
    → passed limit key rs windows + w.count ≤ pos_part limit
unfolding passed
passed_bound limit key [] windows w limited found bound early = ground arith
passed_bound limit key (r ∷ rs) windows w limited found bound (now, early) =
    elim (Bool-cases (r.key == key)) [
      | inr other ↦
          rw (other, passed)
            (passed_bound limit key rs _ w limited
              (other_key limit r.now r.later r.key key windows w found now other) bound early)
      | inl own ↦
          let is : r.key ≡ key = ground (arith, eq_iff r.key key) in
          let counted : RateWindow = record { count = suc w.count; reset = w.reset } in
          elim (same_key limit r.now r.later r.key windows w (ap (λ k. lookup k windows) is ∙ found)
            now limited) [
              | inl (pass, below, stored) ↦
                  let rest =
                    passed_bound limit key rs (allow limit r.now r.later r.key windows).1 counted
                      limited
                      (ap (λ k. lookup k (allow limit r.now r.later r.key windows).1) (sym is)
                        ∙ stored)
                      (ground arith) early in
                  rw (own, pass, passed) (ground arith)
              | inr (wait, same) ↦
                  rw (own, wait, same, passed)
                    (passed_bound limit key rs windows w limited found bound early)
            ]
    ]

-- A key whose window is missing or over gets a new one.
opens :
    (now : Time) (key : String) (windows : Map RateWindow)
    → ((w : RateWindow) → lookup key windows ≡ some w → w.reset ≤ now)
    → current_window now (get_or key windows (record { count = 0; reset = 0 }))
      ≡ record { count = 0; reset = now + minute }
unfolding current_window
opens now key windows over = elim (Option-cases (lookup key windows)) [
  | inl missing ↦ rw (get_or, missing) refl
  | inr (w, found) ↦ let late : w.reset ≤ now = over w found in rw (get_or, found) (ground arith)
]

-- Under a positive limit, in the minute from a request that opens a window, no more requests of its
-- key pass than the limit: the key has no window yet, or one that is over when the request comes,
-- and all the requests after it come before the minute is over.
pub bound_from_start :
    (limit : ℤ) (r : Request) (rs : List Request) (windows : Map RateWindow)
    → leb_ℤ limit (pos 0) ≡ false
    → ((w : RateWindow) → lookup r.key windows ≡ some w → w.reset ≤ r.now)
    → All (λ next. next.now < r.now + minute) rs
    → passed limit r.key (r ∷ rs) windows ≤ pos_part limit
unfolding passed
bound_from_start limit r rs windows limited over early =
    let opened : RateWindow = record { count = 0; reset = r.now + minute } in
    let counted : RateWindow = record { count = 1; reset = r.now + minute } in
    let is : current_window r.now (get_or r.key windows (record { count = 0; reset = 0 }))
        ≡ opened =
      opens r.now r.key windows over in
    let run = counted_by limit r.now r.later r.key windows opened is limited limited in
    let passes : (allow limit r.now r.later r.key windows).0.0 ≡ true = ap (λ o. o.0.0) run in
    let stored : lookup r.key (allow limit r.now r.later r.key windows).1 ≡ some counted =
      ap (λ o. lookup r.key o.1) run
      ∙ lookup-store_window r.now r.key r.key counted counted windows
          (ground (arith, lookup-insert r.key r.key counted windows, eq_refl r.key))
          (ground arith) in
    let rest =
      passed_bound limit r.key rs (allow limit r.now r.later r.key windows).1 counted limited stored
        (ground arith) early in
    rw (eq_refl r.key, passes, passed) (ground arith)
