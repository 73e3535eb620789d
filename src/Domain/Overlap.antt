-- ===== src/Domain/Overlap.antt =====
-- What TimeRange.Overlaps decides.
use kingsway_academy.Base.{◌≤◌, ◌<◌, ◌≡◌, ◌↔◌, true, arith, ltb, if◌then◌else◌}
use kingsway_academy.Domain.Entities.{Time}
use kingsway_academy.Domain.Rules.{TimeRange, overlaps, range_is_valid}

-- The instants of a range: its start belongs to it, its end does not.
abbrev pub Within : Time → TimeRange → Type 0
Within t r = (r.start ≤ t) × (t < r.end)

-- The later of two starts.
abbrev later_start : TimeRange → TimeRange → Time
later_start r s = if ltb r.start s.start then s.start else r.start

-- Two ranges overlap exactly if both have a start that is set, and some instant lies in both.
pub overlaps_iff :
    (r s : TimeRange)
    → (overlaps r s ≡ true)
      ↔ ((0 < r.start) × (0 < s.start) × ((t : Time) × Within t r × Within t s))
unfolding overlaps range_is_valid
overlaps_iff r s = (
  λ h. (ground arith, ground arith, (later_start r s, ground arith, ground arith)),
  λ h. ground arith,
)
