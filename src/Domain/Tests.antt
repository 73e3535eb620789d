-- ===== src/Domain/Tests.antt =====
-- The theorems about the domain package at concrete inputs.
use kingsway_academy.Base.{
  ℕ, ◌≤◌, ◌<◌, ◌-◌, ◌≡◌, ◌↔◌, inl, refl, true, arith, List, [], ◌∷◌, length, take, drop, min,
}
use kingsway_academy.Base.Int.{pos}
use kingsway_academy.Base.Text.{
  to_upper, trim_space, trim_left, reverse_onto, map_chars, swap_char, is_space,
}
use Prim.Native.String.{count}
use kingsway_academy.Domain.Errors.{ok}
use kingsway_academy.Domain.Entities.{Time, PageRequest}
use kingsway_academy.Domain.Rules.{
  TimeRange, overlaps, page_slice, parse_fin, matches_fin_pattern, all_fin_chars, is_fin_char,
}
use kingsway_academy.Domain.Salary.{calculate_swap_allocation}
use kingsway_academy.Domain.Overlap.{Within, overlaps_iff}
use kingsway_academy.Domain.Paging.{page_slice_lem}
use kingsway_academy.Domain.Fin.{AreCapitalsOrDigits, parse_fin_iff}
use kingsway_academy.Domain.Swap.{share, swap_shares}

abbrev morning : TimeRange
morning = record { start = 10; end = 20 }

abbrev noon : TimeRange
noon = record { start = 19; end = 30 }

overlaps_iff_example :
    (overlaps morning noon ≡ true)
    ↔ ((0 < 10) × (0 < 19) × ((t : Time) × Within t morning × Within t noon))
overlaps_iff_example = overlaps_iff morning noon

abbrev second_page : PageRequest
second_page = record { limit = pos 2; offset = pos 2 }

page_slice_lem_example :
    let items : List ℕ = 7 ∷ 8 ∷ 9 ∷ [] in
    let (found, total) = page_slice items second_page in
    (found ≡ take 2 (drop 2 items))
    × (length found ≡ min 2 (length items - 2))
    × (total ≡ length items)
page_slice_lem_example =
    page_slice_lem (7 ∷ 8 ∷ 9 ∷ []) second_page 2 2 (inl (refl, omega arith, omega arith))
      (inl refl)

parse_fin_iff_example : (parse_fin " ab12cd7" ≡ ok "AB12CD7") ↔ (
    ("AB12CD7" ≡ to_upper (trim_space " ab12cd7"))
    × (count "AB12CD7" ≡ 7)
    × AreCapitalsOrDigits "AB12CD7")
parse_fin_iff_example = parse_fin_iff " ab12cd7" "AB12CD7"

fin_parsed : parse_fin " ab12cd7" ≡ ok "AB12CD7"
unfolding parse_fin matches_fin_pattern all_fin_chars is_fin_char to_upper trim_space trim_left
    reverse_onto map_chars swap_char is_space
fin_parsed = refl

swap_shares_example :
    (calculate_swap_allocation (pos 1000) (pos 1) (pos 2)
      ≡ (pos (share 1000 1 2), pos (1000 - share 1000 1 2)))
    × (share 1000 1 2 ≤ 1000)
swap_shares_example =
    swap_shares 1000 1 2 (omega arith) (omega arith) (omega arith) (omega arith) (omega arith)

-- The dotless i and the long s are I and S in upper case.
folded : parse_fin "ıſ12cd7" ≡ ok "IS12CD7"
unfolding parse_fin matches_fin_pattern all_fin_chars is_fin_char to_upper trim_space trim_left
    reverse_onto map_chars swap_char is_space
folded = refl
