-- ===== src/Store/Pages/Slices.antt =====
-- The two functions that cut a page, pageSlice of the store and PageSlice of the domain.
use kingsway_academy.Base.{◌≡◌, refl, List, arith}
use kingsway_academy.Base.Int.{pos_part}
use kingsway_academy.Domain.{PageRequest, page_limit, page_offset, clip}
use kingsway_academy.Domain
use kingsway_academy.Store.Pages.{page_slice, normalize_page}

normal_limit : (page : PageRequest) → pos_part (normalize_page page).limit ≡ page_limit page
unfolding normalize_page page_limit
normal_limit page = ground arith

normal_offset : (page : PageRequest) → pos_part (normalize_page page).offset ≡ page_offset page
unfolding normalize_page page_offset
normal_offset page = ground arith

-- A listing that a service cuts itself and one that the store cuts give the same page, with the same
-- total, for any request.
pub page_slice-eq-PageSlice :
    {T : Type 0} (items : List T) (page : PageRequest)
    → page_slice items page ≡ Domain.page_slice items page
unfolding page_slice Domain.page_slice clip
page_slice-eq-PageSlice items page = rw (normal_limit page, normal_offset page) refl
