-- ===== src/Domain/Paging.antt =====
-- What PageSlice returns.
use kingsway_academy.Base.{
  ℕ, zero, suc, refl, ap, ◌∙◌, ◌+◌, ◌-◌, ◌≤◌, ◌≡◌, List, [], ◌∷◌, length, take, drop, arith,
  length-take, length-drop, min, ◌⊎◌,
}
use kingsway_academy.Base.Int.{ℤ, pos, negsuc, ◌≤ℤ◌}
use kingsway_academy.Domain.Entities.{PageRequest}
use kingsway_academy.Domain.Rules.{page_slice, page_limit, page_offset, clip}

clip-eq-min : (n total : ℕ) → clip n total ≡ min n total
unfolding clip
clip-eq-min n total = ground arith

-- The number of items that a request gets at most: the given limit from 1 to 500, and 100 in place of
-- any other.
abbrev pub IsLimit : ℤ → ℕ → Type 0
IsLimit given l =
    ((given ≡ pos l) × (1 ≤ l) × (l ≤ 500)) ⊎ (((given ≤ℤ pos 0) ⊎ (pos 501 ≤ℤ given)) × (l ≡ 100))

-- The number of items that a request skips: the given offset, and none where it is negative.
abbrev pub IsOffset : ℤ → ℕ → Type 0
IsOffset given o = (given ≡ pos o) ⊎ ((given ≤ℤ negsuc 0) × (o ≡ 0))

page_limit-IsLimit : (page : PageRequest) (l : ℕ) → IsLimit page.limit l → page_limit page ≡ l
unfolding page_limit
page_limit-IsLimit page l h = ground arith

page_offset-IsOffset : (page : PageRequest) (o : ℕ) → IsOffset page.offset o → page_offset page ≡ o
unfolding page_offset
page_offset-IsOffset page o h = ground arith

module _ {ℓ} {T : Type ℓ} where
  take_at_most : (m n : ℕ) (xs : List T) → m ≡ min n (length xs) → take m xs ≡ take n xs
  take_at_most zero zero xs e = refl
  take_at_most zero (suc n) [] e = refl
  take_at_most zero (suc n) (x ∷ xs) e = absurd (omega arith)
  take_at_most (suc m) zero xs e = absurd (omega arith)
  take_at_most (suc m) (suc n) [] e = refl
  take_at_most (suc m) (suc n) (x ∷ xs) e = ap (λ ys. x ∷ ys) (take_at_most m n xs (omega arith))

  drop_at_most : (m n : ℕ) (xs : List T) → m ≡ min n (length xs) → drop m xs ≡ drop n xs
  drop_at_most zero zero xs e = refl
  drop_at_most zero (suc n) [] e = refl
  drop_at_most zero (suc n) (x ∷ xs) e = absurd (omega arith)
  drop_at_most (suc m) zero xs e = absurd (omega arith)
  drop_at_most (suc m) (suc n) [] e = refl
  drop_at_most (suc m) (suc n) (x ∷ xs) e = drop_at_most m n xs (omega arith)

  -- The indices of a page never leave the list: a page is the first `limit` items after the first
  -- `offset`, as many as there are.
  page_slice-eq-take :
      (items : List T) (page : PageRequest)
      → (page_slice items page).0 ≡ take (page_limit page) (drop (page_offset page) items)
  unfolding page_slice
  page_slice-eq-take items page =
      let total = length items in
      let start = clip (page_offset page) total in
      let end = clip (start + page_limit page) total in
      take_at_most (end - start) (page_limit page) (drop start items) (
        omega (
          arith,
          length-drop start items,
          clip-eq-min (page_offset page) total,
          clip-eq-min (start + page_limit page) total,
        ))
      ∙ ap (take (page_limit page))
          (drop_at_most start (page_offset page) items (clip-eq-min (page_offset page) total))

  -- For any request: the page is the items after as many as the offset says (none for a negative
  -- one), up to as many as the limit says (a limit from 1 to 500, and 100 in place of any other), as
  -- far as there are such items; and the total is the number of all items.
  pub page_slice_lem :
      (items : List T) (page : PageRequest) (l o : ℕ)
      → IsLimit page.limit l
      → IsOffset page.offset o
      → let (found, total) = page_slice items page in
        (found ≡ take l (drop o items))
        × (length found ≡ min l (length items - o))
        × (total ≡ length items)
  unfolding page_slice
  page_slice_lem items page l o limit offset =
      let cut : (page_slice items page).0 ≡ take l (drop o items) =
        page_slice-eq-take items page
        ∙ ap (λ n. take n (drop (page_offset page) items)) (page_limit-IsLimit page l limit)
        ∙ ap (λ n. take l (drop n items)) (page_offset-IsOffset page o offset) in
      (cut, ap length cut ∙ length-take l (drop o items) ∙ ap (min l) (length-drop o items), refl)
