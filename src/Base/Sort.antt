-- ===== src/Base/Sort.antt =====
-- Go's sort.Slice, as an insertion sort by the strict order that the caller gives. Which of two
-- equal elements comes first is not specified by Go; here it is the earlier one.
use kingsway_academy.Base.{Bool, List, [], ◌∷◌, if◌then◌else◌, All, Bool-cases, inl, inr}

module _ {ℓ} {A : Type ℓ} (less : A → A → Bool) where
  unfoldable pub insert_sorted : A → List A → List A
  insert_sorted x [] = x ∷ []
  insert_sorted x (y ∷ ys) =
      let later = insert_sorted x ys in if less y x then y ∷ later else x ∷ y ∷ ys

  unfoldable pub sort_slice : List A → List A
  unfolding insert_sorted
  sort_slice [] = []
  sort_slice (x ∷ xs) = insert_sorted x (sort_slice xs)

  module _ {κ} (P : A → Type κ) where
    insert_sorted-All : (x : A) (xs : List A) → P x → All P xs → All P (insert_sorted x xs)
    unfolding insert_sorted
    insert_sorted-All x [] h k = (h, tt)
    insert_sorted-All x (y ∷ ys) h k = elim (Bool-cases (less y x)) [
      | inl later ↦ rw later (k.0, insert_sorted-All x ys h k.1)
      | inr here ↦ rw here (h, k)
    ]

    -- What holds of every element holds of every element of the sorted list.
    pub sort_slice-All : (xs : List A) → All P xs → All P (sort_slice xs)
    unfolding sort_slice
    sort_slice-All [] h = tt
    sort_slice-All (x ∷ xs) h = insert_sorted-All x (sort_slice xs) h.0 (sort_slice-All xs h.1)
