-- ===== src/Store/Indexes/Branches.antt =====
-- The operations on branches keep the four indexes.
use kingsway_academy.Base.{
  String, ◌≡◌, refl, sym, ◌==◌, not, false, some, none, arith, inl, inr, Bool-cases, eq_iff,
}
use kingsway_academy.Map.{Map, lookup, insert, missing_of_contains}
use kingsway_academy.Map.Index.{
  insert-IsIndexed, update-IsIndexed, rekey-IsIndexed, erase-IsIndexed,
}
use kingsway_academy.Map.Sweep.{sweep-IsIndexed}
use kingsway_academy.Domain.{Branch, Time}
use kingsway_academy.Store.State.{Memory}
use kingsway_academy.Store.Keeps.{Keeps, keeps_when, keeps_with_row}
use kingsway_academy.Store.Indexes.{SlugIndex, Indexes}
use kingsway_academy.Store.Branches.{
  taken_by_other, create_branch, move_slug, update_branch, clear_branch, delete_branch,
}

-- A key that no other row holds is unused or the row's own.
pub not_taken :
    (key id : String) (index : Map String) (j : String)
    → taken_by_other key id index ≡ false
    → lookup key index ≡ some j
    → j ≡ id
not_taken key id index j h e = ground (arith, eq_iff j id)

pub create_branch-Indexes :
    (ts : Time) (id : String) (b : Branch) (m : Memory)
    → Indexes m
    → lookup id m.branches ≡ none
    → Keeps Indexes (create_branch ts id b m)
unfolding create_branch
create_branch-Indexes ts id b m x fresh = keeps_when _ _ _ _ x λ valid. keeps_when _ _ _ _ x λ free.
    record {
      kept = record {
        slugs = insert-IsIndexed _ _ x.slugs id _ refl fresh (missing_of_contains _ _ free);
        emails = x.emails;
        fins = x.fins;
        accounts = x.accounts;
      };
    }

move_slug-SlugIndex :
    (current row : Branch) (m : Memory)
    → Indexes m
    → lookup row.id m.branches ≡ some current
    → taken_by_other row.slug row.id m.branches_by_slug ≡ false
    → SlugIndex (insert row.id row m.branches) (move_slug current row m.branches_by_slug)
unfolding move_slug
move_slug-SlugIndex current row m x found free = elim (Bool-cases (current.slug == row.slug)) [
  | inl same ↦
      rw (same, not)
        (update-IsIndexed _ _ x.slugs row.id row current refl found (sym ((eq_iff _ _).0 same)))
  | inr moved ↦
      rw (moved, not)
        (rekey-IsIndexed _ _ x.slugs row.id row current refl found (λ j. not_taken _ _ _ j free))
]

pub update_branch-Indexes :
    (ts : Time) (b : Branch) (m : Memory) → Indexes m → Keeps Indexes (update_branch ts b m)
unfolding update_branch
update_branch-Indexes ts b m x = keeps_with_row _ _ _ x λ current found.
    keeps_when _ _ _ _ x λ valid. keeps_when _ _ _ _ x λ free. record {
      kept = record {
        slugs = move_slug-SlugIndex current _ m x found free;
        emails = x.emails;
        fins = x.fins;
        accounts = x.accounts;
      };
    }

pub delete_branch-Indexes :
    (id : String) (m : Memory) → Indexes m → Keeps Indexes (delete_branch id m)
unfolding delete_branch clear_branch
delete_branch-Indexes id m x = keeps_with_row _ _ _ x λ branch found. record {
  kept = record {
    slugs = erase-IsIndexed _ _ x.slugs id branch found;
    emails = sweep-IsIndexed _ _ _ _ _ x.emails;
    fins = sweep-IsIndexed _ _ _ _ _ x.fins;
    accounts = sweep-IsIndexed _ _ _ _ _ x.accounts;
  };
}
