-- ===== src/Academic/Branches.antt =====
-- The branches of academic/branch_staff_service.go.
use kingsway_academy.Base.{String, if◌then◌else◌, List, [], ◌∷◌, ℕ}
use kingsway_academy.Base.Text.{trim_space, is_empty}
use kingsway_academy.Domain.{
  Time, Role, Principal, Branch, PageRequest, Result, ok, err, invalid_input, forbidden, is_owner,
  single_page, ◌>>=◌, ◌>>◌,
}
use kingsway_academy.Store.State.{when◌fail◌from◌otherwise◌, Memory, Outcome, if_passed, with_value}
use kingsway_academy.Store.Branches
use kingsway_academy.Store.Listings
use kingsway_academy.Store.Pages
use kingsway_academy.Auth.Service.{require_any_role, require_branch}
use kingsway_academy.Academic.Inputs.{CreateBranchInput, UpdateBranchInput}
use kingsway_academy.Academic.Dates.{normalize_clock_time}

-- CreateBranch
unfoldable pub create_branch :
    Time → String → Principal → CreateBranchInput → Memory → Outcome Branch
create_branch ts id actor input m = if_passed (require_any_role actor (Role.owner ∷ [])) m (
    with_value (normalize_clock_time input.opening_time) m λ opening_time.
      with_value (normalize_clock_time input.closing_time) m λ closing_time.
        Branches.create_branch ts id
          (record {
            id = "";
            name = trim_space input.name;
            slug = trim_space input.slug;
            address = trim_space input.address;
            opening_time = opening_time;
            closing_time = closing_time;
            created_at = 0;
            updated_at = 0;
          })
          m)

-- UpdateBranch
unfoldable pub update_branch : Time → Principal → UpdateBranchInput → Memory → Outcome Branch
update_branch ts actor input m = if_passed (require_any_role actor (Role.owner ∷ [])) m (
    with_value (Branches.get_branch input.id m).0 m λ branch.
      with_value (normalize_clock_time input.opening_time) m λ opening_time.
        with_value (normalize_clock_time input.closing_time) m λ closing_time.
          Branches.update_branch ts
            (record branch {
              name = trim_space input.name;
              slug = trim_space input.slug;
              address = trim_space input.address;
              opening_time = opening_time;
              closing_time = closing_time;
            })
            m)

-- GetBranch
unfoldable pub get_branch : Principal → String → Memory → Result Branch
get_branch actor id m = (Branches.get_branch (trim_space id) m).0 >>= λ branch.
    require_branch actor branch.id >> ok branch

-- DeleteBranch
unfoldable pub delete_branch : Principal → String → Memory → Outcome Branch
delete_branch actor id m = if_passed (require_any_role actor (Role.owner ∷ [])) m (
    when is_empty (trim_space id)
    fail invalid_input
    from m
    otherwise Branches.delete_branch (trim_space id) m)

-- ListBranches
unfoldable pub list_branches : Principal → Memory → Result (List Branch)
list_branches actor m =
    if is_owner actor
    then ok (Listings.list_branches m)
    else if is_empty actor.branch_id
    then err forbidden
    else (Branches.get_branch actor.branch_id m).0 >>= λ branch. ok (branch ∷ [])

-- ListBranchesPage
unfoldable pub list_branches_page : Principal → PageRequest → Memory → Result (List Branch × ℕ)
list_branches_page actor page m =
    if is_owner actor
    then ok (Pages.list_branches_page page m)
    else if is_empty actor.branch_id
    then err forbidden
    else (Branches.get_branch actor.branch_id m).0 >>= λ branch. ok (single_page branch page)
