-- ===== src/Academic/Isolation/Owners.antt =====
-- What the academic services keep to the owners.
use kingsway_academy.Base.{String, ◌≡◌, false}
use kingsway_academy.Domain.{Time, Principal, err, forbidden, is_owner}
use kingsway_academy.Store.State.{Memory}
use kingsway_academy.Auth.Libraries.{Bcrypt}
use kingsway_academy.Academic.Inputs.{
  CreateBranchInput, UpdateBranchInput, CreateStaffInput, UpdateStaffInput,
}
use kingsway_academy.Academic.Branches.{create_branch, update_branch, delete_branch}
use kingsway_academy.Academic.Staff.{create_staff_member, update_staff_member, delete_staff_member}
use kingsway_academy.Academic.Teachers.{activate_teacher}
use kingsway_academy.Academic.Isolation.Guards.{owners_only, owners_only_also}

-- Who is no owner cannot create, change or delete a branch or a member of the staff, nor activate a
-- teacher: each of these is forbidden and changes nothing, whatever is asked.
pub owners_alone :
    (actor : Principal) (bcrypt : Bcrypt) (m : Memory) (ts ts' : Time) (id id' : String)
    (new_branch : CreateBranchInput) (branch : UpdateBranchInput) (new_staff : CreateStaffInput)
    (staff : UpdateStaffInput)
    → is_owner actor ≡ false
    → (create_branch ts id actor new_branch m ≡ (err forbidden, m))
      × (update_branch ts actor branch m ≡ (err forbidden, m))
      × (delete_branch actor id m ≡ (err forbidden, m))
      × (create_staff_member bcrypt ts id id' actor new_staff m ≡ (err forbidden, m))
      × (update_staff_member bcrypt ts ts' actor staff m ≡ (err forbidden, m))
      × (delete_staff_member actor id m ≡ (err forbidden, m))
      × (activate_teacher ts actor id m ≡ (err forbidden, m))
unfolding create_branch update_branch delete_branch create_staff_member update_staff_member
    delete_staff_member activate_teacher
owners_alone actor bcrypt m ts ts' id id' new_branch branch new_staff staff no_owner = (
  owners_only actor no_owner m _,
  owners_only actor no_owner m _,
  owners_only actor no_owner m _,
  owners_only_also actor no_owner _ m _,
  owners_only actor no_owner m _,
  owners_only actor no_owner m _,
  owners_only actor no_owner m _,
)
