-- ===== src/Store/Indexes/Users.antt =====
-- The operations on user accounts and staff members keep the four indexes.
use kingsway_academy.Base.{String, ◌≡◌, refl, none, inl, inr, Option-cases}
use kingsway_academy.Map.{lookup, missing_of_contains}
use kingsway_academy.Map.Index.{
  insert-IsIndexed, update-IsIndexed, rekey-IsIndexed, erase-IsIndexed, stored_own,
}
use kingsway_academy.Domain.{User, StaffMember, Time}
use kingsway_academy.Store.State.{Memory}
use kingsway_academy.Store.Keeps.{Keeps, keeps_when, keeps_with_row}
use kingsway_academy.Store.Indexes.{Indexes}
use kingsway_academy.Store.Indexes.Branches.{not_taken}
use kingsway_academy.Store.Users.{create_user, revoke_user_tokens, record_user_login}
use kingsway_academy.Store.Staff.{
  create_staff_member, updated_account, update_staff_member, delete_staff_member,
}

pub create_user-Indexes :
    (ts : Time) (id : String) (user : User) (m : Memory)
    → Indexes m
    → lookup id m.users ≡ none
    → Keeps Indexes (create_user ts id user m)
unfolding create_user
create_user-Indexes ts id user m x fresh = keeps_when _ _ _ _ x λ valid.
    keeps_when _ _ _ _ x λ scoped. keeps_when _ _ _ _ x λ known. keeps_when _ _ _ _ x λ free.
      record {
        kept = record {
          slugs = x.slugs;
          emails = insert-IsIndexed _ _ x.emails id _ refl fresh (missing_of_contains _ _ free);
          fins = x.fins;
          accounts = x.accounts;
        };
      }

pub revoke_user_tokens-Indexes :
    (ts : Time) (id : String) (m : Memory) → Indexes m → Keeps Indexes (revoke_user_tokens ts id m)
unfolding revoke_user_tokens
revoke_user_tokens-Indexes ts id m x = keeps_with_row _ _ _ x λ user found. record {
  kept = record {
    slugs = x.slugs;
    emails = update-IsIndexed _ _ x.emails id _ user (x.emails.own id user found) found refl;
    fins = x.fins;
    accounts = x.accounts;
  };
}

pub record_user_login-Indexes :
    (login_at : String) (ts : Time) (id : String) (m : Memory)
    → Indexes m
    → Keeps Indexes (record_user_login login_at ts id m)
unfolding record_user_login
record_user_login-Indexes login_at ts id m x = keeps_with_row _ _ _ x λ user found. record {
  kept = record {
    slugs = x.slugs;
    emails = update-IsIndexed _ _ x.emails id _ user (x.emails.own id user found) found refl;
    fins = x.fins;
    accounts = x.accounts;
  };
}

pub create_staff_member-Indexes :
    (ts : Time) (user_id staff_id : String) (user : User) (staff : StaffMember) (m : Memory)
    → Indexes m
    → lookup user_id m.users ≡ none
    → Keeps Indexes (create_staff_member ts user_id staff_id user staff m)
unfolding create_staff_member
create_staff_member-Indexes ts user_id staff_id user staff m x fresh = keeps_when _ _ _ _ x λ valid.
    keeps_when _ _ _ _ x λ known. keeps_when _ _ _ _ x λ free. record {
      kept = record {
        slugs = x.slugs;
        emails = insert-IsIndexed _ _ x.emails user_id _ refl fresh (missing_of_contains _ _ free);
        fins = x.fins;
        accounts = x.accounts;
      };
    }

pub update_staff_member-Indexes :
    (ts ts' : Time) (staff : StaffMember) (password_hash : String) (m : Memory)
    → Indexes m
    → Keeps Indexes (update_staff_member ts ts' staff password_hash m)
unfolding update_staff_member updated_account
update_staff_member-Indexes ts ts' staff password_hash m x = keeps_with_row _ _ _ x λ current at.
    keeps_with_row _ _ _ x λ user found. keeps_when _ _ _ _ x λ free. keeps_when _ _ _ _ x λ known.
      record {
        kept = record {
          slugs = x.slugs;
          emails =
              rekey-IsIndexed _ _ x.emails user.id _ user refl
                (stored_own _ _ x.emails current.user_id user found) (λ j. not_taken _ _ _ j free);
          fins = x.fins;
          accounts = x.accounts;
        };
      }

pub delete_staff_member-Indexes :
    (id : String) (m : Memory) → Indexes m → Keeps Indexes (delete_staff_member id m)
unfolding delete_staff_member
delete_staff_member-Indexes id m x = keeps_with_row _ _ _ x λ staff at.
    elim (Option-cases (lookup staff.user_id m.users)) [
      | inl missing ↦ rw missing (record {
        kept = record { slugs = x.slugs; emails = x.emails; fins = x.fins; accounts = x.accounts };
      })
      | inr (user, found) ↦ rw found (record {
        kept = record {
          slugs = x.slugs;
          emails = erase-IsIndexed _ _ x.emails staff.user_id user found;
          fins = x.fins;
          accounts = x.accounts;
        };
      })
    ]
