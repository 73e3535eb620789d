-- ===== src/Store/Indexes/Teachers.antt =====
-- The operations on teachers keep the four indexes.
use kingsway_academy.Base.{String, ◌≡◌, refl, some, none, inl, inr, Option-cases}
use kingsway_academy.Map.{lookup, erase, missing_of_contains}
use kingsway_academy.Map.Index.{
  insert-IsIndexed, update-IsIndexed, rekey-IsIndexed, erase-IsIndexed, stored_own,
  erase_missing-IsIndexed, update_where-IsIndexed,
}
use kingsway_academy.Domain.{Teacher, User, Time}
use kingsway_academy.Store.State.{Memory}
use kingsway_academy.Store.Keeps.{Keeps, keeps_ok, keeps_when, keeps_with_row}
use kingsway_academy.Store.Indexes.{EmailIndex, Indexes}
use kingsway_academy.Store.Indexes.Branches.{not_taken}
use kingsway_academy.Store.Teachers.{
  create_teacher, update_teacher, updated_teacher_account, update_teacher_account, clear_teacher,
  delete_teacher,
}

pub create_teacher-Indexes :
    (ts : Time) (id : String) (teacher : Teacher) (m : Memory)
    → Indexes m
    → lookup id m.teachers ≡ none
    → Keeps Indexes (create_teacher ts id teacher m)
unfolding create_teacher
create_teacher-Indexes ts id teacher m x fresh = keeps_with_row _ _ _ x λ user known.
    keeps_when _ _ _ _ x λ valid. keeps_when _ _ _ _ x λ free. keeps_ok (record {
      slugs = x.slugs;
      emails = x.emails;
      fins = x.fins;
      accounts = insert-IsIndexed _ _ x.accounts id _ refl fresh (missing_of_contains _ _ free);
    })

-- UpdateTeacher keeps the indexes for callers that leave the account of the teacher alone.
pub update_teacher-Indexes :
    (ts : Time) (teacher : Teacher) (m : Memory)
    → Indexes m
    → ((current : Teacher)
        → lookup teacher.id m.teachers ≡ some current
        → teacher.user_id ≡ current.user_id)
    → Keeps Indexes (update_teacher ts teacher m)
unfolding update_teacher
update_teacher-Indexes ts teacher m x same = keeps_with_row _ _ _ x λ current found.
    keeps_ok (record {
      slugs = x.slugs;
      emails = x.emails;
      fins = x.fins;
      accounts =
          update-IsIndexed _ _ x.accounts teacher.id _ current refl found (same current found);
    })

pub update_teacher_account-Indexes :
    (ts ts' : Time) (teacher : Teacher) (user : User) (password_hash : String) (m : Memory)
    → Indexes m
    → Keeps Indexes (update_teacher_account ts ts' teacher user password_hash m)
unfolding update_teacher_account updated_teacher_account
update_teacher_account-Indexes ts ts' teacher user password_hash m x =
    keeps_with_row _ _ _ x λ current at. keeps_with_row _ _ _ x λ account found.
      keeps_when _ _ _ _ x λ valid. keeps_when _ _ _ _ x λ free. keeps_when _ _ _ _ x λ known.
        keeps_ok (record {
          slugs = x.slugs;
          emails =
              rekey-IsIndexed _ _ x.emails account.id _ account refl
                (stored_own _ _ x.emails current.user_id account found)
                (λ j. not_taken _ _ _ j free);
          fins = x.fins;
          accounts = update-IsIndexed _ _ x.accounts teacher.id _ current refl at refl;
        })

clear_emails-EmailIndex :
    (user_id : String) (m : Memory)
    → Indexes m
    → EmailIndex (erase user_id m.users) (elim (lookup user_id m.users) [
      | none ↦ m.users_by_email
      | some user ↦ erase user.email m.users_by_email
    ])
clear_emails-EmailIndex user_id m x = elim (Option-cases (lookup user_id m.users)) [
  | inl missing ↦ rw missing (erase_missing-IsIndexed _ _ x.emails user_id missing)
  | inr (user, found) ↦ rw found (erase-IsIndexed _ _ x.emails user_id user found)
]

pub delete_teacher-Indexes :
    (clock : String → Time) (id : String) (m : Memory)
    → Indexes m
    → Keeps Indexes (delete_teacher clock id m)
unfolding delete_teacher clear_teacher
delete_teacher-Indexes clock id m x = keeps_with_row _ _ _ x λ teacher found. keeps_ok (record {
  slugs = x.slugs;
  emails = clear_emails-EmailIndex teacher.user_id m x;
  fins = update_where-IsIndexed _ _ x.fins _ _ (λ k s. refl) (λ k s. refl);
  accounts =
      erase-IsIndexed _ _ x.accounts teacher.id teacher
        (stored_own _ _ x.accounts id teacher found);
})
