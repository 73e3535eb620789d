-- ===== src/Store/Indexes.antt =====
-- The invariant of the tables that have an index beside them: memory.go keeps the slugs, the
-- addresses, the FIN codes and the teachers' accounts unique by these indexes alone.
pub mod Branches
pub mod Users
pub mod Students
pub mod Teachers
pub mod Others
use kingsway_academy.Base.{String}
use kingsway_academy.Map.{Map}
use kingsway_academy.Map.Index.{IsIndexed}
use kingsway_academy.Domain.{Branch, User, Student, Teacher}
use kingsway_academy.Store.State.{Memory}

abbrev pub SlugIndex : Map Branch → Map String → Type 0
SlugIndex = IsIndexed (λ b. b.id) (λ b. b.slug)

abbrev pub EmailIndex : Map User → Map String → Type 0
EmailIndex = IsIndexed (λ u. u.id) (λ u. u.email)

abbrev pub FinIndex : Map Student → Map String → Type 0
FinIndex = IsIndexed (λ s. s.id) (λ s. s.fin)

abbrev pub TeacherIndex : Map Teacher → Map String → Type 0
TeacherIndex = IsIndexed (λ t. t.id) (λ t. t.user_id)

-- Each row stands under its own id, and each of the four keys belongs to one row.
pub record AreIndexed (branches : Map Branch) (branches_by_slug : Map String) (users : Map User)
    (users_by_email : Map String) (students : Map Student) (students_by_fin : Map String)
    (teachers : Map Teacher) (teachers_by_user : Map String) : Type 0 where
  pub slugs : SlugIndex branches branches_by_slug
  pub emails : EmailIndex users users_by_email
  pub fins : FinIndex students students_by_fin
  pub accounts : TeacherIndex teachers teachers_by_user

-- The eight tables of a store fit together.
abbrev pub Indexes : Memory → Type 0
Indexes m =
    AreIndexed m.branches m.branches_by_slug m.users m.users_by_email m.students m.students_by_fin
      m.teachers m.teachers_by_user
