-- ===== src/Store/Cascade.antt =====
-- What DeleteBranch leaves behind.
use kingsway_academy.Base.{
  String, ◌≡◌, ◌≢◌, ◌==◌, arith, some, none, eq_iff, refl, sym, ap, ◌∙◌, inl, inr, Option-cases,
}
use kingsway_academy.Map.{Map, lookup, delete_where, lookup-delete_where, unless, lookup-erase}
use kingsway_academy.Map.Sweep.{sweep, lookup-sweep}
use kingsway_academy.Domain.{
  Branch, Student, StudentParentContact, StudentCourseRegistration, StudentTeacherAssignment, ok,
}
use kingsway_academy.Store.State.{Memory, with_row}
use kingsway_academy.Store.Branches.{delete_branch, clear_branch}

-- From one table to the next, exactly the rows of a branch are gone.
pub record IsPurged {V : Type 0} (branch_of : V → String) (id : String) (table table' : Map V)
    : Type 0 where
  pub gone : (k : String) (v : V) → lookup k table' ≡ some v → branch_of v ≢ id
  pub kept :
      (k : String) (v : V) → lookup k table ≡ some v → branch_of v ≢ id → lookup k table' ≡ some v
  pub old : (k : String) (v : V) → lookup k table' ≡ some v → lookup k table ≡ some v

module _ {V : Type 0} (branch_of : V → String) (id : String) (table : Map V) where
  purged :
      (table' : Map V)
      → ((k : String) → lookup k table' ≡ unless (λ v. branch_of v == id) (lookup k table))
      → IsPurged branch_of id table table'
  purged table' h = record {
    gone = λ k v e. ground (arith, h k, eq_iff (branch_of v) id);
    kept = λ k v e n. ground (arith, h k, eq_iff (branch_of v) id);
    old = λ k v e. ground (arith, h k);
  }

  pub delete_where-IsPurged :
      IsPurged branch_of id table (delete_where (λ v. branch_of v == id) table)
  delete_where-IsPurged = purged _ (λ k. lookup-delete_where _ k table)

  pub sweep-IsPurged :
      (key : V → String) (index : Map String)
      → IsPurged branch_of id table (sweep (λ v. branch_of v == id) key table index).0
  sweep-IsPurged key index = purged _ (λ k. lookup-sweep _ key table index k)

-- The tables that DeleteBranch goes through, row by row.
pub record BranchIsCleared (id : String) (m m' : Memory) : Type 0 where
  pub users : IsPurged (λ v. v.branch_id) id m.users m'.users
  pub staff_members : IsPurged (λ v. v.branch_id) id m.staff_members m'.staff_members
  pub students : IsPurged (λ v. v.branch_id) id m.students m'.students
  pub teachers : IsPurged (λ v. v.branch_id) id m.teachers m'.teachers
  pub courses : IsPurged (λ v. v.branch_id) id m.courses m'.courses
  pub classes : IsPurged (λ v. v.branch_id) id m.classes m'.classes
  pub class_students : IsPurged (λ v. v.branch_id) id m.class_students m'.class_students
  pub assignments : IsPurged (λ v. v.branch_id) id m.assignments m'.assignments
  pub rooms : IsPurged (λ v. v.branch_id) id m.rooms m'.rooms
  pub schedules : IsPurged (λ v. v.branch_id) id m.schedules m'.schedules
  pub exams : IsPurged (λ v. v.branch_id) id m.exams m'.exams
  pub exam_participants : IsPurged (λ v. v.branch_id) id m.exam_participants m'.exam_participants
  pub exam_results : IsPurged (λ v. v.branch_id) id m.exam_results m'.exam_results
  pub payments : IsPurged (λ v. v.branch_id) id m.payments m'.payments
  pub salary_models : IsPurged (λ v. v.branch_id) id m.salary_models m'.salary_models
  pub files : IsPurged (λ v. v.branch_id) id m.files m'.files
  pub branch_gone : lookup id m'.branches ≡ none
  pub other_branches : (k : String) → k ≢ id → lookup k m'.branches ≡ lookup k m.branches

clear_branch-BranchIsCleared :
    (id : String) (branch : Branch) (m : Memory) → BranchIsCleared id m (clear_branch id branch m)
unfolding clear_branch
clear_branch-BranchIsCleared id branch m = record {
  users = sweep-IsPurged _ id m.users _ _;
  staff_members = delete_where-IsPurged _ id m.staff_members;
  students = sweep-IsPurged _ id m.students _ _;
  teachers = sweep-IsPurged _ id m.teachers _ _;
  courses = delete_where-IsPurged _ id m.courses;
  classes = delete_where-IsPurged _ id m.classes;
  class_students = delete_where-IsPurged _ id m.class_students;
  assignments = delete_where-IsPurged _ id m.assignments;
  rooms = delete_where-IsPurged _ id m.rooms;
  schedules = delete_where-IsPurged _ id m.schedules;
  exams = delete_where-IsPurged _ id m.exams;
  exam_participants = delete_where-IsPurged _ id m.exam_participants;
  exam_results = delete_where-IsPurged _ id m.exam_results;
  payments = delete_where-IsPurged _ id m.payments;
  salary_models = delete_where-IsPurged _ id m.salary_models;
  files = delete_where-IsPurged _ id m.files;
  branch_gone = ground (arith, lookup-erase id id m.branches, eq_iff id id);
  other_branches = λ k n. ground (arith, lookup-erase id k m.branches, eq_iff id k);
}

delete_branch_ok :
    (id : String) (branch : Branch) (m : Memory)
    → (delete_branch id m).0 ≡ ok branch
    → (delete_branch id m).1 ≡ clear_branch id branch m
unfolding delete_branch with_row
delete_branch_ok id branch m h = ground arith

-- A branch that is deleted: of each of sixteen tables exactly the rows of that branch are gone, the
-- branch is gone, and every other branch is as it was.
pub delete_branch-BranchIsCleared :
    (id : String) (branch : Branch) (m : Memory)
    → (delete_branch id m).0 ≡ ok branch
    → BranchIsCleared id m (delete_branch id m).1
delete_branch-BranchIsCleared id branch m h =
    rw (delete_branch_ok id branch m h) (clear_branch-BranchIsCleared id branch m)

kept_details :
    (id : String) (branch : Branch) (m : Memory)
    → let m' = clear_branch id branch m in
      (m'.student_parents ≡ m.student_parents)
      × (m'.student_courses ≡ m.student_courses)
      × (m'.student_teacher_assignments ≡ m.student_teacher_assignments)
unfolding clear_branch
kept_details id branch m = (refl, refl, refl)

-- No row of the branch is left under its key.
IsPurged-none :
    {V : Type 0} {branch_of : V → String} {id : String} {table table' : Map V}
    → IsPurged branch_of id table table'
    → (k : String) (v : V) → lookup k table ≡ some v
    → branch_of v ≡ id
    → lookup k table' ≡ none
IsPurged-none {branch_of = branch_of} {table' = table'} p k v stored of_branch =
    elim (Option-cases (lookup k table')) [
      | inl missing ↦ missing
      | inr (w, found) ↦
          let same : v ≡ w = ground (arith, p.old k w found) in
          absurd (p.gone k w found (sym (ap branch_of same) ∙ of_branch))
    ]

-- A student of a branch that is deleted, with a contact, a course registration and a teacher
-- assignment: the three rows stay stored, and the student of each is not stored any more.
pub delete_branch_orphans :
    (id student_id k j i : String) (branch : Branch) (student : Student)
    (contact : StudentParentContact) (registration : StudentCourseRegistration)
    (assignment : StudentTeacherAssignment) (m : Memory)
    → (delete_branch id m).0 ≡ ok branch
    → lookup student_id m.students ≡ some student
    → student.branch_id ≡ id
    → (lookup k m.student_parents ≡ some contact) × (contact.student_id ≡ student_id)
    → (lookup j m.student_courses ≡ some registration) × (registration.student_id ≡ student_id)
    → (lookup i m.student_teacher_assignments ≡ some assignment)
      × (assignment.student_id ≡ student_id)
    → let m' = (delete_branch id m).1 in
      ((lookup k m'.student_parents ≡ some contact)
        × (lookup contact.student_id m'.students ≡ none))
      × ((lookup j m'.student_courses ≡ some registration)
          × (lookup registration.student_id m'.students ≡ none))
      × ((lookup i m'.student_teacher_assignments ≡ some assignment)
          × (lookup assignment.student_id m'.students ≡ none))
delete_branch_orphans id student_id k j i branch student contact registration assignment m deleted
      stored of_branch (c, c_own) (r, r_own) (a, a_own) =
    let (parents, courses, teachers) = kept_details id branch m in
    let m' = clear_branch id branch m in
    let gone : lookup student_id m'.students ≡ none =
      IsPurged-none (clear_branch-BranchIsCleared id branch m).students student_id student stored
        of_branch in
    let none_of : (own : String) → own ≡ student_id → lookup own m'.students ≡ none =
      λ own e. ap (λ x. lookup x m'.students) e ∙ gone in
    rw (delete_branch_ok id branch m deleted) (
      (ap (lookup k) parents ∙ c, none_of _ c_own),
      (ap (lookup j) courses ∙ r, none_of _ r_own),
      (ap (lookup i) teachers ∙ a, none_of _ a_own),
    )
