-- ===== src/Academic/Visibility.antt =====
-- What the listing of the classes shows to whom.
use kingsway_academy.Base.{
  String, ◌≡◌, refl, true, false, arith, ◌==◌, List, [], eq_iff, ◌||◌, All, keep, keep-All, All-map,
  inl, inr, ap, subst, sym, ◌∙◌,
}
use kingsway_academy.Base.Text.{is_empty}
use kingsway_academy.Base.Sort.{sort_slice-All}
use kingsway_academy.Map.{values_where-All}
use kingsway_academy.Domain.{
  Role, Principal, Class, Student, Teacher, ok, err, not_found, Error, is_owner, eq_role, ok_or_err,
}
use kingsway_academy.Store.State.{Memory}
use kingsway_academy.Store.Teachers.{get_teacher_by_user}
use kingsway_academy.Store.Listings
use kingsway_academy.Store.Listings.{get_student_by_user}
use kingsway_academy.Auth.Service.{require_branch}
use kingsway_academy.Academic.Steps.{as_student, attends, filter_by_role}
use kingsway_academy.Academic.Filters.{filter_classes_for_actor}
use kingsway_academy.Academic.Classes.{list_classes}

-- The actor may see what stands in this branch, is taught by this teacher and belongs to this class:
-- the office sees the branch, a teacher what they teach, a student the classes they attend.
pub record MaySee (actor : Principal) (m : Memory) (branch_id teacher_id class_id : String)
    : Type 0 where
  pub here : branch_id ≡ actor.branch_id
  pub taught :
      (t : Teacher)
      → actor.role ≡ Role.teacher
      → (get_teacher_by_user actor.user_id m).0 ≡ ok t
      → teacher_id ≡ t.id
  pub attended :
      (s : Student)
      → actor.role ≡ Role.student
      → (get_student_by_user actor.user_id m).0 ≡ ok s
      → attends s m class_id ≡ true

module _ (actor : Principal) (m : Memory) (has_branch : is_empty actor.branch_id ≡ false) where
  classes_here :
      All (λ (c : Class). c.branch_id ≡ actor.branch_id) (Listings.list_classes actor.branch_id m)
  unfolding Listings.list_classes
  classes_here = sort_slice-All _ _ _ (
      All-map (λ c h. ground (arith, eq_iff c.branch_id actor.branch_id)) _
        (values_where-All (λ c. is_empty actor.branch_id || c.branch_id == actor.branch_id)
          m.classes))

-- An account without a student sees nothing.
nothing_seen :
    (actor : Principal) (m : Memory) (rest : Student → List Class) (out : List Class) (e : Error)
    → (get_student_by_user actor.user_id m).0 ≡ err e
    → as_student actor m rest ≡ ok out
    → out ≡ []
unfolding as_student
nothing_seen actor m rest out not_found unknown h = ground arith
nothing_seen actor m rest out _ unknown h = absurd (ground arith)

module _ (user_id branch_id : String) (m : Memory) where
  abbrev Seen : Role → Class → Type 0
  Seen role c =
      MaySee (record { user_id = user_id; branch_id = branch_id; role = role }) m c.branch_id
        c.teacher_id c.id

  office_sees :
      (role : Role)
      → eq_role role Role.teacher ≡ false
      → eq_role role Role.student ≡ false
      → (c : Class) → c.branch_id ≡ branch_id
      → Seen role c
  office_sees role no_teacher no_student c here = record {
    here = here;
    taught = λ t e known. absurd (ground arith);
    attended = λ s e known. absurd (ground arith);
  }

  filtered_classes :
      (role : Role) (cs out : List Class)
      → filter_classes_for_actor
          (record { user_id = user_id; branch_id = branch_id; role = role })
          cs
          m
        ≡ ok out
      → All (λ (c : Class). c.branch_id ≡ branch_id) cs
      → All (Seen role) out
  unfolding filter_classes_for_actor filter_by_role as_student
  filtered_classes Role.owner cs out h here =
      let same : cs ≡ out = ground arith in
      subst (All (Seen Role.owner)) same (All-map (office_sees Role.owner refl refl) cs here)
  filtered_classes Role.receptionist cs out h here =
      let same : cs ≡ out = ground arith in
      subst (All (Seen Role.receptionist)) same
        (All-map (office_sees Role.receptionist refl refl) cs here)
  filtered_classes Role.teacher cs out h here = elim (ok_or_err (get_teacher_by_user user_id m).0) [
    | inl (t, known) ↦
        let kept : keep (λ c. c.teacher_id == t.id) cs ≡ out = ground arith in
        subst (All (Seen Role.teacher)) kept (
          All-map
            (λ c (own, taught). record {
              here = own;
              taught = λ t' e known'.
                  let one : t ≡ t' = ground arith in ground (arith, eq_iff c.teacher_id t.id);
              attended = λ s e known'. absurd (ground arith);
            })
            _ (keep-All _ (λ c. c.teacher_id == t.id) cs here))
    | inr (e, unknown) ↦ absurd (ground arith)
  ]
  filtered_classes Role.student cs out h here = elim (ok_or_err (get_student_by_user user_id m).0) [
    | inl (s, known) ↦
        let kept : keep (λ c. attends s m c.id) cs ≡ out = ground arith in
        subst (All (Seen Role.student)) kept (
          All-map
            (λ c (own, attended). record {
              here = own;
              taught = λ t e known'. absurd (ground arith);
              attended = λ s' e known'.
                  let one : s ≡ s' = ground arith in
                  ap (λ x. attends x m c.id) (sym one) ∙ attended;
            })
            _ (keep-All _ (λ c. attends s m c.id) cs here))
    | inr (e, unknown) ↦
        let none_seen : out ≡ [] =
          nothing_seen (record { user_id = user_id; branch_id = branch_id; role = Role.student }) m
            _ out e unknown h in
        rw none_seen tt
  ]
  filtered_classes (Role.other s) cs out h here = absurd (ground arith)

-- An actor who is no owner sees, in a listing of the classes, classes of the own branch alone; a
-- teacher with a record only the own ones, and a student with a record only those attended.
pub list_classes_lem :
    (actor : Principal) (given : String) (m : Memory) (classes : List Class)
    → is_owner actor ≡ false
    → list_classes actor given m ≡ ok classes
    → All (λ (c : Class). MaySee actor m c.branch_id c.teacher_id c.id) classes
unfolding list_classes require_branch
list_classes_lem actor given m classes no_owner h =
    let filtered : filter_classes_for_actor actor (Listings.list_classes actor.branch_id m) m
        ≡ ok classes =
      ground arith in
    let has_branch : is_empty actor.branch_id ≡ false = ground arith in
    filtered_classes actor.user_id actor.branch_id m actor.role _ classes filtered
      (classes_here actor m has_branch)
