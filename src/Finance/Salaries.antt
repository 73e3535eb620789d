-- ===== src/Finance/Salaries.antt =====
-- What the approval of a salary model leaves behind.
use kingsway_academy.Base.{
  Bool, String, ◌≡◌, ◌≢◌, refl, true, false, some, [], ◌∷◌, arith, eq_iff, inl, inr, subst, ◌⊎◌,
  ◌∙◌, ap, sym,
}
use kingsway_academy.Map.{lookup_self, lookup, insert}
use kingsway_academy.Base.Int.{pos, ◌≤ℤ◌}
use kingsway_academy.Domain.{
  Error, Time, Role, Principal, SalaryModel, SalaryModelType, Teacher, TeacherStatus, ok, err,
  is_owner, salary_model_is_valid,
}
use kingsway_academy.Store.State.{when◌fail◌from◌otherwise◌, Memory, Outcome, with_row, refuse}
use kingsway_academy.Store.Teachers.{update_teacher}
use kingsway_academy.Store.Payments
use kingsway_academy.Auth.Service.{require_any_role}
use kingsway_academy.Academic.Steps.{and_then}
use kingsway_academy.Store.Indexes.{Indexes}
use kingsway_academy.Academic.Ways.{after_when, after_if_passed, after_with_value, after_and_then}
use kingsway_academy.Finance.Publishing.{model-IsUntouched, get_teacher_found}
use kingsway_academy.Finance.{
  CreateSalaryModelInput, create_salary_model, activate_pending, bad_amounts, publish, asked_model,
  Event,
}

-- The amounts of a model that is approved.
pub record HasSoundAmounts (s : SalaryModel) : Type 0 where
  pub fixed : s.model_type ≡ SalaryModelType.fixed → pos 1 ≤ℤ s.fixed_monthly_amount_cents
  pub percent :
      s.model_type ≡ SalaryModelType.percent
      → (pos 0 ≤ℤ s.student_percent_basis_points) × (s.student_percent_basis_points ≤ℤ pos 10000)
  pub hybrid :
      s.model_type ≡ SalaryModelType.hybrid
      → (pos 1 ≤ℤ s.fixed_monthly_amount_cents)
        × (pos 0 ≤ℤ s.student_percent_basis_points)
        × (s.student_percent_basis_points ≤ℤ pos 10000)
  pub known : (s' : String) → s.model_type ≢ SalaryModelType.other s'

-- What an approved model leaves: it is stored as it was asked for, and its teacher works.
pub record IsApproved (id : String) (actor : Principal) (model : SalaryModel) (m : Memory)
    : Type 0 where
  pub by_owner : is_owner actor ≡ true
  pub approver : model.approved_by_owner_user_id ≡ actor.user_id
  pub stored : lookup id m.salary_models ≡ some model
  pub sound : HasSoundAmounts model
  pub works :
      (t : Teacher) × (lookup model.teacher_id m.teachers ≡ some t)
      × (t.branch_id ≡ model.branch_id)
      × (t.status ≢ TeacherStatus.pending)

-- What an outcome that returns this model has approved.
abbrev Approves : String → Principal → SalaryModel → Outcome SalaryModel → Type 0
Approves id actor model o = o.0 ≡ ok model → IsApproved id actor model o.1

none_approved :
    {id : String} {actor : Principal} {model : SalaryModel} {m : Memory} (e : Error)
    → Approves id actor model (refuse e m)
none_approved e h = absurd (ground arith)

published_outcome :
    {A : Type 0} (has_events : Bool) (event : A → Event) (o : Outcome A)
    → (publish has_events event o).0 ≡ o
unfolding publish
published_outcome has_events event (ok a, m) = refl
published_outcome has_events event (err e, m) = refl

sound_input :
    (ts : Time) (id : String) (actor : Principal) (input : CreateSalaryModelInput)
    → salary_model_is_valid input.model_type ≡ true
    → bad_amounts input ≡ false
    → HasSoundAmounts (record (asked_model actor input) { id = id; created_at = ts })
unfolding bad_amounts salary_model_is_valid
sound_input ts id actor input valid good = record {
  fixed = λ e. ground arith;
  percent = λ e. ground arith;
  hybrid = λ e. ground arith;
  known = λ s e. ground arith;
}

owner_passed :
    (actor : Principal) → require_any_role actor (Role.owner ∷ []) ≡ ok tt → is_owner actor ≡ true
unfolding require_any_role is_owner
owner_passed actor h = ground arith

model_stored :
    (ts : Time) (id : String) (model row : SalaryModel) (m m' : Memory)
    → Payments.create_salary_model ts id model m ≡ (ok row, m')
    → (row ≡ record model { id = id; created_at = ts })
      × (m' ≡ record m { salary_models = insert id row m.salary_models })
unfolding Payments.create_salary_model with_row when◌fail◌from◌otherwise◌
model_stored ts id model row m m' h = (ground arith, ground arith)

-- The store after activate_pending.
abbrev after_activation : Time → Teacher → Memory → Memory
after_activation ts teacher m = record m {
  teachers =
      insert teacher.id (record teacher { status = TeacherStatus.active; updated_at = ts })
        m.teachers;
}

activation-cases :
    (ts : Time) (teacher : Teacher) (m m' : Memory) (u : Unit {0})
    → lookup teacher.id m.teachers ≡ some teacher
    → activate_pending ts teacher m ≡ (ok u, m')
    → (m' ≡ after_activation ts teacher m) ⊎ ((teacher.status ≢ TeacherStatus.pending) × (m' ≡ m))
unfolding activate_pending update_teacher with_row and_then
activation-cases ts teacher m m' u stored h = ground arith

-- The teacher works after activate_pending, and the salary models stay.
activated_works :
    (ts : Time) (teacher : Teacher) (m m' : Memory) (u : Unit {0})
    → lookup teacher.id m.teachers ≡ some teacher
    → activate_pending ts teacher m ≡ (ok u, m')
    → (m'.salary_models ≡ m.salary_models)
      × ((t : Teacher) × (lookup teacher.id m'.teachers ≡ some t)
          × (t.branch_id ≡ teacher.branch_id)
          × (t.status ≢ TeacherStatus.pending))
activated_works ts teacher m m' u stored h = elim (activation-cases ts teacher m m' u stored h) [
  | inl e ↦
      let row : Teacher = record teacher { status = TeacherStatus.active; updated_at = ts } in
      rw e (refl, (row, lookup_self teacher.id row m.teachers, refl, λ p. ground arith))
  | inr (busy, e) ↦ rw e (refl, (teacher, stored, refl, busy))
]

-- The model is stored and fits the teacher, who stands in the store.
record IsStored (id : String) (actor : Principal) (teacher : Teacher) (model : SalaryModel)
    (m : Memory) : Type 0 where
  approver : model.approved_by_owner_user_id ≡ actor.user_id
  stored : lookup id m.salary_models ≡ some model
  sound : HasSoundAmounts model
  of_teacher : model.teacher_id ≡ teacher.id
  of_branch : model.branch_id ≡ teacher.branch_id
  found : lookup teacher.id m.teachers ≡ some teacher

module _ (id : String) (actor : Principal) (model : SalaryModel)
    (by_owner : is_owner actor ≡ true) where
  stored-IsApproved :
      (ts : Time) (teacher : Teacher) (m m' : Memory) (u : Unit {0})
      → IsStored id actor teacher model m
      → activate_pending ts teacher m ≡ (ok u, m')
      → IsApproved id actor model m'
  stored-IsApproved ts teacher m m' u s e =
      let (kept, (t, there, same, works)) = activated_works ts teacher m m' u s.found e in
      record {
        by_owner = by_owner;
        approver = s.approver;
        stored = ap (lookup id) kept ∙ s.stored;
        sound = s.sound;
        works =
            (t, ap (λ k. lookup k m'.teachers) s.of_teacher ∙ there, same ∙ sym s.of_branch, works);
      }

  activated-IsApproved :
      (row : SalaryModel) (ts : Time) (teacher : Teacher) (m : Memory) (o : Outcome (Unit {0}))
      → activate_pending ts teacher m ≡ o
      → IsStored id actor teacher row m
      → Approves id actor model (and_then o λ done m'. (ok row, m'))
  unfolding and_then
  activated-IsApproved row ts teacher m (ok u, m') e s h =
      let same : row ≡ model = ground arith in
      stored-IsApproved ts teacher m m' u (subst (λ r. IsStored id actor teacher r m) same s) e
  activated-IsApproved row ts teacher m (err e', m') e s h = absurd (ground arith)

made-IsStored :
    (ts : Time) (id : String) (actor : Principal) (input : CreateSalaryModelInput) (m : Memory)
    (teacher : Teacher) (row : SalaryModel) (m' : Memory)
    → HasSoundAmounts (record (asked_model actor input) { id = id; created_at = ts })
    → lookup input.teacher_id m.teachers ≡ some teacher
    → teacher.id ≡ input.teacher_id
    → teacher.branch_id ≡ input.branch_id
    → Payments.create_salary_model ts id (asked_model actor input) m ≡ (ok row, m')
    → IsStored id actor teacher row m'
made-IsStored ts id actor input m teacher row m' sound found filed here made =
    let (is_row, is_store) = model_stored ts id (asked_model actor input) row m m' made in
    rw (is_store, is_row)
      record {
        approver = refl;
        stored = lookup_self id _ m.salary_models;
        sound = sound;
        of_teacher = sym filed;
        of_branch = sym here;
        found = subst (λ k. lookup k m.teachers ≡ some teacher) (sym filed) found;
      }

-- A salary model that CreateSalaryModel returns, in a store whose indexes are right, was approved by an
-- owner, is stored under its id, has sound amounts (a fixed one from 1 up, a share from 0 to 10000
-- basis points), and its teacher is of its branch and no longer pending.
pub create_salary_model-IsApproved :
    (has_events : Bool) (ts ts' : Time) (id : String) (actor : Principal)
    (input : CreateSalaryModelInput) (m : Memory) (model : SalaryModel)
    → Indexes m
    → (create_salary_model has_events ts ts' id actor input m).0.0 ≡ ok model
    → IsApproved id actor model (create_salary_model has_events ts ts' id actor input m).0.1
unfolding create_salary_model
create_salary_model-IsApproved has_events ts ts' id actor input m model x =
    subst (Approves id actor model) (sym (published_outcome _ _ _)) (
      after_if_passed (Approves id actor model) none_approved _ _ λ allowed.
        after_when (Approves id actor model) none_approved _ _ _ λ filled.
          after_with_value (Approves id actor model) none_approved _ _ λ teacher got.
            after_when (Approves id actor model) none_approved _ _ _ λ here.
              after_when (Approves id actor model) none_approved _ _ _ λ good.
                after_and_then (Approves id actor model) none_approved _ _
                  (model-IsUntouched ts id (asked_model actor input) m)
                  λ row m' made.
                    let found : lookup input.teacher_id m.teachers ≡ some teacher =
                      get_teacher_found input.teacher_id m teacher got in
                    let is_valid : salary_model_is_valid input.model_type ≡ true = ground arith in
                    let same : teacher.branch_id ≡ input.branch_id =
                      ground (arith, eq_iff teacher.branch_id input.branch_id) in
                    activated-IsApproved id actor model (owner_passed actor allowed) row ts' teacher
                      m' _ refl
                      (made-IsStored ts id actor input m teacher row m'
                        (sound_input ts id actor input is_valid good) found
                        (x.accounts.own _ teacher found) same made))
