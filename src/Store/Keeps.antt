-- ===== src/Store/Keeps.antt =====
-- Rules for the tests and lookups that a method of the store is made of: a statement about what the
-- method leaves behind follows from that statement about each way out.
use kingsway_academy.Base.{◌≡◌, refl, Bool, true, false, Option, none, some}
use kingsway_academy.Domain.{Error, Result, ok, err}
use kingsway_academy.Store.State.{
  when◌fail◌from◌otherwise◌, when◌fail◌from◌otherwise◌, Memory, Outcome, if_passed, with_value,
  refuse, with_row,
}

-- The store that is left behind satisfies `I`.
pub record Keeps {A : Type 0} (I : Memory → Type 0) (o : Outcome A) : Type 0 where
  pub kept : I o.1

module _ {A : Type 0} {I : Memory → Type 0} where
  pub keeps_refuse : {e : Error} {m : Memory} → I m → Keeps I (refuse {A = A} e m)
  keeps_refuse h = record { kept = h }

  pub keeps_when :
      (b : Bool) (e : Error) (m : Memory) (rest : Outcome A)
      → I m
      → (b ≡ false → Keeps I rest)
      → Keeps I (when b fail e from m otherwise rest)
  unfolding when◌fail◌from◌otherwise◌
  keeps_when true e m rest h k = keeps_refuse h
  keeps_when false e m rest h k = k refl

  pub keeps_with_row :
      {V : Type 0} (o : Option V) (m : Memory) (rest : V → Outcome A)
      → I m
      → ((v : V) → o ≡ some v → Keeps I (rest v))
      → Keeps I (with_row o m rest)
  unfolding with_row
  keeps_with_row none m rest h k = keeps_refuse h
  keeps_with_row (some v) m rest h k = k v refl

  pub keeps_if_passed :
      (checks : Result (Unit {0})) (m : Memory) (rest : Outcome A)
      → I m
      → (checks ≡ ok tt → Keeps I rest)
      → Keeps I (if_passed checks m rest)
  unfolding if_passed
  keeps_if_passed (ok tt) m rest h k = k refl
  keeps_if_passed (err e) m rest h k = keeps_refuse h

  pub keeps_ok : {r : Result A} {m : Memory} → I m → Keeps I (r, m)
  keeps_ok h = record { kept = h }

  pub keeps_with_value :
      {V : Type 0} (r : Result V) (m : Memory) (rest : V → Outcome A)
      → I m
      → ((v : V) → r ≡ ok v → Keeps I (rest v))
      → Keeps I (with_value r m rest)
  unfolding with_value
  keeps_with_value (ok v) m rest h k = k v refl
  keeps_with_value (err e) m rest h k = keeps_refuse h

-- The ways through a method, for `search`.
pub ruleset ways_out =
    (keeps_when, keeps_with_row, keeps_if_passed, keeps_with_value, keeps_refuse, keeps_ok)
