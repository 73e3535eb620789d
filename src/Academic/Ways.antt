-- ===== src/Academic/Ways.antt =====
-- The ways through a function of a service: a statement about its outcome that holds of every
-- refusal follows from that statement about what comes after the tests.
use kingsway_academy.Base.{◌≡◌, refl, subst, sym, Bool, true, false, Option, none, some}
use kingsway_academy.Domain.{Error, Result, ok, err}
use kingsway_academy.Store.State.{
  when◌fail◌from◌otherwise◌, Memory, Outcome, if_passed, with_value, with_row, refuse,
}
use kingsway_academy.Academic.Steps.{and_then}

module _ {A : Type 0} {m : Memory} (Q : Outcome A → Type 0)
    (refused : (e : Error) → Q (refuse e m)) where
  pub after_when :
      (b : Bool) (e : Error) (rest : Outcome A)
      → (b ≡ false → Q rest)
      → Q (when b fail e from m otherwise rest)
  unfolding when◌fail◌from◌otherwise◌
  after_when true e rest k = refused e
  after_when false e rest k = k refl

  pub after_if_passed :
      (checks : Result (Unit {0})) (rest : Outcome A)
      → (checks ≡ ok tt → Q rest)
      → Q (if_passed checks m rest)
  unfolding if_passed
  after_if_passed (ok tt) rest k = k refl
  after_if_passed (err e) rest k = refused e

  pub after_with_value :
      {V : Type 0} (r : Result V) (rest : V → Outcome A)
      → ((v : V) → r ≡ ok v → Q (rest v))
      → Q (with_value r m rest)
  unfolding with_value
  after_with_value (ok v) rest k = k v refl
  after_with_value (err e) rest k = refused e

  pub after_with_row :
      {V : Type 0} (o : Option V) (rest : V → Outcome A)
      → ((v : V) → o ≡ some v → Q (rest v))
      → Q (with_row o m rest)
  unfolding with_row
  after_with_row (some v) rest k = k v refl
  after_with_row none rest k = refused _

  pub after_and_then :
      {V : Type 0} (o : Outcome V) (rest : V → Memory → Outcome A)
      → ((e : Error) → o.0 ≡ err e → o.1 ≡ m)
      → ((v : V) (m' : Memory) → o ≡ (ok v, m') → Q (rest v m'))
      → Q (and_then o rest)
  unfolding and_then
  after_and_then (err e, m') rest same k = subst (λ n. Q (err e, n)) (sym (same e refl)) (refused e)
  after_and_then (ok v, m') rest same k = k v m' refl
