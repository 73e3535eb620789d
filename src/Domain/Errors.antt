-- ===== src/Domain/Errors.antt =====
-- errors.go, and the `(value, error)` pair that every Go function returns.
use kingsway_academy.Base.{Bool, true, false, ◌≡◌, ◌⊎◌, inl, inr, refl, arith}

-- `weak_secret` and `invalid_token` are declared beside the tokens in auth/token.go, `invalid_fin`
-- beside the FIN. `external` is any error of code outside the repository.
pub data Error : Type 0 where
  conflict forbidden invalid_input not_found unauthorized : Error
  invalid_fin weak_secret invalid_token : Error
  external : Error

pub data Result {ℓ} (A : Type ℓ) : Type ℓ where
  err : Error → Result A
  ok : A → Result A

infixl 5 ◌>>=◌ ◌>>◌
abbrev pub ◌>>=◌ {ℓ κ} : {A : Type ℓ} {B : Type κ} → Result A → (A → Result B) → Result B
(err e) >>= next = err e
(ok value) >>= next = next value

abbrev pub ◌>>◌ {ℓ} : {B : Type ℓ} → Result (Unit {0}) → Result B → Result B
check >> rest = check >>= λ passed. rest

-- `if test { return …, e }`
abbrev pub refuse_if : Bool → Error → Result (Unit {0})
refuse_if true e = err e
refuse_if false e = ok tt

-- A check has passed or failed.
pub Result-cases : (r : Result (Unit {0})) → (r ≡ ok tt) ⊎ ((e : Error) × (r ≡ err e))
Result-cases (ok tt) = inl refl
Result-cases (err e) = inr (e, refl)

-- Of two checks in a row, the first has passed if both have.
pub first_passed : (a b : Result (Unit {0})) → (a >> b) ≡ ok tt → a ≡ ok tt
first_passed a b h = ground arith

-- A result is a value or an error.
pub ok_or_err {ℓ} :
    {A : Type ℓ} (r : Result A) → ((a : A) × (r ≡ ok a)) ⊎ ((e : Error) × (r ≡ err e))
ok_or_err (ok a) = inl (a, refl)
ok_or_err (err e) = inr (e, refl)
