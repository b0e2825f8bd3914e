-- ===== src/Common/Error.antt =====
-- code/common/errors.py, and the subclasses that the modelled components declare.
use hld_lld_interview_handbo.Prelude.{Bool, true, false, ◌≡◌, refl, ◌⊎◌, inl, inr}

pub data Error : Type 0 where
  validation not_found conflict invalid_state value_error : Error
  no_transaction transaction_conflict key_missing value_type : Error
  fencing key_error index_error clock_drift node_down : Error

-- The subclasses of `HandbookError`; the others are Python's own.
abbrev pub is_handbook : Error → Bool
is_handbook value_error = false
is_handbook key_error = false
is_handbook index_error = false
is_handbook _ = true

-- What a call ends with: its value, or the class of the exception that it raises.
pub data Result (A : Type 0) : Type 0 where
  ok : A → Result A
  err : Error → Result A

pub Result-cases :
    {A : Type 0} (r : Result A) → ((a : A) × (r ≡ ok a)) ⊎ ((e : Error) × (r ≡ err e))
Result-cases (ok a) = inl (a, refl)
Result-cases (err e) = inr (e, refl)

infixl 5 ◌>>=◌
abbrev pub ◌>>=◌ : {A B : Type 0} → Result A → (A → Result B) → Result B
ok a >>= f = f a
err e >>= f = err e
