-- ===== src/Base/Failures.antt =====
-- The failures of an operation: the SQLSTATE of a refused statement, or an exception of the
-- services. A request's transaction rolls back on every failure, so a failed operation has no new
-- state.
use mathlib.Core.Path.{◌≡◌, refl}
use mathlib.Core.Logic.{◌⊎◌, inl, inr}
use mathlib.Core.Bool.{Bool, true, false}

-- SQLSTATE: 42501, P0002, P0001, 40001, 40P01, 23505, 23502, 23503, 23514, 22003 and 22008.
pub data SqlState : Type 0 where
  insufficient_privilege no_data_found raise_exception serialization_failure deadlock_detected :
      SqlState
  unique_violation not_null_violation foreign_key_violation check_violation : SqlState
  numeric_out_of_range datetime_overflow : SqlState

pub data Failure : Type 0 where
  sql : SqlState → Failure
  lifecycle_invalid : Failure
  asset_not_found asset_conflict asset_invalid : Failure
  evidence_not_found evidence_conflict evidence_invalid evidence_storage : Failure
  receiving_not_found receiving_conflict receiving_invalid : Failure
  procurement_not_found procurement_conflict procurement_invalid : Failure
  space_not_found space_conflict space_invalid space_hierarchy_invalid : Failure
  label_not_found label_conflict output_unavailable : Failure
  validation_error value_error : Failure

-- What an operation returns: its failure, or its value.
pub data Result {ℓ} (A : Type ℓ) : Type ℓ where
  err : Failure → Result A
  ok : A → Result A

-- What a result holds, `z` where it is an error.
abbrev pub value_or {ℓ} : {A : Type ℓ} → A → Result A → A
value_or z (ok a) = a
value_or z (err _) = z

-- A condition that an operation checks, and the failure where it does not hold.
abbrev pub guard : Bool → Failure → Result (Unit {0})
guard false failure = err failure
guard true failure = ok tt

infixl 5 ◌>>◌ ◌>>=◌
-- The rest of an operation is not run after a failure.
abbrev pub ◌>>=◌ {ℓ κ} :
    {A : Type ℓ} {B : Type κ} → (first : Result A) → (rest : A → Result B) → Result B
err failure >>= rest = err failure
ok value >>= rest = rest value

abbrev pub ◌>>◌ {ℓ} : {B : Type ℓ} → (first : Result (Unit {0})) → (rest : Result B) → Result B
first >> rest = first >>= λ done. rest

-- A sequence that succeeds: its first part did, and its rest on what that returned.
pub >>=-eq-ok {ℓ κ} :
    {A : Type ℓ} {B : Type κ} (first : Result A) (rest : A → Result B) {result : B}
    → (first >>= rest) ≡ ok result
    → (value : A) × (first ≡ ok value) × (rest value ≡ ok result)
>>=-eq-ok (err failure) rest succeeded = cc
>>=-eq-ok (ok value) rest succeeded = (value, refl, succeeded)

pub guard-eq-ok {ℓ} :
    {B : Type ℓ} (t : Bool) (e : Failure) (k : Result B) {b : B}
    → (guard t e >> k) ≡ ok b
    → (t ≡ true) × (k ≡ ok b)
guard-eq-ok true e k h = (refl, h)
guard-eq-ok false e k h = cc

pub Result-cases {ℓ} :
    {A : Type ℓ} → (m : Result A) → ((a : A) × (m ≡ ok a)) ⊎ ((e : Failure) × (m ≡ err e))
Result-cases (ok a) = inl (a, refl)
Result-cases (err e) = inr (e, refl)

pub ok_same {ℓ} : {A : Type ℓ} (a b : A) → ok a ≡ ok b → a ≡ b
ok_same a b h = cc h
