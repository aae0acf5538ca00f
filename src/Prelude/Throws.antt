-- ===== src/Prelude/Throws.antt =====
-- A thrown `AppError` by its code, a fallible value, and the nullish fields of an object.
use mathlib.Core.Path.{◌≡◌, refl}
use mathlib.Core.Logic.{◌⊎◌, inl, inr}
use mathlib.Core.Bool.{Bool, true, false}
use mathlib.Core.Option.{Option, none, some}

pub data Code : Type 0 where
  instance_lifecycle_mismatch instance_assignment_required instance_assignment_invalid : Code
  instance_inactive : Code
  group_send_disabled group_safe_mode_required group_unavailable group_not_authorized : Code
  group_paused group_instance_mismatch group_identity_mismatch group_id_invalid : Code
  submission_persistence_conflict run_finalization_conflict : Code
  execution_ownership_lost schedule_revision_stale unique_violation : Code
  outbox_reconciliation_required : Code
  schedule_invalid schedule_revision_conflict number_not_stored resume_confirmation_required
        resume_cas_required window_not_found invalid_date resume_conflict loop_unfinished :
      Code

-- What a function returns, or the code of what it throws.
pub data Result {ℓ} (T : Type ℓ) : Type ℓ where
  err : Code → Result T
  ok : T → Result T

-- The value goes on to the next statement; a thrown error ends the function.
infixl 5 ◌>>=◌ ◌>>◌
abbrev pub ◌>>=◌ {ℓ κ} : {T : Type ℓ} {U : Type κ} → Result T → (T → Result U) → Result U
err thrown >>= next = err thrown
ok result >>= next = next result

-- After a statement that has no value.
abbrev pub ◌>>◌ {κ} : {U : Type κ} → Result (Unit {0}) → Result U → Result U
check >> rest = check >>= λ done. rest

-- `if (test) throw`.
abbrev pub throw_if : Bool → Code → Result (Unit {0})
throw_if true c = err c
throw_if false c = ok tt

abbrev pub is_ok {ℓ} : {A : Type ℓ} → Result A → Bool
is_ok (ok a) = true
is_ok (err c) = false

-- A function that returned got through its first statement, and the rest returned.
pub returned {ℓ κ} :
    {T : Type ℓ} {U : Type κ} {u : U} (first : Result T) (next : T → Result U)
    → (first >>= next) ≡ ok u
    → (t : T) × (first ≡ ok t) × (next t ≡ ok u)
returned (err thrown) next h = cc
returned (ok t) next h = (t, refl, h)

pub Result-cases {ℓ} :
    {A : Type ℓ} (r : Result A) → ((a : A) × (r ≡ ok a)) ⊎ ((c : Code) × (r ≡ err c))
Result-cases (ok a) = inl (a, refl)
Result-cases (err c) = inr (c, refl)

-- A field that may be absent, null, or hold a value.
pub data Nullish {ℓ} (A : Type ℓ) : Type ℓ where
  undefined null : Nullish A
  value : A → Nullish A

-- `x ?? null`.
abbrev pub or_null {ℓ} : {A : Type ℓ} → Nullish A → Option A
or_null undefined = none
or_null null = none
or_null (value a) = some a

-- `x ?? d`.
abbrev pub or_else {ℓ} : {A : Type ℓ} → Option A → A → A
or_else none d = d
or_else (some a) d = a

-- `x === true`, for a field that may be absent.
abbrev pub is_true : Option Bool → Bool
is_true (some true) = true
is_true _ = false

abbrev pub is_some {ℓ} : {A : Type ℓ} → Option A → Bool
is_some none = false
is_some (some a) = true
