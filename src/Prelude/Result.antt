-- ===== src/Prelude/Result.antt =====
-- A Go call that returns a value and an error, and the errors of the modelled packages.
use mathlib.Core.Path.{◌≡◌, refl}
use mathlib.Core.Logic.{◌⊎◌, inl, inr}
use mathlib.Core.Bool.{Bool, true, false}
use mathlib.Core.Option.{Option, none, some}
use lottery.Prelude.Text.{Text}

-- The errors by cause; the wording of their messages is not modelled.
pub data Error : Type 0 where
  -- package account
  not_found duplicate_remote_user invalid_id label_required label_too_long : Error
  login_name_spaces login_name_unmasked status_unsupported negative_remote_user : Error
  -- package state
  required action_not_found plan_not_found already_exists ids_exhausted : Error
  not_retryable not_repeatable side_effect_started : Error
  invalid_status status_required finish_not_terminal already_finished postpone_time_required : Error
  invalid_date key_mismatch too_long : Error
  too_many_schedules invalid_task_type invalid_kind invalid_clock end_given : Error
  window_order duplicate_schedule_id newer_version undecodable : Error
  -- package quota
  blank not_a_number out_of_range negative_amount not_positive : Error
  -- what an operating system call reported
  io : Text → Error

pub data Result {ℓ} (A : Type ℓ) : Type ℓ where
  ok : A → Result A
  err : Error → Result A

-- The steps after one that may fail.
infixl 5 ◌>>=◌ ◌>>◌
abbrev pub ◌>>=◌ {ℓ κ} : {X : Type ℓ} {Y : Type κ} → Result X → (X → Result Y) → Result Y
err why >>= rest = err why
ok x >>= rest = rest x

abbrev pub ◌>>◌ {ℓ} : {Y : Type ℓ} → Result (Unit {0}) → Result Y → Result Y
check >> rest = check >>= λ _. rest

abbrev pub reject_if : Bool → Error → Result (Unit {0})
reject_if true e = err e
reject_if false e = ok tt

abbrev pub or_fail {ℓ} : {A : Type ℓ} → Option A → Error → Result A
or_fail none e = err e
or_fail (some a) e = ok a

pub Result-cases {ℓ} :
    {A : Type ℓ} (r : Result A) → ((a : A) × (r ≡ ok a)) ⊎ ((e : Error) × (r ≡ err e))
Result-cases (ok a) = inl (a, refl)
Result-cases (err e) = inr (e, refl)
