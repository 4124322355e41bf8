-- ===== src/Website.antt =====
-- The answers of the website and their errors, of internal/lottery/client.go.
use lottery.Prelude.{ℕ, Bool, true, false, ◌||◌, Option, none, some, List, ◌==◌, leb, if◌then◌else◌}
use lottery.Prelude.Text.{Text, is_empty, trim_space}
use lottery.Prelude.Int.{ℤ}
use lottery.Prelude.Dict.{Dict}
use lottery.Prelude.Float.{Real}
use lottery.Prelude.Result.{Error}
use lottery.State.Types.{Float}

-- An error by its cause, with the text that its method Error gives. `api` is an APIError under its
-- HTTP status, `reauth_required` wraps ErrReauthRequired of the authentication broker,
-- `auth_unavailable` its ErrAuthUnavailable, and `canceled`
-- and `timed_out` wrap the errors of a context.
pub data Fault : Type 0 where
  api : ℕ → Text → Fault
  reauth_required auth_unavailable canceled timed_out other : Text → Fault
  from_store : Error → Fault

-- IsStatus
unfoldable pub is_status : Fault → ℕ → Bool
is_status (api status text) code = status == code
is_status (reauth_required text) code = false
is_status (canceled text) code = false
is_status (timed_out text) code = false
is_status (other text) code = false
is_status (auth_unavailable text) code = false
is_status (from_store why) code = false

-- IsTransient
unfoldable pub is_transient : Fault → Bool
is_transient (api status text) = status == 429 || leb 500 status
is_transient (reauth_required text) = true
is_transient (canceled text) = true
is_transient (timed_out text) = true
is_transient (other text) = true
is_transient (auth_unavailable text) = true
is_transient (from_store why) = true

pub record DrawLimit : Type 0 where
  pub free_limit : Option ℤ
  pub unlocked : Option Bool
  pub free_used : Option ℤ
  pub daily_used : Option ℤ
  pub earned_remaining : Option ℤ
  pub purchased_remaining : Option ℤ
  pub remaining : Option ℤ
  pub locked_remaining : Option ℤ
  pub unlock_cost : Option ℤ
  pub status : Text
  pub day_key : Text

pub record DashboardEligibility : Type 0 where
  pub remaining : Option ℤ
  pub spend_bonus_draws : Option ℤ
  pub today_spend : Option Float
  pub daily_used : Option ℤ
  pub draw_limit : DrawLimit

-- A value of type any in a decoded object, by the type that it holds: one of the signed integers, one
-- of the unsigned ones, a float, or what is no number. Decoding makes floats of all JSON numbers.
pub data Any : Type 0 where
  int_value : ℤ → Any
  uint_value : ℕ → Any
  float_value : Real → Any
  other_value : Any

-- The fields that the program computes with; `spend_tiers` stands under `rules` in the source, and the
-- history is passed on.
pub record Dashboard : Type 0 where
  pub eligibility : DashboardEligibility
  pub bonus_draws : Option ℤ
  pub spend_tiers : List (Dict Any)
  pub lucky : Dict Any
  pub purchase : Dict Any
  pub draw_limit : DrawLimit

abbrev pub first_given {ℓ} : {A : Type ℓ} → Option A → Option A → Option A
first_given (some a) fallback = some a
first_given none fallback = fallback

unfoldable pub given_text : Text → Text → Text
given_text text fallback = if is_empty (trim_space text) then fallback else text

-- mergeDrawLimit
unfoldable pub merge_draw_limit : DrawLimit → DrawLimit → DrawLimit
merge_draw_limit destination fallback = record {
  free_limit = first_given destination.free_limit fallback.free_limit;
  unlocked = first_given destination.unlocked fallback.unlocked;
  free_used = first_given destination.free_used fallback.free_used;
  daily_used = first_given destination.daily_used fallback.daily_used;
  earned_remaining = first_given destination.earned_remaining fallback.earned_remaining;
  purchased_remaining = first_given destination.purchased_remaining fallback.purchased_remaining;
  remaining = first_given destination.remaining fallback.remaining;
  locked_remaining = first_given destination.locked_remaining fallback.locked_remaining;
  unlock_cost = first_given destination.unlock_cost fallback.unlock_cost;
  status = given_text destination.status fallback.status;
  day_key = given_text destination.day_key fallback.day_key;
}

-- Dashboard.EffectiveDrawLimit; the Bool of the source is whether `remaining` is given.
unfoldable pub effective_draw_limit : Dashboard → DrawLimit
effective_draw_limit dashboard =
    let merged = merge_draw_limit dashboard.draw_limit dashboard.eligibility.draw_limit in
    record merged {
      remaining = first_given merged.remaining dashboard.eligibility.remaining;
      daily_used =
          first_given (first_given merged.daily_used dashboard.eligibility.daily_used)
            merged.free_used;
    }

-- Dashboard.Remaining
unfoldable pub remaining_draws : Dashboard → Option ℤ
remaining_draws dashboard = (effective_draw_limit dashboard).remaining

-- Dashboard.SpendBonusDraws
unfoldable pub spend_bonus_draws : Dashboard → Option ℤ
spend_bonus_draws dashboard =
    first_given dashboard.eligibility.spend_bonus_draws dashboard.bonus_draws

pub record ClaimResult : Type 0 where
  pub success : Bool
  pub message : Text
  pub dashboard : Option Dashboard

pub record OperationResult : Type 0 where
  pub status : Text

pub record CheckinStatus : Type 0 where
  pub checked_in_today : Bool
  pub today_quota_awarded : Option Float

pub record CheckinEligibility : Type 0 where
  pub can_checkin : Bool
  pub remaining : Real
  pub required : Real

pub record CheckinResult : Type 0 where
  pub success : Bool
  pub message : Text
  pub quota_awarded : Float

-- The setting that amounts are converted with; the others are passed on.
pub record StatusSettings : Type 0 where
  pub quota_per_unit : Real

-- A draw: the labels of its prize are all that the scheduler shows of it, and the two amounts are
-- those that its reward is computed from.
pub record DrawResult : Type 0 where
  pub label : Text
  pub short_label : Text
  pub quota_amount : Real
  pub quota_delta : Real
