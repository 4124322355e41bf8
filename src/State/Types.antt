-- ===== src/State/Types.antt =====
-- The data of the state file, of internal/state/store.go and schedules.go. Values are copied at every
-- boundary in the source (copyAction, copyMoney and the like), so records model them. A float64 is
-- its bit pattern: the package only stores it.
use lottery.Prelude.{ℕ, Bool, Option, List}
use lottery.Prelude.Text.{Text, codes}
use lottery.Prelude.Int.{ℤ}
use lottery.Prelude.Dict.{Dict}
use lottery.Prelude.Time.{Time}
use lottery.Account.{Record}
use lottery.Quota.Money.{Money}

abbrev pub Float : Type 0
Float = ℕ

abbrev pub supported_version : ℕ
supported_version = 4

pub record Cookie : Type 0 where
  pub name : Text
  pub value : Text
  pub path : Text
  pub domain : Text
  pub expires : Time
  pub secure : Bool
  pub http_only : Bool

pub record AuthState : Type 0 where
  pub user_id : ℤ
  pub parent_access_token : Text
  pub parent_access_expires_at : Time
  pub lottery_access_token : Text
  pub lottery_access_expires_at : Time
  pub cookies : List Cookie
  pub updated_at : Time

abbrev pub action_checkin : Text
action_checkin = codes "checkin"

abbrev pub action_daily_claim : Text
action_daily_claim = codes "daily_claim"

abbrev pub action_draw_purchase : Text
action_draw_purchase = codes "draw_purchase"

abbrev pub action_pass_unlock : Text
action_pass_unlock = codes "pass_unlock"

abbrev pub action_pending : Text
action_pending = codes "pending"

abbrev pub action_completed : Text
action_completed = codes "completed"

abbrev pub action_failed : Text
action_failed = codes "failed"

abbrev pub action_unknown : Text
action_unknown = codes "unknown"

pub record DrawSummary : Type 0 where
  pub draw_id : Text
  pub prize_id : Text
  pub prize_label : Text
  pub prize_short_label : Text
  pub draw_status : Text
  pub fulfillment_status : Text
  pub fulfillment_message : Text
  pub effect_summary : Text
  pub quota_delta : Float
  pub expires_at : Time

pub record Action : Type 0 where
  pub key : Text
  pub account_id : Text
  pub date : Text
  pub kind : Text
  pub idempotency_key : Text
  pub status : Text
  pub attempts : ℤ
  pub side_effect_started : Bool
  pub retryable : Bool
  pub price_usd : Option Money
  pub claim_before_remaining : Option ℤ
  pub claim_after_remaining : Option ℤ
  pub purchase_before_today : Option ℤ
  pub purchase_before_remaining : Option ℤ
  pub pass_before_unlocked : Option Bool
  pub checkin_quota_awarded : Option Float
  pub checkin_quota_awarded_usd : Option Money
  pub message : Text
  pub last_error : Text
  pub result : Option DrawSummary
  pub created_at : Time
  pub updated_at : Time

-- `content` is the raw JSON message, as its text.
pub record Snapshot : Type 0 where
  pub account_id : Text
  pub kind : Text
  pub content : Text
  pub queried_at : Time

abbrev pub plan_pending : Text
plan_pending = codes "pending"

abbrev pub plan_running : Text
plan_running = codes "running"

abbrev pub plan_completed : Text
plan_completed = codes "completed"

abbrev pub plan_skipped : Text
plan_skipped = codes "skipped"

abbrev pub plan_failed : Text
plan_failed = codes "failed"

pub record AutoDrawPlan : Type 0 where
  pub key : Text
  pub date : Text
  pub account_id : Text
  pub window_id : Text
  pub task_type : Text
  pub planned_at : Time
  pub idempotency_key : Text
  pub status : Text
  pub executed_at : Time
  pub message : Text
  pub prize_label : Text
  pub quota_delta_usd : Option Money
  pub note : Text
  pub created_at : Time
  pub updated_at : Time

pub record RuntimeLog : Type 0 where
  pub id : Text
  pub occurred_at : Time
  pub account_id : Text
  pub window_id : Text
  pub task_type : Text
  pub status : Text
  pub message : Text
  pub prize_label : Text
  pub quota_delta_usd : Option Money

-- `until` is the field End.
pub record AutoDrawSchedule : Type 0 where
  pub id : Text
  pub kind : Text
  pub start : Text
  pub until : Text
  pub task_type : Text
  pub enabled : Bool
  pub enabled_set : Bool

pub record DiskState : Type 0 where
  pub version : ℕ
  pub accounts : Dict Record
  pub auth_health : Dict Text
  pub legacy_auth : Dict AuthState
  pub draw_schedules : Dict (List AutoDrawSchedule)
  pub account_id_seq : Text
  pub actions : Dict Action
  pub snapshots : Dict Snapshot
  pub plans : Dict AutoDrawPlan
  pub logs : List RuntimeLog

-- The version-3 file, where `accounts` held authentication state.
pub record DiskStateV3 : Type 0 where
  pub version : ℕ
  pub accounts : Dict AuthState
  pub actions : Dict Action
  pub snapshots : Dict Snapshot
  pub plans : Dict AutoDrawPlan
  pub logs : List RuntimeLog

-- What stands at the state path: JSON of either shape, or a reason why none can be read.
pub data Payload : Type 0 where
  absent malformed : Payload
  unreadable : Text → Payload
  v3 : DiskStateV3 → Payload
  v4 : DiskState → Payload

-- The store's data in memory, and the file. Each operation holds the mutex from start to end, so it
-- is one step on this state.
pub record Store : Type 0 where
  pub content : DiskState
  pub file : Payload
