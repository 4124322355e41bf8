-- ===== src/Service/AutoDraw/Checkin.antt =====
-- The automatic check-in of internal/service/auto_draw.go.
pub mod Postponed
pub mod Outcome
use lottery.Prelude.{
  ℕ, ◌+◌, ◌-◌, ◌*◌, ◌/◌, ◌%◌, Bool, true, false, ◌&&◌, ◌||◌, not, Option, none, some, List, [], ◌∷◌,
  ◌++◌, ltb, leb, ◌==◌, if◌then◌else◌,
}
use lottery.Prelude.Text.{Text, codes, text_eq, trim_space, contains}
use lottery.Prelude.Time.{Time}
use lottery.Prelude.Numeral.{split, two_digits}
use lottery.Prelude.Result.{Result, ok, err}
use lottery.Quota.Money.{Money}
use lottery.State.Types.{
  Action, AutoDrawPlan, RuntimeLog, Store, action_completed, action_failed, action_unknown,
  plan_completed, plan_skipped, plan_failed,
}
use lottery.State.Persist.{Env}
use lottery.State.Display.{normalize_task_type, task_checkin}
use lottery.State.Plans.{finish_auto_draw_plan, postpone_auto_draw_plan}
use lottery.State.Logs.{append_runtime_log}
use lottery.Website.{
  Fault, api, reauth_required, auth_unavailable, canceled, timed_out, other, from_store,
}
use lottery.Service.{Reply, reply, fault, ActionOutcome, first_non_empty}
use lottery.Service.AutoDraw.{second}

abbrev pub hour : Time
hour = 3600 * second

abbrev pub day_length : Time
day_length = 24 * hour

-- The time of the day in Shanghai, and the number of the day.
unfoldable pub time_of_day : Time → Time
time_of_day t = (t + 8 * hour) % day_length

unfoldable pub day_number : Time → ℕ
day_number t = (t + 8 * hour) / day_length

-- t.Truncate(24 * time.Hour), which counts from Go's zero time in UTC.
unfoldable pub truncate_day : Time → Time
truncate_day t = t / day_length * day_length

-- The test of postponeCheckinPlan. Within an hour the day of the month changes just when the day
-- does.
unfoldable pub gives_up : Time → Bool
gives_up now =
    let next = now + hour in
    not (day_number next == day_number now) || leb (truncate_day (now + day_length)) next

-- planAccountID and planWindowID: a part of a key that has three.
unfoldable pub plan_account_id : List Text → Text
plan_account_id (date ∷ window ∷ account ∷ []) = account
plan_account_id _ = []

unfoldable pub plan_window_id : List Text → Text
plan_window_id (date ∷ window ∷ account ∷ []) = window
plan_window_id _ = []

-- The log entry of a plan that has ended.
unfoldable pub finished_log : AutoDrawPlan → RuntimeLog
finished_log finished = record {
  id = [];
  occurred_at = finished.executed_at;
  account_id = finished.account_id;
  window_id = finished.window_id;
  task_type = normalize_task_type finished.task_type;
  status = finished.status;
  message = finished.message;
  prize_label = finished.prize_label;
  quota_delta_usd = finished.quota_delta_usd;
}

-- AutoDrawScheduler.recordCheckinAttempt, which ignores a failed write.
unfoldable pub record_checkin_attempt : Env → Result AutoDrawPlan × Store → Store
record_checkin_attempt e (err why, s) = s
record_checkin_attempt e (ok finished, s) = (append_runtime_log e (finished_log finished) s).1

-- A plan that is finished and logged, in two calls of the store.
unfoldable pub finish_checkin :
    (ℕ → Env) → Text → Text → Text → Text → Option Money → Time → Store → Store
finish_checkin env key status message prize delta executed_at s =
    record_checkin_attempt (env 1)
      (finish_auto_draw_plan (env 0) key status message prize delta executed_at s)

unfoldable pub postponed_log : Text → Time → Text → RuntimeLog
postponed_log key now note = record {
  id = [];
  occurred_at = now;
  account_id = plan_account_id (split b':' key);
  window_id = plan_window_id (split b':' key);
  task_type = task_checkin;
  status = plan_skipped;
  message = note;
  prize_label = [];
  quota_delta_usd = none;
}

unfoldable pub log_postponed : Env → RuntimeLog → Result AutoDrawPlan × Store → Store
log_postponed e entry (err why, s) = s
log_postponed e entry (ok plan, s) = (append_runtime_log e entry s).1

unfoldable pub retry_note : Text → Time → Text
retry_note reason next =
    first_non_empty reason (codes "活跃度不足")
    ++ codes "（延后至 "
    ++ two_digits (time_of_day next / hour)
    ++ b':' ∷ two_digits (time_of_day next % hour / (60 * second))
    ++ codes " 重试）"

-- AutoDrawScheduler.postponeCheckinPlan
unfoldable pub postpone_checkin_plan : (ℕ → Env) → Text → Text → Time → Store → Store
postpone_checkin_plan env key reason now s =
    if gives_up now
    then finish_checkin env key plan_skipped
        (first_non_empty reason (codes "活跃度不足") ++ codes "，已过当日 0 点，自动签到跳过") [] none now s
    else (let note = retry_note reason (now + hour) in
        log_postponed (env 1) (postponed_log key now note)
          (postpone_auto_draw_plan (env 0) key (now + hour) note s))

unfoldable pub three_digits : ℕ → Text
three_digits n = (b'0' + n / 100 % 10) ∷ (b'0' + n / 10 % 10) ∷ (b'0' + n % 10) ∷ []

-- autoDrawFailureMessage
unfoldable pub auto_draw_failure_message : Fault → Text
auto_draw_failure_message (timed_out text) = codes "抽奖请求超时"
auto_draw_failure_message (canceled text) = codes "抽奖任务已取消"
auto_draw_failure_message (api status text) =
    if leb 400 status && leb status 599
    then codes "抽奖接口返回 HTTP " ++ three_digits status
    else codes "抽奖服务请求失败"
auto_draw_failure_message (reauth_required text) = codes "抽奖服务请求失败"
auto_draw_failure_message (other text) = codes "抽奖服务请求失败"
auto_draw_failure_message (auth_unavailable text) = codes "抽奖服务请求失败"
auto_draw_failure_message (from_store why) = codes "抽奖服务请求失败"

abbrev pub reauth_marker : Text
reauth_marker = codes "explicit reauthentication required"

-- actionRequiresReauth
unfoldable pub action_requires_reauth : ActionOutcome → Bool
action_requires_reauth outcome =
    text_eq outcome.action.status action_failed
    && (contains outcome.action.message reauth_marker
        || contains outcome.action.last_error reauth_marker)

-- The readings of the environment and of the clock in one execution, and whether the service is
-- stopping (parent.Err() != nil).
pub record Attempt : Type 0 where
  pub env : ℕ → Env
  pub clock : ℕ → Time
  pub stopping : Bool

abbrev pub reauth_note : Text
reauth_note = codes "登录状态失效，需要重新认证，已跳过本次自动签到"

-- executeCheckinPlan after a check-in that gave a fault.
unfoldable pub checkin_faulted : Attempt → Text → Fault → Store → Store
checkin_faulted a key (reauth_required text) s =
    finish_checkin a.env key plan_skipped reauth_note [] none (a.clock 0) s
checkin_faulted a key (canceled text) s =
    if a.stopping
    then s
    else finish_checkin a.env key plan_failed (auto_draw_failure_message (canceled text)) [] none
        (a.clock 0) s
checkin_faulted a key why s =
    finish_checkin a.env key plan_failed (auto_draw_failure_message why) [] none (a.clock 0) s

-- executeCheckinPlan after a check-in that gave an outcome.
unfoldable pub checkin_answered : Attempt → Text → ActionOutcome → Store → Store
checkin_answered a key outcome s =
    let message = trim_space outcome.action.message in
    let status = outcome.action.status in
    if text_eq status action_failed && action_requires_reauth outcome
    then finish_checkin a.env key plan_skipped reauth_note [] none (a.clock 0) s
    else if text_eq status action_failed && contains message (codes "活跃度不足")
    then postpone_checkin_plan a.env key message (a.clock 1) s
    else if text_eq status action_completed
    then finish_checkin a.env key plan_completed (codes "自动签到成功") (codes "签到奖励")
        outcome.action.checkin_quota_awarded_usd (a.clock 0) s
    else if text_eq status action_unknown
    then finish_checkin a.env key plan_failed (first_non_empty message (codes "签到结果待确认")) [] none
        (a.clock 0) s
    else finish_checkin a.env key plan_failed (first_non_empty message (codes "自动签到未成功")) [] none
        (a.clock 0) s

unfoldable pub checkin_done : Attempt → Text → Reply ActionOutcome × Store → Store
checkin_done a key (fault why, s) = checkin_faulted a key why s
checkin_done a key (reply outcome, s) = checkin_answered a key outcome s

-- AutoDrawScheduler.executeCheckinPlan; the executor is a field of the scheduler.
unfoldable pub execute_checkin_plan :
    Attempt
    → Option (Text → Store → Reply ActionOutcome × Store)
    → Text
    → AutoDrawPlan
    → Store
    → Store
execute_checkin_plan a none key plan s =
    finish_checkin a.env key plan_failed (codes "自动签到执行器不可用") [] none (a.clock 0) s
execute_checkin_plan a (some checkin) key plan s = checkin_done a key (checkin plan.account_id s)
