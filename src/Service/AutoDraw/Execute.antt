-- ===== src/Service/AutoDraw/Execute.antt =====
-- The execution of a plan of internal/service/auto_draw.go.
pub mod Reported
use lottery.Prelude.{
  ℕ, ◌+◌, Bool, true, false, ◌&&◌, ◌||◌, not, Option, none, some, List, [], ◌∷◌, ◌++◌,
  if◌then◌else◌,
}
use lottery.Prelude.Text.{Text, codes, text_eq, is_empty, trim_space, join_words, contains}
use lottery.Prelude.Int.{ℤ, pos, eq_ℤ}
use lottery.Prelude.Time.{Time}
use lottery.Prelude.Result.{Result, ok, err}
use lottery.Quota.Money.{Money}
use lottery.Account.{status_enabled}
use lottery.State.Types.{
  AutoDrawPlan, AutoDrawSchedule, Store, action_completed, plan_completed, plan_skipped,
  plan_failed,
}
use lottery.State.Persist.{Env}
use lottery.State.Display.{normalize_task_type, task_checkin}
use lottery.State.Accounts.{get_account}
use lottery.State.Schedules.{draw_schedules}
use lottery.State.Plans.{begin_auto_draw_plan, finish_auto_draw_plan}
use lottery.State.Logs.{append_runtime_log}
use lottery.Website.{Fault, api, reauth_required, canceled, timed_out, other, from_store}
use lottery.Service.{Reply, reply, fault, ActionOutcome, cut_bytes}
use lottery.Service.DailyClaim.{DailyClaimOutcome}
use lottery.Service.AutoDraw.{is_claim}
use lottery.Service.AutoDraw.Checkin.{
  Attempt, reauth_marker, auto_draw_failure_message, finished_log, execute_checkin_plan,
}

-- The labels of a prize, all that the scheduler takes from a draw.
pub record Prize : Type 0 where
  pub label : Text
  pub short_label : Text

pub record DrawAvailableOutcome : Type 0 where
  pub skipped : Bool
  pub remaining_before : ℤ
  pub result : Option Prize
  pub quota_delta_usd : Option Money
  pub message : Text

-- The executors, which are fields of the scheduler and may be missing.
pub record Executors : Type 0 where
  pub draw : Option (Text → Text → Store → Reply DrawAvailableOutcome × Store)
  pub claim : Option (Text → Store → Reply DailyClaimOutcome × Store)
  pub checkin : Option (Text → Store → Reply ActionOutcome × Store)

-- drawAvailableOutcomeFromClaim
unfoldable pub outcome_from_claim : DailyClaimOutcome → DrawAvailableOutcome
outcome_from_claim outcome = record {
  skipped = eq_ℤ outcome.added (pos 0) && not (text_eq outcome.action.status action_completed);
  remaining_before = pos 0;
  result = none;
  quota_delta_usd = none;
  message = [];
}

-- The status, message, prize and amount that a plan is finished with.
pub record TaskResult : Type 0 where
  pub status : Text
  pub message : Text
  pub prize_label : Text
  pub quota_delta_usd : Option Money

unfoldable pub without_prize : Text → Text → TaskResult
without_prize status message = record {
  status = status;
  message = message;
  prize_label = [];
  quota_delta_usd = none;
}

-- autoClaimFailureMessage
unfoldable pub auto_claim_failure_message : Fault → Text
auto_claim_failure_message (timed_out text) = codes "每日领取请求超时"
auto_claim_failure_message (canceled text) = codes "每日领取任务已取消"
auto_claim_failure_message why = codes "每日领取服务请求失败"

abbrev pub claim_reauth_note : Text
claim_reauth_note = codes "登录状态失效，需要重新认证，已跳过每日领取"

unfoldable pub claim_fault_result : Fault → TaskResult
claim_fault_result (reauth_required text) = without_prize plan_skipped claim_reauth_note
claim_fault_result why = without_prize plan_failed (auto_claim_failure_message why)

-- The claim branch of autoTaskExecutionResult.
unfoldable pub claim_result : Reply DrawAvailableOutcome → TaskResult
claim_result (fault why) = claim_fault_result why
claim_result (reply outcome) =
    if contains outcome.message reauth_marker
    then without_prize plan_skipped claim_reauth_note
    else without_prize plan_completed (codes "每日抽奖次数领取完成")

-- safeAutoDrawDisplay
unfoldable pub safe_auto_draw_display : Text → Text
safe_auto_draw_display value = cut_bytes 120 (join_words (trim_space value))

unfoldable pub prize_shown : Option Prize → Text
prize_shown none = []
prize_shown (some prize) =
    let short = safe_auto_draw_display prize.short_label in
    if is_empty short then safe_auto_draw_display prize.label else short

unfoldable pub draw_fault_result : Fault → TaskResult
draw_fault_result (reauth_required text) =
    without_prize plan_skipped (codes "登录状态失效，需要重新认证，已跳过本次自动抽奖")
draw_fault_result why = without_prize plan_failed (auto_draw_failure_message why)

-- autoDrawExecutionResult
unfoldable pub draw_result : Reply DrawAvailableOutcome → TaskResult
draw_result (fault why) = draw_fault_result why
draw_result (reply outcome) =
    if outcome.skipped then without_prize plan_skipped (codes "无可用抽奖次数，已跳过") else record {
      status = plan_completed;
      message = codes "自动抽奖成功";
      prize_label = prize_shown outcome.result;
      quota_delta_usd = outcome.quota_delta_usd;
    }

-- autoTaskExecutionResult
unfoldable pub task_result : Text → Reply DrawAvailableOutcome → TaskResult
task_result task_type answer =
    if is_claim task_type then claim_result answer else draw_result answer

unfoldable pub from_claim : Reply DailyClaimOutcome × Store → Reply DrawAvailableOutcome × Store
from_claim (fault why, s) = (fault why, s)
from_claim (reply outcome, s) = (reply (outcome_from_claim outcome), s)

unfoldable pub run_claim :
    Option (Text → Store → Reply DailyClaimOutcome × Store)
    → Text
    → Store
    → Reply DrawAvailableOutcome × Store
run_claim none account_id s = (fault (other (codes "每日抽奖次数领取执行器不可用")), s)
run_claim (some claim) account_id s = from_claim (claim account_id s)

unfoldable pub run_draw :
    Option (Text → Text → Store → Reply DrawAvailableOutcome × Store)
    → Text
    → Text
    → Store
    → Reply DrawAvailableOutcome × Store
run_draw none account_id key s = (fault (other (codes "自动抽奖执行器不可用")), s)
run_draw (some draw) account_id key s = draw account_id key s

unfoldable pub run_task : Executors → AutoDrawPlan → Store → Reply DrawAvailableOutcome × Store
run_task executors plan s =
    if is_claim plan.task_type
    then run_claim executors.claim plan.account_id s
    else run_draw executors.draw plan.account_id plan.idempotency_key s

unfoldable pub logged : Env → Result AutoDrawPlan × Store → Reply (Unit {0}) × Store
logged e (err why, s) = (fault (from_store why), s)
logged e (ok finished, s) =
    let done = append_runtime_log e (finished_log finished) s in
    elim done.0 [ ok _ ↦ (reply tt, done.1) | err why ↦ (fault (from_store why), done.1) ]

unfoldable pub finish_plan : Attempt → Text → TaskResult → Store → Reply (Unit {0}) × Store
finish_plan a key r s = logged (a.env 2) (
    finish_auto_draw_plan (a.env 1) key r.status r.message r.prize_label r.quota_delta_usd
      (a.clock 0) s)

-- The task is canceled because the service stops.
unfoldable pub is_stopping : Attempt → Reply DrawAvailableOutcome → Bool
is_stopping a (fault (canceled text)) = a.stopping
is_stopping a _ = false

unfoldable pub finish_task :
    Attempt → Text → AutoDrawPlan → Reply DrawAvailableOutcome × Store → Reply (Unit {0}) × Store
finish_task a key plan (answer, s) =
    if is_stopping a answer
    then (fault (canceled []), s)
    else finish_plan a key (task_result plan.task_type answer) s

-- An enabled entry with the ID of the plan's window.
unfoldable pub has_schedule : Text → List AutoDrawSchedule → Bool
has_schedule window_id [] = false
has_schedule window_id (entry ∷ entries) =
    (text_eq entry.id window_id && entry.enabled) || has_schedule window_id entries

unfoldable pub is_enabled_account : Text → Store → Bool
is_enabled_account id s = elim (get_account id s) [
  | ok r ↦ text_eq r.status status_enabled
  | err why ↦ false
]

-- executePlan once the plan is running.
unfoldable pub execute_begun :
    Attempt → Executors → Text → AutoDrawPlan → Store → Reply (Unit {0}) × Store
execute_begun a executors key plan s =
    if not (is_enabled_account plan.account_id s)
    then finish_plan a key (without_prize plan_skipped (codes "账号已停用或删除，跳过本次自动抽奖")) s
    else if not (has_schedule plan.window_id (draw_schedules plan.account_id s))
    then finish_plan a key (without_prize plan_skipped (codes "定时抽奖计划已变更，跳过本次执行")) s
    else if text_eq (normalize_task_type plan.task_type) task_checkin
    then (
      reply tt,
      execute_checkin_plan (record a { env = λ n. a.env (n + 1) }) executors.checkin key plan s,
    )
    else finish_task a key plan (run_task executors plan s)

unfoldable pub proceed :
    Attempt → Executors → Text → Result (AutoDrawPlan × Bool) × Store → Reply (Unit {0}) × Store
proceed a executors key (err why, s) = (fault (from_store why), s)
proceed a executors key (ok (plan, false), s) = (reply tt, s)
proceed a executors key (ok (plan, true), s) = execute_begun a executors key plan s

-- AutoDrawScheduler.executePlan, which holds the lock of the plan.
unfoldable pub execute_plan : Attempt → Executors → Text → Store → Reply (Unit {0}) × Store
execute_plan a executors key s = proceed a executors key (begin_auto_draw_plan (a.env 0) key s)
