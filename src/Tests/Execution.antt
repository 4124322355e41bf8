-- ===== src/Tests/Execution.antt =====
-- Runs of the execution of plans.
use lottery.Prelude.{
  ℕ, ◌+◌, ◌*◌, ◌≡◌, refl, true, false, ◌&&◌, ◌||◌, none, some, List, [], ◌∷◌, leb, ltb,
}
use lottery.Prelude.Text.{Text, codes, trim_space}
use lottery.Prelude.Int.{pos}
use lottery.Prelude.Time.{Time}
use lottery.State.Types.{AutoDrawPlan, Store, plan_completed, action_daily_claim}
use lottery.State.Persist.{fresh}
use lottery.State.Actions.{new_action}
use lottery.State.Plans.Lifecycle.{stored}
use lottery.Service.{reply}
use lottery.Service.DailyClaim.{DailyClaimOutcome}
use lottery.Service.AutoDraw.{second}
use lottery.Service.AutoDraw.Checkin.{Attempt, hour, time_of_day, gives_up, postpone_checkin_plan}
use lottery.Service.AutoDraw.Checkin.Postponed.{gives_up_lem}
use lottery.Service.AutoDraw.Checkin.Outcome.{IsPostponed, postpone_checkin_plan_lem}
use lottery.Service.AutoDraw.Execute.{Executors, outcome_from_claim, task_result, execute_plan}
use lottery.Service.AutoDraw.Execute.Reported.{execute_plan-ended, task_result-claim}
use lottery.Tests.Data.{calm, new_store, first_account, day, morning}

abbrev key : Text
key = codes "2026-05-01:w1:account-a1"

-- Half past seven in the morning of 2026-05-01 in Shanghai.
abbrev early : Time
early = (63913161600 + 7 * 3600 + 1800) * second

gives_up_lem_example : gives_up early ≡ (
    leb (23 * hour) (time_of_day early)
    || (leb (7 * hour) (time_of_day early) && ltb (time_of_day early) (8 * hour)))
gives_up_lem_example = gives_up_lem early

early_morning : gives_up early ≡ true
unfolding gives_up lottery.Service.AutoDraw.Checkin.day_number
    lottery.Service.AutoDraw.Checkin.truncate_day
early_morning = refl

abbrev planned : AutoDrawPlan
planned = record morning { key = key; idempotency_key = codes "k"; status = codes "running" }

abbrev with_plan : AutoDrawPlan → Store
with_plan p = record new_store { content = record fresh { plans = (key, p) ∷ [] } }

postpone_checkin_plan_lem_example : IsPostponed calm (codes "活跃度不足") early planned (
    stored
      (trim_space key)
      (postpone_checkin_plan (λ n. calm) key (codes "活跃度不足") early (with_plan planned)))
unfolding lottery.Prelude.Dict.lookup lottery.Prelude.Text.text_eq trim_space
postpone_checkin_plan_lem_example =
    postpone_checkin_plan_lem (λ n. calm) key (codes "活跃度不足") early (with_plan planned) planned refl

abbrev attempt : Attempt
attempt = record { env = λ n. calm; clock = λ n. early; stopping = false }

abbrev executors : Executors
executors = record { draw = none; claim = none; checkin = none }

abbrev ended : AutoDrawPlan
ended = record planned { status = codes "skipped" }

execute_plan-ended_example :
    execute_plan attempt executors key (with_plan ended) ≡ (reply tt, with_plan ended)
unfolding lottery.Prelude.Dict.lookup lottery.Prelude.Text.text_eq trim_space
    lottery.State.Display.is_terminal_status
execute_plan-ended_example =
    execute_plan-ended attempt executors key (with_plan ended) ended refl refl

-- What ClaimDaily returns when the login has expired.
abbrev refused : DailyClaimOutcome
refused = record {
  action = record (new_action calm (codes "k") first_account day action_daily_claim (codes "i")) {
    status = codes "failed";
    message = codes "explicit reauthentication required";
  };
  already_recorded = false;
  added = pos 0;
  remaining = none;
}

task_result-claim_example :
    (task_result (codes "claim") (reply (outcome_from_claim refused))).status ≡ plan_completed
unfolding lottery.Service.AutoDraw.is_claim lottery.Prelude.Text.text_eq
    lottery.State.Display.normalize_task_type lottery.Prelude.Text.to_lower trim_space
task_result-claim_example = task_result-claim (codes "claim") refused refl
