-- ===== src/Service/AutoDraw/Execute/Reported.antt =====
-- executePlan on plans that have ended, and what it reports of claims.
use lottery.Prelude.{◌≡◌, true, some, arith}
use lottery.Prelude.Text.{Text, trim_space, contains}
use lottery.State.Types.{AutoDrawPlan, Store, plan_completed}
use lottery.State.Persist.{on_ok}
use lottery.State.Display.{is_terminal_status}
use lottery.State.Plans.{begin_auto_draw_plan}
use lottery.State.Plans.Lifecycle.{stored}
use lottery.Service.{reply}
use lottery.Service.DailyClaim.{DailyClaimOutcome}
use lottery.Service.AutoDraw.{is_claim}
use lottery.Service.AutoDraw.Checkin.{Attempt}
use lottery.Service.AutoDraw.Execute.{
  Executors, outcome_from_claim, without_prize, claim_result, task_result, proceed, execute_plan,
}

-- A plan that has ended is not executed: whatever the executors would do, the call succeeds and
-- nothing changes.
pub execute_plan-ended :
    (a : Attempt) (executors : Executors) (key : Text) (s : Store) (p : AutoDrawPlan)
    → stored (trim_space key) s ≡ some p
    → is_terminal_status p.status ≡ true
    → execute_plan a executors key s ≡ (reply tt, s)
unfolding execute_plan begin_auto_draw_plan on_ok proceed
execute_plan-ended a executors key s p h ended = ground (arith)

-- A claim that returns without an error is reported as completed, whatever became of it: an action
-- that failed, or whose result is unknown, included.
pub task_result-claim :
    (task_type : Text) (outcome : DailyClaimOutcome)
    → is_claim task_type ≡ true
    → (task_result task_type (reply (outcome_from_claim outcome))).status ≡ plan_completed
unfolding task_result claim_result outcome_from_claim without_prize contains
task_result-claim task_type outcome h = ground arith
