-- ===== src/Service/AutoDraw/Tick.antt =====
-- AutoDrawScheduler.Tick of internal/service/auto_draw.go.
use lottery.Prelude.{
  ℕ, ◌+◌, ◌-◌, ◌*◌, ◌≡◌, refl, Bool, true, false, ◌&&◌, not, Option, none, some, List, [], ◌∷◌,
  ◌++◌, All, if◌then◌else◌,
}
use lottery.Prelude.Text.{Text, codes}
use lottery.Prelude.Time.{Time, before}
use lottery.Prelude.Result.{ok, err}
use lottery.State.Types.{AutoDrawPlan, Store}
use lottery.State.Persist.{Env}
use lottery.State.Display.{is_terminal_status}
use lottery.State.Scope.{prune_auto_draw_data}
use lottery.Website.{Fault, canceled, from_store}
use lottery.Service.{Reply, reply, fault}
use lottery.Service.AutoDraw.{ensure_plans}
use lottery.Service.AutoDraw.Checkin.{Attempt, day_length}
use lottery.Service.AutoDraw.Execute.{Executors, execute_plan}

-- What a tick reads: the clock and its date in Shanghai, the random draws, the environments of its
-- two calls of the store and of the plans that it executes, and whether the context is cancelled
-- before a plan. `date_of` is the date of an instant in Shanghai.
pub record Reading : Type 0 where
  pub now : Time
  pub date_of : Time → Text
  pub raw : ℕ → Option ℕ
  pub prune_env : Env
  pub ensure_env : Env
  pub attempt : ℕ → Attempt
  pub is_stopping : ℕ → Bool

unfoldable pub is_due : Time → AutoDrawPlan → Bool
is_due now plan = not (before now plan.planned_at) && not (is_terminal_status plan.status)

abbrev pub fault_of : Reply (Unit {0}) → List Fault
fault_of (reply x) = []
fault_of (fault why) = why ∷ []

-- One plan of the loop, with the faults joined so far.
unfoldable pub execute_if_due :
    Reading → Executors → ℕ → AutoDrawPlan → List Fault × Store → List Fault × Store
execute_if_due r executors n plan (faults, s) =
    if is_due r.now plan
    then (let done = execute_plan (r.attempt n) executors plan.key s in
        (faults ++ fault_of done.0, done.1))
    else (faults, s)

-- The loop of Tick over the plans of the day; a cancelled context drops the faults.
unfoldable pub execute_due :
    Reading → Executors → ℕ → List AutoDrawPlan → List Fault × Store → Reply (List Fault) × Store
unfolding execute_if_due
execute_due r executors n [] (faults, s) = (reply faults, s)
execute_due r executors n (plan ∷ plans) (faults, s) = elim (r.is_stopping n) [
  | true ↦ (fault (canceled (codes "context canceled")), s)
  | false ↦ execute_due r executors (n + 1) plans (execute_if_due r executors n plan (faults, s))
]

-- Tick after the pruning; `none` as in ensure_plans.
unfoldable pub tick_plans : Reading → Executors → Store → Option (Reply (List Fault) × Store)
unfolding execute_due
tick_plans r executors s = elim (ensure_plans r.raw r.ensure_env (r.date_of r.now) r.now s) [
  | none ↦ none
  | some (err why, s) ↦ some (fault (from_store why), s)
  | some (ok plans, s) ↦ some (execute_due r executors 1 plans ([], s))
]

-- AutoDrawScheduler.Tick; seven days are kept.
unfoldable pub tick : Reading → Executors → Store → Option (Reply (List Fault) × Store)
unfolding tick_plans
tick r executors s =
    let cutoff = r.now - 7 * day_length in
    if r.is_stopping 0
    then some (fault (canceled (codes "context canceled")), s)
    else (let pruned = prune_auto_draw_data r.prune_env (r.date_of cutoff) cutoff s in
        elim pruned.0 [
          | err why ↦ some (fault (from_store why), pruned.1)
          | ok _ ↦ tick_plans r executors pruned.1
        ])

-- A loop over plans of which none is due, because each lies ahead or has ended, changes nothing and
-- reports nothing.
pub execute_due-idle :
    (r : Reading) (executors : Executors) (n : ℕ) (plans : List AutoDrawPlan) (s : Store)
    → ((k : ℕ) → r.is_stopping k ≡ false)
    → All (λ plan. is_due r.now plan ≡ false) plans
    → execute_due r executors n plans ([], s) ≡ (reply [], s)
unfolding execute_due execute_if_due
execute_due-idle r executors n [] s running idle = refl
execute_due-idle r executors n (plan ∷ plans) s running idle =
    rw (running n, idle.0, execute_due, execute_if_due)
      (execute_due-idle r executors (n + 1) plans s running idle.1)
