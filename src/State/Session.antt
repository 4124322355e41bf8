-- ===== src/State/Session.antt =====
-- The calls of a store over its life. Each holds the mutex from start to end, so that concurrent
-- calls are one sequence of steps.
pub mod Durable
use lottery.Prelude.{ℕ, List, [], ◌∷◌, Option}
use lottery.Prelude.Text.{Text}
use lottery.Prelude.Int.{ℤ}
use lottery.Prelude.Time.{Time}
use lottery.Account.{Record}
use lottery.Quota.Money.{Money}
use lottery.State.Types.{
  Action, Snapshot, AuthState, AutoDrawPlan, RuntimeLog, AutoDrawSchedule, Store,
}
use lottery.State.Persist.{Env}
use lottery.State.Actions.{
  get_or_create_action, update_action, reset_retryable_action, rotate_repeatable_action,
}
use lottery.State.Plans.{
  ensure_auto_draw_plans, begin_auto_draw_plan, finish_auto_draw_plan, postpone_auto_draw_plan,
}
use lottery.State.Accounts.{
  create_account, update_account, set_remote_user_id, delete_account, set_auth_health,
}
use lottery.State.Snapshots.{put_snapshot, put_auth}
use lottery.State.Schedules.{set_draw_schedules}
use lottery.State.Logs.{append_runtime_log}
use lottery.State.Scope.{remove_account_scoped_state, prune_auto_draw_data}

-- Every call that writes.
pub data Command : Type 0 where
  get_or_create : Text → Text → Text → Command
  update : Text → (Action → Action) → Command
  reset_retryable rotate_repeatable begin : Text → Command
  put_snapshot_of : Snapshot → Command
  put_auth_of : Text → AuthState → Command
  ensure : List AutoDrawPlan → Command
  finish : Text → Text → Text → Text → Option Money → Time → Command
  postpone : Text → Time → Text → Command
  append_log : RuntimeLog → Command
  prune : Text → Time → Command
  create update_record : Record → Command
  set_remote_user : Text → ℤ → Command
  delete remove_state : Text → Command
  set_health : Text → Text → Command
  set_schedules : Text → List AutoDrawSchedule → Command

unfoldable pub run : Env → Command → Store → Store
run e (get_or_create account_id date kind) s = (get_or_create_action e account_id date kind s).1
run e (update key change) s = (update_action e key change s).1
run e (reset_retryable key) s = (reset_retryable_action e key s).1
run e (rotate_repeatable key) s = (rotate_repeatable_action e key s).1
run e (begin key) s = (begin_auto_draw_plan e key s).1
run e (put_snapshot_of given) s = (put_snapshot e given s).1
run e (put_auth_of id given) s = (put_auth e id given s).1
run e (ensure inputs) s = (ensure_auto_draw_plans e inputs s).1
run e (finish key status message prize delta executed_at) s =
    (finish_auto_draw_plan e key status message prize delta executed_at s).1
run e (postpone key next_at note) s = (postpone_auto_draw_plan e key next_at note s).1
run e (append_log given) s = (append_runtime_log e given s).1
run e (prune before_date before_time) s = (prune_auto_draw_data e before_date before_time s).1
run e (create given) s = (create_account e given s).1
run e (update_record given) s = (update_account e given s).1
run e (set_remote_user id user_id) s = (set_remote_user_id e id user_id s).1
run e (delete id) s = (delete_account e id s).1
run e (remove_state id) s = (remove_account_scoped_state e id s).1
run e (set_health id health) s = (set_auth_health e id health s).1
run e (set_schedules id entries) s = (set_draw_schedules e id entries s).1

unfoldable pub run_all : List (Env × Command) → Store → Store
run_all [] s = s
run_all ((e, command) ∷ rest) s = run_all rest (run e command s)
