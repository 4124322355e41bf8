-- ===== src/State/Scope.antt =====
-- What removes many entries at once: Store.RemoveAccountScopedState of internal/state/accounts.go
-- and Store.PruneAutoDrawData of internal/state/store.go.
pub mod Removal
pub mod Pruning
use lottery.Prelude.{
  Bool, true, false, ◌&&◌, ◌||◌, not, Option, none, some, List, [], ◌∷◌, ◌++◌, if◌then◌else◌,
  keep_if,
}
use lottery.Prelude.Text.{Text, text_eq, text_lt, is_empty, trim_space, has_prefix}
use lottery.Prelude.Dict.{Dict, lookup, insert, erase, keep_entries}
use lottery.Prelude.Time.{Time, is_zero, before}
use lottery.Prelude.Result.{Result, ok, err, reject_if, required, invalid_date}
use lottery.State.Types.{
  Action, Snapshot, AutoDrawPlan, RuntimeLog, AutoDrawSchedule, DiskState, Store,
}
use lottery.State.Persist.{Env, commit, on_ok}
use lottery.State.Display.{is_date}

unfoldable pub other_action : Text → Text → Action → Bool
other_action id key action = not (text_eq action.account_id id)

unfoldable pub other_snapshot : Text → Text → Snapshot → Bool
other_snapshot id key snapshot = not (has_prefix key (id ++ b':' ∷ []))

unfoldable pub other_plan : Text → Text → AutoDrawPlan → Bool
other_plan id key plan = not (text_eq plan.account_id id)

unfoldable pub other_log : Text → RuntimeLog → Bool
other_log id log = not (text_eq log.account_id id)

-- The data without the account's entries.
unfoldable pub scoped_out : Text → DiskState → DiskState
scoped_out id d = record d {
  actions = keep_entries (other_action id) d.actions;
  snapshots = keep_entries (other_snapshot id) d.snapshots;
  plans = keep_entries (other_plan id) d.plans;
  logs = keep_if (other_log id) d.logs;
  draw_schedules = erase id d.draw_schedules;
}

-- The schedules that the rollback leaves.
unfoldable pub schedules_back : Text → Dict (List AutoDrawSchedule) → Dict (List AutoDrawSchedule)
schedules_back id m = elim (lookup id m) [
  | some previous ↦ insert id previous (erase id m)
  | none ↦ erase id m
]

-- Store.RemoveAccountScopedState
unfoldable pub remove_account_scoped_state : Env → Text → Store → Result (Unit {0}) × Store
remove_account_scoped_state e account_id s =
    let id = trim_space account_id in
    on_ok (reject_if (is_empty id) required) s λ _.
      commit e (scoped_out id s.content)
        (record (s.content) { draw_schedules = schedules_back id s.content.draw_schedules }) tt s

unfoldable pub dated_from : Text → Text → AutoDrawPlan → Bool
dated_from before_date key plan = not (text_lt plan.date before_date)

unfoldable pub planned_from : Time → Text → AutoDrawPlan → Bool
planned_from before_time key plan = not (before plan.planned_at before_time)

unfoldable pub occurred_from : Time → RuntimeLog → Bool
occurred_from before_time log = not (before log.occurred_at before_time)

unfoldable pub pruned_by_date : Text → DiskState → DiskState
pruned_by_date before_date d =
    if is_empty before_date
    then d
    else record d { plans = keep_entries (dated_from before_date) d.plans }

unfoldable pub pruned_by_time : Time → DiskState → DiskState
pruned_by_time before_time d = if is_zero before_time then d else record d {
  plans = keep_entries (planned_from before_time) d.plans;
  logs = keep_if (occurred_from before_time) d.logs;
}

-- Store.PruneAutoDrawData
unfoldable pub prune_auto_draw_data : Env → Text → Time → Store → Result (Unit {0}) × Store
prune_auto_draw_data e before_date before_time s =
    let date = trim_space before_date in
    on_ok (reject_if (not (is_empty date) && not (is_date date)) invalid_date) s
      λ _. commit e (pruned_by_time before_time (pruned_by_date date s.content)) s.content tt s
