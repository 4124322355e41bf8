-- ===== src/State/Scope/Pruning.antt =====
-- What PruneAutoDrawData keeps.
use lottery.Prelude.{◌≡◌, refl, ◌≤◌, false, some, arith}
use lottery.Prelude.Text.{Text, text_lt, trim_space}
use lottery.Prelude.Dict.{lookup, keep_entries, lookup-keep_entries}
use lottery.Prelude.Time.{Time}
use lottery.State.Types.{AutoDrawPlan, DiskState, Store}
use lottery.State.Persist.{Env, commit, on_ok}
use lottery.State.Persist.RoundTrip.{Transacts, commit-Transacts, on_ok-Transacts}
use lottery.State.Scope.{
  dated_from, planned_from, pruned_by_date, pruned_by_time, prune_auto_draw_data,
}

-- PruneAutoDrawData is a transaction.
pub prune_auto_draw_data-Transacts :
    (e : Env) (before_date : Text) (before_time : Time) (s : Store)
    → Transacts s (prune_auto_draw_data e before_date before_time s)
unfolding prune_auto_draw_data
prune_auto_draw_data-Transacts e before_date before_time s =
    on_ok-Transacts _ s _ λ x h. commit-Transacts e _ _ tt s refl

pruned_keeps :
    (date : Text) (before_time : Time) (d : DiskState) (k : Text) (plan : AutoDrawPlan)
    → lookup k d.plans ≡ some plan
    → text_lt plan.date date ≡ false
    → before_time ≤ plan.planned_at
    → lookup k (pruned_by_time before_time (pruned_by_date date d)).plans ≡ some plan
unfolding pruned_by_time pruned_by_date dated_from planned_from
pruned_keeps date before_time d k plan h dated planned = ground (
  arith,
  lookup-keep_entries (dated_from date) k plan d.plans h,
  lookup-keep_entries (planned_from before_time) k plan d.plans h,
  lookup-keep_entries (planned_from before_time) k plan (keep_entries (dated_from date) d.plans),
)

-- A plan that is neither dated nor planned before the bounds survives pruning, whether the write
-- succeeds or not.
pub prune_auto_draw_data-keeps :
    (e : Env) (before_date : Text) (before_time : Time) (s : Store) (k : Text) (plan : AutoDrawPlan)
    → lookup k s.content.plans ≡ some plan
    → text_lt plan.date (trim_space before_date) ≡ false
    → before_time ≤ plan.planned_at
    → lookup k (prune_auto_draw_data e before_date before_time s).1.content.plans ≡ some plan
unfolding prune_auto_draw_data commit on_ok
prune_auto_draw_data-keeps e before_date before_time s k plan h dated planned =
    ground
      (arith, pruned_keeps (trim_space before_date) before_time s.content k plan h dated planned)
