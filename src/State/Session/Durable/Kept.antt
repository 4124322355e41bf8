-- ===== src/State/Session/Durable/Kept.antt =====
-- The version and the schedules of a store through the calls that write.
use lottery.Prelude.{◌≡◌, inl, inr, Option, List, arith, Option-cases, Bool-cases}
use lottery.Prelude.Text.{Text, trim_space}
use lottery.Prelude.Int.{ℤ}
use lottery.Prelude.Time.{Time}
use lottery.Prelude.Dict.{lookup, insert}
use lottery.Account.{Record}
use lottery.Quota.Money.{Money}
use lottery.State.Types.{
  Action, Snapshot, AuthState, AutoDrawPlan, RuntimeLog, AutoDrawSchedule, Store, DiskState,
}
use lottery.State.Persist.{Env, commit}
use lottery.State.Persist.RoundTrip.{SchedulesSet, on_ok-after, commit-after}
use lottery.State.Persist.Restores.{schedules_at}
use lottery.State.Actions.{
  get_or_create_action, replace_action, update_action, reset_retryable_action,
  rotate_repeatable_action, action_key,
}
use lottery.State.Plans.{
  ensure_auto_draw_plans, begin_auto_draw_plan, finish_auto_draw_plan, postpone_auto_draw_plan,
  replace_plan,
}
use lottery.State.Display.{is_terminal_status}
use lottery.State.Accounts.{
  create_account, update_account, set_remote_user_id, delete_account, set_auth_health,
  replace_account,
}
use lottery.State.Snapshots.{put_snapshot, put_auth, snapshot_key}
use lottery.State.Schedules.{set_draw_schedules}
use lottery.State.Schedules.Normal.{scheduling-AreNormal}
use lottery.State.Logs.{append_runtime_log}
use lottery.State.Scope.{
  remove_account_scoped_state, prune_auto_draw_data, scoped_out, pruned_by_date, pruned_by_time,
}
use lottery.State.Session.{
  Command, get_or_create, update, reset_retryable, rotate_repeatable, begin, put_snapshot_of,
  put_auth_of, ensure, finish, postpone, append_log, prune, create, update_record, set_remote_user,
  delete, remove_state, set_health, set_schedules, run,
}
use lottery.State.Session.Durable.Set.{
  erase-SchedulesSet, insert-SchedulesSet, schedules_back-SchedulesSet, IsNormal-AllSet,
  schedules_at-AllSet,
}
use lottery.State.Session.Durable.{IsCurrent}

commit-IsCurrent :
    {A : Type 0} (e : Env) (changed restored : DiskState) (a : A) (s : Store)
    → (changed.version ≡ 4) × SchedulesSet changed.draw_schedules
    → (restored.version ≡ 4) × SchedulesSet restored.draw_schedules
    → IsCurrent (commit e changed restored a s).1
commit-IsCurrent e changed restored a s written failed =
    commit-after IsCurrent e changed restored a s written failed

get_or_create_action-IsCurrent :
    (e : Env) (account_id date kind : Text) (s : Store)
    → IsCurrent s
    → IsCurrent (get_or_create_action e account_id date kind s).1
unfolding get_or_create_action
get_or_create_action-IsCurrent e account_id date kind s h =
    let key = action_key (trim_space account_id) (trim_space date) kind in
    on_ok-after IsCurrent _ s _ h λ x q. elim (Option-cases (lookup key s.content.actions)) [
      | inr (old, t) ↦ rw t h
      | inl t ↦ rw t (on_ok-after IsCurrent _ s _ h λ id r. commit-IsCurrent e _ _ _ s h h)
    ]

replace_action-IsCurrent :
    (e : Env) (key : Text) (previous action : Action) (s : Store)
    → IsCurrent s
    → IsCurrent (replace_action e key previous action s).1
unfolding replace_action
replace_action-IsCurrent e key previous action s h = commit-IsCurrent e _ _ action s h h

replace_plan-IsCurrent :
    {A : Type 0} (e : Env) (key : Text) (previous plan : AutoDrawPlan) (a : A) (s : Store)
    → IsCurrent s
    → IsCurrent (replace_plan e key previous plan a s).1
unfolding replace_plan
replace_plan-IsCurrent e key previous plan a s h = commit-IsCurrent e _ _ a s h h

replace_account-IsCurrent :
    {A : Type 0} (e : Env) (id : Text) (previous r : Record) (a : A) (s : Store)
    → IsCurrent s
    → IsCurrent (replace_account e id previous r a s).1
unfolding replace_account
replace_account-IsCurrent e id previous r a s h = commit-IsCurrent e _ _ a s h h

update_action-IsCurrent :
    (e : Env) (key : Text) (change : Action → Action) (s : Store)
    → IsCurrent s
    → IsCurrent (update_action e key change s).1
unfolding update_action
update_action-IsCurrent e key change s h =
    on_ok-after IsCurrent _ s _ h λ a q. replace_action-IsCurrent e key a _ s h

reset_retryable_action-IsCurrent :
    (e : Env) (key : Text) (s : Store) → IsCurrent s → IsCurrent (reset_retryable_action e key s).1
unfolding reset_retryable_action
reset_retryable_action-IsCurrent e key s h =
    on_ok-after IsCurrent _ s _ h λ a q. replace_action-IsCurrent e key a _ s h

rotate_repeatable_action-IsCurrent :
    (e : Env) (key : Text) (s : Store)
    → IsCurrent s
    → IsCurrent (rotate_repeatable_action e key s).1
unfolding rotate_repeatable_action
rotate_repeatable_action-IsCurrent e key s h =
    on_ok-after IsCurrent _ s _ h λ p q. replace_action-IsCurrent e key p.0 p.1 s h

ensure_auto_draw_plans-IsCurrent :
    (e : Env) (inputs : List AutoDrawPlan) (s : Store)
    → IsCurrent s
    → IsCurrent (ensure_auto_draw_plans e inputs s).1
unfolding ensure_auto_draw_plans
ensure_auto_draw_plans-IsCurrent e inputs s h =
    on_ok-after IsCurrent _ s _ h λ p q. commit-IsCurrent e _ _ p.0 s h h

finish_auto_draw_plan-IsCurrent :
    (e : Env) (key status message prize : Text) (delta : Option Money) (executed_at : Time)
    (s : Store)
    → IsCurrent s
    → IsCurrent (finish_auto_draw_plan e key status message prize delta executed_at s).1
unfolding finish_auto_draw_plan
finish_auto_draw_plan-IsCurrent e key status message prize delta executed_at s h =
    on_ok-after IsCurrent _ s _ h λ p q. replace_plan-IsCurrent e _ p.0 p.1 p.1 s h

postpone_auto_draw_plan-IsCurrent :
    (e : Env) (key : Text) (next_at : Time) (note : Text) (s : Store)
    → IsCurrent s
    → IsCurrent (postpone_auto_draw_plan e key next_at note s).1
unfolding postpone_auto_draw_plan
postpone_auto_draw_plan-IsCurrent e key next_at note s h =
    on_ok-after IsCurrent _ s _ h λ p q. replace_plan-IsCurrent e _ p.0 p.1 p.1 s h

append_runtime_log-IsCurrent :
    (e : Env) (given : RuntimeLog) (s : Store)
    → IsCurrent s
    → IsCurrent (append_runtime_log e given s).1
unfolding append_runtime_log
append_runtime_log-IsCurrent e given s h =
    on_ok-after IsCurrent _ s _ h λ log q. commit-IsCurrent e _ _ log s h h

create_account-IsCurrent :
    (e : Env) (given : Record) (s : Store) → IsCurrent s → IsCurrent (create_account e given s).1
unfolding create_account
create_account-IsCurrent e given s h =
    on_ok-after IsCurrent _ s _ h λ r q. commit-IsCurrent e _ _ r s h h

update_account-IsCurrent :
    (e : Env) (r : Record) (s : Store) → IsCurrent s → IsCurrent (update_account e r s).1
unfolding update_account
update_account-IsCurrent e r s h =
    on_ok-after IsCurrent _ s _ h λ p q. replace_account-IsCurrent e _ p.0 p.1 p.1 s h

set_remote_user_id-IsCurrent :
    (e : Env) (id : Text) (user_id : ℤ) (s : Store)
    → IsCurrent s
    → IsCurrent (set_remote_user_id e id user_id s).1
unfolding set_remote_user_id
set_remote_user_id-IsCurrent e id user_id s h =
    on_ok-after IsCurrent _ s _ h λ p q. replace_account-IsCurrent e _ p.0 p.1 tt s h

delete_account-IsCurrent :
    (e : Env) (id : Text) (s : Store) → IsCurrent s → IsCurrent (delete_account e id s).1
unfolding delete_account
delete_account-IsCurrent e id s h =
    on_ok-after IsCurrent _ s _ h λ previous q. commit-IsCurrent e _ _ tt s h h

begin_auto_draw_plan-IsCurrent :
    (e : Env) (key : Text) (s : Store) → IsCurrent s → IsCurrent (begin_auto_draw_plan e key s).1
unfolding begin_auto_draw_plan
begin_auto_draw_plan-IsCurrent e key s h = on_ok-after IsCurrent _ s _ h λ plan q.
    elim (Bool-cases (is_terminal_status plan.status)) [
      | inl t ↦ rw t h
      | inr t ↦ rw t (replace_plan-IsCurrent e _ plan _ _ s h)
    ]

put_snapshot-IsCurrent :
    (e : Env) (given : Snapshot) (s : Store) → IsCurrent s → IsCurrent (put_snapshot e given s).1
unfolding put_snapshot
put_snapshot-IsCurrent e given s h = on_ok-after IsCurrent _ s _ h λ x q.
    elim (Option-cases (
      lookup (snapshot_key (trim_space given.account_id) (trim_space given.kind))
        s.content.snapshots)) [
          | inl t ↦ rw t (commit-IsCurrent e _ _ tt s h h)
          | inr (old, t) ↦ rw t (commit-IsCurrent e _ _ tt s h h)
        ]

put_auth-IsCurrent :
    (e : Env) (id : Text) (given : AuthState) (s : Store)
    → IsCurrent s
    → IsCurrent (put_auth e id given s).1
unfolding put_auth
put_auth-IsCurrent e id given s h = elim (Option-cases (lookup id s.content.legacy_auth)) [
  | inl t ↦ rw (t, put_auth) (commit-IsCurrent e _ _ tt s h h)
  | inr (old, t) ↦ rw (t, put_auth) (commit-IsCurrent e _ _ tt s h h)
]

set_auth_health-IsCurrent :
    (e : Env) (id health : Text) (s : Store)
    → IsCurrent s
    → IsCurrent (set_auth_health e id health s).1
unfolding set_auth_health
set_auth_health-IsCurrent e id health s h = on_ok-after IsCurrent _ s _ h λ x q.
    elim (Option-cases (lookup (trim_space id) s.content.auth_health)) [
      | inl t ↦ rw t (commit-IsCurrent e _ _ tt s h h)
      | inr (old, t) ↦ rw t (commit-IsCurrent e _ _ tt s h h)
    ]

prune_auto_draw_data-IsCurrent :
    (e : Env) (before_date : Text) (before_time : Time) (s : Store)
    → IsCurrent s
    → IsCurrent (prune_auto_draw_data e before_date before_time s).1
unfolding prune_auto_draw_data pruned_by_time pruned_by_date
prune_auto_draw_data-IsCurrent e before_date before_time s h =
    on_ok-after IsCurrent _ s _ h λ x q. commit-IsCurrent e _ _ tt s (ground arith) h

remove_account_scoped_state-IsCurrent :
    (e : Env) (id : Text) (s : Store)
    → IsCurrent s
    → IsCurrent (remove_account_scoped_state e id s).1
unfolding remove_account_scoped_state scoped_out
remove_account_scoped_state-IsCurrent e id s h =
    let m = s.content.draw_schedules in
    on_ok-after IsCurrent _ s _ h λ x q.
      commit-IsCurrent e _ _ tt s (h.0, erase-SchedulesSet (trim_space id) m h.1)
        (h.0, schedules_back-SchedulesSet (trim_space id) m h.1)

set_draw_schedules-IsCurrent :
    (e : Env) (account_id : Text) (entries : List AutoDrawSchedule) (s : Store)
    → IsCurrent s
    → IsCurrent (set_draw_schedules e account_id entries s).1
unfolding set_draw_schedules
set_draw_schedules-IsCurrent e account_id entries s h =
    let id = trim_space account_id in
    let m = s.content.draw_schedules in
    on_ok-after IsCurrent _ s _ h λ l q.
      let set = IsNormal-AllSet l (scheduling-AreNormal e id entries l s q).normal in
      let written = insert-SchedulesSet id l m set h.1 in
      commit-IsCurrent e _ _ l s (h.0, written)
        (
          h.0,
          insert-SchedulesSet id (schedules_at id m) (insert id l m) (schedules_at-AllSet id m h.1)
              written,
        )

-- A call keeps a current store current.
pub run-IsCurrent :
    (e : Env) (command : Command) (s : Store) → IsCurrent s → IsCurrent (run e command s)
unfolding run
run-IsCurrent e (get_or_create account_id date kind) s h =
    get_or_create_action-IsCurrent e account_id date kind s h
run-IsCurrent e (update key change) s h = update_action-IsCurrent e key change s h
run-IsCurrent e (reset_retryable key) s h = reset_retryable_action-IsCurrent e key s h
run-IsCurrent e (rotate_repeatable key) s h = rotate_repeatable_action-IsCurrent e key s h
run-IsCurrent e (begin key) s h = begin_auto_draw_plan-IsCurrent e key s h
run-IsCurrent e (put_snapshot_of given) s h = put_snapshot-IsCurrent e given s h
run-IsCurrent e (put_auth_of id given) s h = put_auth-IsCurrent e id given s h
run-IsCurrent e (ensure inputs) s h = ensure_auto_draw_plans-IsCurrent e inputs s h
run-IsCurrent e (finish key status message prize delta executed_at) s h =
    finish_auto_draw_plan-IsCurrent e key status message prize delta executed_at s h
run-IsCurrent e (postpone key next_at note) s h =
    postpone_auto_draw_plan-IsCurrent e key next_at note s h
run-IsCurrent e (append_log given) s h = append_runtime_log-IsCurrent e given s h
run-IsCurrent e (prune before_date before_time) s h =
    prune_auto_draw_data-IsCurrent e before_date before_time s h
run-IsCurrent e (create given) s h = create_account-IsCurrent e given s h
run-IsCurrent e (update_record given) s h = update_account-IsCurrent e given s h
run-IsCurrent e (set_remote_user id user_id) s h = set_remote_user_id-IsCurrent e id user_id s h
run-IsCurrent e (delete id) s h = delete_account-IsCurrent e id s h
run-IsCurrent e (remove_state id) s h = remove_account_scoped_state-IsCurrent e id s h
run-IsCurrent e (set_health id health) s h = set_auth_health-IsCurrent e id health s h
run-IsCurrent e (set_schedules id entries) s h = set_draw_schedules-IsCurrent e id entries s h
