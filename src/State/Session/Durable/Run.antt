-- ===== src/State/Session/Durable/Run.antt =====
-- Sequences of calls, and the file after them.
use lottery.Prelude.{◌≡◌, List, [], ◌∷◌, arith}
use lottery.Prelude.Text.{Text}
use lottery.Prelude.Result.{Result, ok}
use lottery.State.Types.{Store, Payload}
use lottery.State.Persist.{Env, open_store}
use lottery.State.Persist.RoundTrip.{Transacts}
use lottery.State.Persist.Restores.{Transacts-Restores}
use lottery.State.Actions.Atomic.{
  get_or_create_action-Transacts, update_action-Transacts, reset_retryable_action-Transacts,
  rotate_repeatable_action-Transacts,
}
use lottery.State.Plans.Atomic.{
  ensure_auto_draw_plans-Transacts, begin_auto_draw_plan-Transacts, finish_auto_draw_plan-Transacts,
  postpone_auto_draw_plan-Transacts,
}
use lottery.State.Accounts.Atomic.{
  create_account-Transacts, update_account-Transacts, set_remote_user_id-Transacts,
  delete_account-Restores, set_auth_health-Transacts,
}
use lottery.State.Snapshots.Atomic.{put_snapshot-Transacts, put_auth-Transacts}
use lottery.State.Schedules.Normal.{set_draw_schedules-Restores}
use lottery.State.Logs.Atomic.{append_runtime_log-Transacts}
use lottery.State.Scope.Removal.{remove_account_scoped_state-Restores}
use lottery.State.Scope.Pruning.{prune_auto_draw_data-Transacts}
use lottery.State.Session.{
  Command, get_or_create, update, reset_retryable, rotate_repeatable, begin, put_snapshot_of,
  put_auth_of, ensure, finish, postpone, append_log, prune, create, update_record, set_remote_user,
  delete, remove_state, set_health, set_schedules, run, run_all,
}
use lottery.State.Session.Durable.{
  IsCurrent, IsDurable, IsReread, json_at, json_at-reread, Restores-IsDurable, open_store-IsDurable,
}
use lottery.State.Session.Durable.Kept.{run-IsCurrent}

Transacts-IsDurable {ℓ} :
    {A : Type ℓ} (s : Store) (r : Result A × Store)
    → Transacts s r
    → IsCurrent r.1
    → IsDurable s
    → IsDurable r.1
Transacts-IsDurable s r h = Restores-IsDurable s r (Transacts-Restores s r h)

run-IsDurable :
    (e : Env) (command : Command) (s : Store)
    → IsCurrent (run e command s)
    → IsDurable s
    → IsDurable (run e command s)
unfolding run
run-IsDurable e (get_or_create account_id date kind) s =
    Transacts-IsDurable s _ (get_or_create_action-Transacts e account_id date kind s)
run-IsDurable e (update key change) s =
    Transacts-IsDurable s _ (update_action-Transacts e key change s)
run-IsDurable e (reset_retryable key) s =
    Transacts-IsDurable s _ (reset_retryable_action-Transacts e key s)
run-IsDurable e (rotate_repeatable key) s =
    Transacts-IsDurable s _ (rotate_repeatable_action-Transacts e key s)
run-IsDurable e (begin key) s = Transacts-IsDurable s _ (begin_auto_draw_plan-Transacts e key s)
run-IsDurable e (put_snapshot_of given) s =
    Transacts-IsDurable s _ (put_snapshot-Transacts e given s)
run-IsDurable e (put_auth_of id given) s = Transacts-IsDurable s _ (put_auth-Transacts e id given s)
run-IsDurable e (ensure inputs) s =
    Transacts-IsDurable s _ (ensure_auto_draw_plans-Transacts e inputs s)
run-IsDurable e (finish key status message prize delta executed_at) s =
    Transacts-IsDurable s _
      (finish_auto_draw_plan-Transacts e key status message prize delta executed_at s)
run-IsDurable e (postpone key next_at note) s =
    Transacts-IsDurable s _ (postpone_auto_draw_plan-Transacts e key next_at note s)
run-IsDurable e (append_log given) s =
    Transacts-IsDurable s _ (append_runtime_log-Transacts e given s)
run-IsDurable e (prune before_date before_time) s =
    Transacts-IsDurable s _ (prune_auto_draw_data-Transacts e before_date before_time s)
run-IsDurable e (create given) s = Transacts-IsDurable s _ (create_account-Transacts e given s)
run-IsDurable e (update_record given) s =
    Transacts-IsDurable s _ (update_account-Transacts e given s)
run-IsDurable e (set_remote_user id user_id) s =
    Transacts-IsDurable s _ (set_remote_user_id-Transacts e id user_id s)
run-IsDurable e (delete id) s = Restores-IsDurable s _ (delete_account-Restores e id s)
run-IsDurable e (remove_state id) s =
    Restores-IsDurable s _ (remove_account_scoped_state-Restores e id s)
run-IsDurable e (set_health id health) s =
    Transacts-IsDurable s _ (set_auth_health-Transacts e id health s)
run-IsDurable e (set_schedules id entries) s =
    Restores-IsDurable s _ (set_draw_schedules-Restores e id entries s)

run_all-IsDurable :
    (calls : List (Env × Command)) (s : Store)
    → IsCurrent s
    → IsDurable s
    → IsDurable (run_all calls s)
unfolding run_all
run_all-IsDurable [] s current durable = durable
run_all-IsDurable ((e, command) ∷ calls) s current durable =
    let next = run-IsCurrent e command s current in
    run_all-IsDurable calls (run e command s) next (run-IsDurable e command s next durable)

-- Open a version-4 store and make any calls, each with any readings of the clock and of random
-- numbers, and each with a write that succeeds or fails. To open the file that is there after them
-- succeeds. It gives data that no read can tell from what the store held in memory, or from what the
-- encoding leaves of that: bytes that are no UTF-8 are U+FFFD then, and raw messages are indented
-- and escaped. The raw message of every snapshot is the same JSON, up to white space and escapes.
pub run_all-reopens :
    (p : Payload) (s : Store) (calls : List (Env × Command))
    → open_store p ≡ ok s
    → s.content.version ≡ 4
    → (t : Store) × (open_store (run_all calls s).file ≡ ok t)
      × IsReread t.content (run_all calls s).content
      × ((k : Text) → json_at k t.content ≡ json_at k (run_all calls s).content)
unfolding open_store
run_all-reopens p s calls h v =
    let start = open_store-IsDurable p s h v in
    let (d, loads, same) = run_all-IsDurable calls s start.0 start.1 in
    (
      record { content = d; file = (run_all calls s).file },
      ground (arith, loads),
      same,
      λ k. json_at-reread d (run_all calls s).content k same,
    )
