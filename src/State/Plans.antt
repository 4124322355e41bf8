-- ===== src/State/Plans.antt =====
-- The automatic plans of internal/state/store.go: one task of one account on one day.
pub mod Atomic
pub mod Ensured
pub mod Lifecycle
pub mod Ended
pub mod Shape
use lottery.Prelude.{
  ℕ, ◌+◌, Bool, true, false, ◌&&◌, ◌||◌, not, Option, none, some, List, [], ◌∷◌, ◌++◌, ltb, ◌==◌,
  if◌then◌else◌, map, suc, keep_if,
}
use lottery.Prelude.Text.{Text, codes, text_eq, text_lt, is_empty, trim_space}
use lottery.Prelude.Dict.{Dict, lookup, insert, erase}
use lottery.Prelude.Time.{Time, zero_time, is_zero, before}
use lottery.Prelude.Sort.{sort_by}
use lottery.Prelude.Result.{
  Result, ok, err, ◌>>=◌, ◌>>◌, reject_if, or_fail, required, plan_not_found, invalid_date,
  key_mismatch, already_finished, postpone_time_required,
}
use lottery.Quota.Money.{Money}
use lottery.State.Types.{AutoDrawPlan, Store, DiskState, plan_pending, plan_running}
use lottery.State.Persist.{Env, new_auto_draw_idempotency_key, commit, on_ok}
use lottery.State.Display.{
  normalize_task_type, is_terminal_status, normalize_status, normalize_finished_status,
  normalize_display_text, is_date,
}

unfoldable pub plan_key : Text → Text → Text → Text
plan_key date account_id window_id = date ++ (b':' ∷ (window_id ++ (b':' ∷ account_id)))

abbrev pub with_plans : Store → Dict AutoDrawPlan → DiskState
with_plans s plans = record (s.content) { plans = plans }

-- The idempotency key of a plan: its own, or a new one.
unfoldable pub plan_idempotency_key : Env → ℕ → Text → Result Text
plan_idempotency_key e n given =
    if is_empty given then new_auto_draw_idempotency_key e n else ok given

-- A plan that has not ended carries no result.
unfoldable pub clear_unfinished : AutoDrawPlan → AutoDrawPlan
clear_unfinished plan = if is_terminal_status plan.status then plan else record plan {
  executed_at = zero_time;
  message = [];
  prize_label = [];
  quota_delta_usd = none;
}

-- normalizeAutoDrawPlan, for the n-th plan of a call.
unfoldable pub normalize_plan : Env → ℕ → AutoDrawPlan → Bool → Result AutoDrawPlan
normalize_plan e n plan preserve_timestamps = do
  let date = trim_space plan.date
  reject_if (not (is_date date)) invalid_date
  let account_id = trim_space plan.account_id
  let window_id = trim_space plan.window_id
  reject_if (is_empty account_id || is_empty window_id) required
  let derived_key = plan_key date account_id window_id
  let key = trim_space plan.key
  reject_if (not (is_empty key) && not (text_eq key derived_key)) key_mismatch
  status ← normalize_status plan.status
  let status = if is_empty status then plan_pending else status
  message ← normalize_display_text plan.message 512
  prize ← normalize_display_text plan.prize_label 256
  idempotency_key ← plan_idempotency_key e n (trim_space plan.idempotency_key)
  let now = e.clock n
  ok (
      clear_unfinished (record {
        key = derived_key;
        date = date;
        account_id = account_id;
        window_id = window_id;
        task_type = normalize_task_type plan.task_type;
        planned_at = if is_zero plan.planned_at then now else plan.planned_at;
        idempotency_key = idempotency_key;
        status = status;
        executed_at = plan.executed_at;
        message = message;
        prize_label = prize;
        quota_delta_usd = plan.quota_delta_usd;
        note = [];
        created_at =
            if not preserve_timestamps || is_zero plan.created_at then now else plan.created_at;
        updated_at =
            if not preserve_timestamps || is_zero plan.updated_at then now else plan.updated_at;
      }))

-- One plan of EnsureAutoDrawPlans: the stored plan of that key, else the one that this call has made
-- already, else the new one; with the plans that this call has made.
unfoldable pub place_plan :
    Dict AutoDrawPlan → Dict AutoDrawPlan → AutoDrawPlan → AutoDrawPlan × Dict AutoDrawPlan
place_plan stored pending plan = elim (lookup plan.key stored) [
  | some existing ↦ (existing, pending)
  | none ↦ elim (lookup plan.key pending) [
    | some created ↦ (created, pending)
    | none ↦ (plan, insert plan.key plan pending)
  ]
]

-- The loop of EnsureAutoDrawPlans: the results, and the new plans in the order of insertion.
unfoldable pub ensure_loop :
    Env
    → ℕ
    → Dict AutoDrawPlan
    → Dict AutoDrawPlan
    → List AutoDrawPlan
    → Result (List AutoDrawPlan × Dict AutoDrawPlan)
ensure_loop e n stored pending [] = ok ([], pending)
ensure_loop e n stored pending (input ∷ inputs) = do
  plan ← normalize_plan e n input false
  let placed = place_plan stored pending plan
  rest ← ensure_loop e (n + 1) stored placed.1 inputs
  ok (placed.0 ∷ rest.0, rest.1)

unfoldable pub insert_all : Dict AutoDrawPlan → Dict AutoDrawPlan → Dict AutoDrawPlan
insert_all [] plans = plans
insert_all ((key, plan) ∷ added) plans = insert_all added (insert key plan plans)

unfoldable pub erase_all : Dict AutoDrawPlan → Dict AutoDrawPlan → Dict AutoDrawPlan
erase_all [] plans = plans
erase_all ((key, plan) ∷ added) plans = erase_all added (erase key plans)

-- Store.EnsureAutoDrawPlans
unfoldable pub ensure_auto_draw_plans :
    Env → List AutoDrawPlan → Store → Result (List AutoDrawPlan) × Store
ensure_auto_draw_plans e inputs s =
    on_ok (ensure_loop e 0 s.content.plans [] inputs) s λ (results, added).
      let written = insert_all added s.content.plans in
      commit e (with_plans s written) (with_plans s (erase_all added written)) results s

-- The order of AutoDrawPlans.
unfoldable pub plan_before : AutoDrawPlan → AutoDrawPlan → Bool
plan_before p q =
    if not (p.planned_at == q.planned_at)
    then before p.planned_at q.planned_at
    else if not (text_eq p.window_id q.window_id)
    then text_lt p.window_id q.window_id
    else text_lt p.key q.key

unfoldable pub plan_values : Dict AutoDrawPlan → List AutoDrawPlan
plan_values [] = []
plan_values ((key, plan) ∷ plans) = plan ∷ plan_values plans

-- Store.AutoDrawPlans
unfoldable pub auto_draw_plans : Text → Store → List AutoDrawPlan
auto_draw_plans date s =
    let date = trim_space date in
    sort_by plan_before
      (keep_if (λ p. is_empty date || text_eq p.date date) (plan_values s.content.plans))

-- Store.AutoDrawPlan
unfoldable pub auto_draw_plan : Text → Store → Option AutoDrawPlan
auto_draw_plan key s = lookup (trim_space key) s.content.plans

-- The write of a changed plan, undone by writing `previous` back.
unfoldable pub replace_plan :
    {A : Type 0} → Env → Text → AutoDrawPlan → AutoDrawPlan → A → Store → Result A × Store
replace_plan e key previous plan a s =
    let written = insert key plan s.content.plans in
    commit e (with_plans s written) (with_plans s (insert key previous written)) a s

-- The plan that BeginAutoDrawPlan writes.
unfoldable pub begun : Env → AutoDrawPlan → AutoDrawPlan
begun e plan = record plan {
  status = plan_running;
  executed_at = zero_time;
  note = [];
  message = [];
  prize_label = [];
  quota_delta_usd = none;
  updated_at = e.clock 0;
}

-- Store.BeginAutoDrawPlan; the Bool says whether the plan is to be executed.
unfoldable pub begin_auto_draw_plan : Env → Text → Store → Result (AutoDrawPlan × Bool) × Store
begin_auto_draw_plan e key s =
    let key = trim_space key in
    on_ok (or_fail (lookup key s.content.plans) plan_not_found) s λ plan.
      if is_terminal_status plan.status
      then (ok (plan, false), s)
      else replace_plan e key plan (begun e plan) (begun e plan, true) s

-- What FinishAutoDrawPlan checks before it writes: the plan as it was and as it will be. time.Now is
-- read for `executed_at` only if no time is given, and then again for `updated_at`.
unfoldable pub finishing :
    Env
    → Text
    → Text
    → Text
    → Text
    → Option Money
    → Time
    → Store
    → Result (AutoDrawPlan × AutoDrawPlan)
finishing e key status message prize delta executed_at s = do
  plan ← or_fail (lookup key s.content.plans) plan_not_found
  status ← normalize_finished_status status
  message ← normalize_display_text message 512
  prize ← normalize_display_text prize 256
  ok (
    plan,
    record plan {
      status = status;
      message = message;
      prize_label = prize;
      quota_delta_usd = delta;
      executed_at = if is_zero executed_at then e.clock 0 else executed_at;
      updated_at = if is_zero executed_at then e.clock 1 else e.clock 0;
    },
  )

-- Store.FinishAutoDrawPlan
unfoldable pub finish_auto_draw_plan :
    Env → Text → Text → Text → Text → Option Money → Time → Store → Result AutoDrawPlan × Store
finish_auto_draw_plan e key status message prize delta executed_at s =
    let key = trim_space key in
    on_ok (finishing e key status message prize delta executed_at s) s
      λ (previous, plan). replace_plan e key previous plan plan s

-- What PostponeAutoDrawPlan checks before it writes.
unfoldable pub postponing : Env → Text → Time → Text → Store → Result (AutoDrawPlan × AutoDrawPlan)
postponing e key next_at note s = do
  plan ← or_fail (lookup key s.content.plans) plan_not_found
  reject_if (is_terminal_status plan.status) already_finished
  reject_if (is_zero next_at) postpone_time_required
  note ← normalize_display_text note 512
  ok (
    plan,
    record plan {
      status = plan_pending;
      planned_at = next_at;
      executed_at = zero_time;
      note = note;
      updated_at = e.clock 0;
    },
  )

-- Store.PostponeAutoDrawPlan
unfoldable pub postpone_auto_draw_plan :
    Env → Text → Time → Text → Store → Result AutoDrawPlan × Store
postpone_auto_draw_plan e key next_at note s =
    let key = trim_space key in
    on_ok (postponing e key next_at note s) s
      λ (previous, plan). replace_plan e key previous plan plan s
