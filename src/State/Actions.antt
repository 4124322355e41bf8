-- ===== src/State/Actions.antt =====
-- The actions of internal/state/store.go: one record for an account, a day and a kind, which carries
-- the idempotency key of its request.
pub mod Atomic
pub mod Lifecycle
use lottery.Prelude.{
  Bool, true, false, ◌&&◌, ◌||◌, not, Option, none, some, List, [], ◌∷◌, ◌++◌, if◌then◌else◌,
}
use lottery.Prelude.Text.{Text, codes, text_eq, is_empty, trim_space}
use lottery.Prelude.Int.{pos}
use lottery.Prelude.Dict.{Dict, lookup, insert, erase}
use lottery.Prelude.Result.{
  Result, ok, err, ◌>>=◌, ◌>>◌, reject_if, or_fail, required, action_not_found, not_retryable,
  not_repeatable, side_effect_started,
}
use lottery.State.Types.{Action, Store, DiskState, action_pending, action_completed, action_failed}
use lottery.State.Persist.{Env, new_idempotency_key, commit, on_ok}

unfoldable pub action_key : Text → Text → Text → Text
action_key account_id date kind = date ++ (b':' ∷ (kind ++ (b':' ∷ account_id)))

abbrev pub with_actions : Store → Dict Action → DiskState
with_actions s actions = record (s.content) { actions = actions }

-- The action that GetOrCreateAction creates.
unfoldable pub new_action : Env → Text → Text → Text → Text → Text → Action
new_action e key account_id date kind idempotency_key = record {
  key = key;
  account_id = account_id;
  date = date;
  kind = kind;
  idempotency_key = idempotency_key;
  status = action_pending;
  attempts = pos 0;
  side_effect_started = false;
  retryable = false;
  price_usd = none;
  claim_before_remaining = none;
  claim_after_remaining = none;
  purchase_before_today = none;
  purchase_before_remaining = none;
  pass_before_unlocked = none;
  checkin_quota_awarded = none;
  checkin_quota_awarded_usd = none;
  message = [];
  last_error = [];
  result = none;
  created_at = e.clock 0;
  updated_at = e.clock 0;
}

-- Store.GetOrCreateAction; the Bool says whether the action was created. A new action is taken out
-- again if the write fails.
unfoldable pub get_or_create_action :
    Env → Text → Text → Text → Store → Result (Action × Bool) × Store
get_or_create_action e account_id date kind s =
    let account_id = trim_space account_id in
    let date = trim_space date in
    let key = action_key account_id date kind in
    on_ok (reject_if (is_empty account_id || is_empty date || is_empty kind) required) s λ _.
      elim (lookup key s.content.actions) [
        | some existing ↦ (ok (existing, false), s)
        | none ↦ on_ok (new_idempotency_key e 0) s λ idempotency_key.
            let action = new_action e key account_id date kind idempotency_key in
            let added = insert key action s.content.actions in
            commit e (with_actions s added) (with_actions s (erase key added)) (action, true) s
      ]

-- The write of a changed action, undone by writing `previous` back.
unfoldable pub replace_action : Env → Text → Action → Action → Store → Result Action × Store
replace_action e key previous action s =
    let written = insert key action s.content.actions in
    commit e (with_actions s written) (with_actions s (insert key previous written)) action s

-- Store.UpdateAction
unfoldable pub update_action : Env → Text → (Action → Action) → Store → Result Action × Store
update_action e key update s =
    on_ok (or_fail (lookup key s.content.actions) action_not_found) s λ previous.
      replace_action e key previous (record (update previous) { updated_at = e.clock 0 }) s

-- Store.Action
unfoldable pub action_at : Text → Text → Text → Store → Option Action
action_at account_id date kind s =
    lookup (action_key (trim_space account_id) (trim_space date) kind) s.content.actions

-- The action that ResetRetryableAction writes.
unfoldable pub reset : Env → Action → Action
reset e action = record action {
  status = action_pending;
  retryable = false;
  last_error = [];
  message = [];
  updated_at = e.clock 0;
}

-- What ResetRetryableAction checks before it writes.
unfoldable pub retryable_action : Text → Store → Result Action
retryable_action key s = do
  action ← or_fail (lookup key s.content.actions) action_not_found
  reject_if (not action.retryable || action.side_effect_started) not_retryable
  ok action

-- Store.ResetRetryableAction
unfoldable pub reset_retryable_action : Env → Text → Store → Result Action × Store
reset_retryable_action e key s =
    on_ok (retryable_action key s) s λ action. replace_action e key action (reset e action) s

unfoldable pub is_repeatable : Action → Bool
is_repeatable action =
    text_eq action.status action_completed
    || (text_eq action.status action_failed && action.retryable)

-- The action that RotateRepeatableAction writes.
unfoldable pub rotated : Env → Text → Action → Action
rotated e idempotency_key action = record action {
  idempotency_key = idempotency_key;
  status = action_pending;
  attempts = pos 0;
  side_effect_started = false;
  retryable = false;
  price_usd = none;
  claim_before_remaining = none;
  claim_after_remaining = none;
  purchase_before_today = none;
  purchase_before_remaining = none;
  pass_before_unlocked = none;
  checkin_quota_awarded = none;
  checkin_quota_awarded_usd = none;
  message = [];
  last_error = [];
  result = none;
  updated_at = e.clock 0;
}

-- What RotateRepeatableAction checks before it writes: the action as it was and as it will be.
unfoldable pub rotation : Env → Text → Store → Result (Action × Action)
rotation e key s = do
  action ← or_fail (lookup key s.content.actions) action_not_found
  reject_if action.side_effect_started side_effect_started
  reject_if (not (is_repeatable action)) not_repeatable
  idempotency_key ← new_idempotency_key e 0
  ok (action, rotated e idempotency_key action)

-- Store.RotateRepeatableAction
unfoldable pub rotate_repeatable_action : Env → Text → Store → Result Action × Store
rotate_repeatable_action e key s =
    on_ok (rotation e key s) s λ (previous, action). replace_action e key previous action s
