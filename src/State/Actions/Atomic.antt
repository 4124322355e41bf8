-- ===== src/State/Actions/Atomic.antt =====
-- The writes of the operations on actions.
use lottery.Prelude.{◌≡◌, refl, ap, inl, inr, some, arith, Option-cases}
use lottery.Prelude.Text.{Text, trim_space}
use lottery.Prelude.Dict.{lookup, insert_back, erase_back}
use lottery.State.Types.{Action, Store}
use lottery.State.Persist.{Env}
use lottery.State.Persist.RoundTrip.{Transacts, commit-Transacts, on_ok-Transacts}
use lottery.State.Actions.{
  with_actions, get_or_create_action, replace_action, update_action, reset_retryable_action,
  rotate_repeatable_action, action_key, reset, retryable_action, rotation,
}

pub replace_action-Transacts :
    (e : Env) (key : Text) (previous action : Action) (s : Store)
    → lookup key s.content.actions ≡ some previous
    → Transacts s (replace_action e key previous action s)
unfolding replace_action
replace_action-Transacts e key previous action s h =
    commit-Transacts e _ _ action s
      (ap (with_actions s) (insert_back key action previous s.content.actions h))

-- GetOrCreateAction is a transaction.
pub get_or_create_action-Transacts :
    (e : Env) (account_id date kind : Text) (s : Store)
    → Transacts s (get_or_create_action e account_id date kind s)
unfolding get_or_create_action
get_or_create_action-Transacts e account_id date kind s = on_ok-Transacts _ s _ λ _ _.
    elim (Option-cases (lookup key s.content.actions)) [
      | inl h ↦ rw h (
          on_ok-Transacts _ s _ λ k _.
            commit-Transacts e _ _ _ s (ap (with_actions s) (erase_back key _ s.content.actions h)))
      | inr (a, h) ↦ rw h (inl refl)
    ]
  where
    key : Text
    key = action_key (trim_space account_id) (trim_space date) kind

-- UpdateAction is a transaction, whatever the update does.
pub update_action-Transacts :
    (e : Env) (key : Text) (update : Action → Action) (s : Store)
    → Transacts s (update_action e key update s)
unfolding update_action
update_action-Transacts e key update s =
    on_ok-Transacts _ s _ λ a h. replace_action-Transacts e key a _ s (ground arith)

-- ResetRetryableAction is a transaction.
pub reset_retryable_action-Transacts :
    (e : Env) (key : Text) (s : Store) → Transacts s (reset_retryable_action e key s)
unfolding reset_retryable_action retryable_action
reset_retryable_action-Transacts e key s =
    on_ok-Transacts _ s _ λ a h. replace_action-Transacts e key a (reset e a) s (ground arith)

-- RotateRepeatableAction is a transaction.
pub rotate_repeatable_action-Transacts :
    (e : Env) (key : Text) (s : Store) → Transacts s (rotate_repeatable_action e key s)
unfolding rotate_repeatable_action rotation
rotate_repeatable_action-Transacts e key s =
    on_ok-Transacts _ s _ λ p h. replace_action-Transacts e key p.0 p.1 s (ground arith)
