-- ===== src/State/Actions/Lifecycle.antt =====
-- The life of one action through GetOrCreateAction, ResetRetryableAction and
-- RotateRepeatableAction.
use lottery.Prelude.{
  ◌≡◌, inl, inr, Bool, true, false, Option, none, some, List, [], ◌∷◌, arith, Option-cases,
  if◌then◌else◌,
}
use lottery.Prelude.Text.{Text, text_eq, text_eq_iff, text_eq_refl, trim_space}
use lottery.Prelude.Dict.{lookup, lookup-insert, erase_back, insert_back}
use lottery.Prelude.Result.{ok, Result-cases}
use lottery.State.Types.{Action, Store}
use lottery.State.Persist.{Env, commit, on_ok, new_idempotency_key}
use lottery.State.Actions.{
  action_key, get_or_create_action, replace_action, retryable_action, reset_retryable_action,
  is_repeatable, rotation, rotated, new_action, rotate_repeatable_action, reset,
}

abbrev pub stored : Text → Store → Option Action
stored key s = lookup key s.content.actions

-- Asking again for an action, at any later time, returns the one that was created or found the
-- first time, under the same idempotency key, and changes nothing.
pub get_or_create_action_twice :
    (e later : Env) (account_id date kind : Text) (s : Store) (a : Action) (created : Bool)
    → (get_or_create_action e account_id date kind s).0 ≡ ok (a, created)
    → get_or_create_action later account_id date kind
        (get_or_create_action e account_id date kind s).1
      ≡ (ok (a, false), (get_or_create_action e account_id date kind s).1)
unfolding get_or_create_action commit on_ok
get_or_create_action_twice e later account_id date kind s a created h =
    let key = action_key (trim_space account_id) (trim_space date) kind in
    ground (arith, lookup-insert key key a s.content.actions, text_eq_refl key)

-- What replace_action leaves behind.
replace_action-stored :
    (e : Env) (key j : Text) (previous action : Action) (s : Store)
    → stored key s ≡ some previous
    → stored j (replace_action e key previous action s).1 ≡ elim e.write [
      | none ↦ if text_eq key j then some action else stored j s
      | some _ ↦ stored j s
    ]
unfolding replace_action commit
replace_action-stored e key j previous action s h = ground (
  arith,
  lookup-insert key j action s.content.actions,
  insert_back key action previous s.content.actions h,
)

-- A reset succeeds only on an action that is stored, marked retryable and not under way. The action
-- that is stored from then on is pending, no longer retryable, and keeps its idempotency key.
pub reset_retryable_action_lem :
    (e : Env) (key : Text) (s : Store) (a : Action)
    → (reset_retryable_action e key s).0 ≡ ok a
    → (old : Action) × (stored key s ≡ some old)
      × (old.retryable ≡ true)
      × (old.side_effect_started ≡ false)
      × (a ≡ reset e old)
      × (a.idempotency_key ≡ old.idempotency_key)
      × (stored key (reset_retryable_action e key s).1 ≡ some a)
unfolding reset_retryable_action retryable_action replace_action commit on_ok reset
reset_retryable_action_lem e key s a h = elim (Option-cases (stored key s)) [
  | inl q ↦ ground arith
  | inr (old, q) ↦ (
    old,
    q,
    ground arith,
    ground arith,
    ground arith,
    ground arith,
    ground (arith, lookup-insert key key a s.content.actions, text_eq_refl key),
  )
]

-- A rotation succeeds only on a stored action that is not under way, and that has completed or has
-- failed and may be retried. The action that is stored from then on is pending under the new
-- idempotency key, with nothing left of the old attempt.
pub rotate_repeatable_action_lem :
    (e : Env) (key : Text) (s : Store) (a : Action)
    → (rotate_repeatable_action e key s).0 ≡ ok a
    → (old : Action) × (idempotency_key : Text) × (stored key s ≡ some old)
      × (old.side_effect_started ≡ false)
      × (is_repeatable old ≡ true)
      × (new_idempotency_key e 0 ≡ ok idempotency_key)
      × (a ≡ rotated e idempotency_key old)
      × (stored key (rotate_repeatable_action e key s).1 ≡ some a)
unfolding rotate_repeatable_action rotation replace_action commit on_ok
rotate_repeatable_action_lem e key s a h = elim (Option-cases (stored key s)) [
  | inl q ↦ ground arith
  | inr (old, q) ↦ elim (Result-cases (new_idempotency_key e 0)) [
    | inr (why, k) ↦ ground arith
    | inl (idempotency_key, k) ↦ (
      old,
      idempotency_key,
      q,
      ground arith,
      ground arith,
      k,
      ground arith,
      ground (arith, lookup-insert key key a s.content.actions, text_eq_refl key),
    )
  ]
]

-- The calls that services make on stored actions, apart from their own updates.
pub data Call : Type 0 where
  get_or_create : Text → Text → Text → Call
  reset_retryable rotate_repeatable : Text → Call

pub perform : Env → Call → Store → Store
perform e (get_or_create account_id date kind) s = (get_or_create_action e account_id date kind s).1
perform e (reset_retryable key) s = (reset_retryable_action e key s).1
perform e (rotate_repeatable key) s = (rotate_repeatable_action e key s).1

pub perform_all : List (Env × Call) → Store → Store
perform_all [] s = s
perform_all ((e, call) ∷ calls) s = perform_all calls (perform e call s)

create_keeps :
    (e : Env) (account_id date kind key : Text) (s : Store) (a : Action)
    → stored key s ≡ some a
    → stored key (get_or_create_action e account_id date kind s).1 ≡ some a
unfolding get_or_create_action commit on_ok
create_keeps e account_id date kind key s a h =
    let new_key = action_key (trim_space account_id) (trim_space date) kind in
    elim (Option-cases (stored new_key s)) [
      | inr (old, q) ↦ ground arith
      | inl q ↦ elim (Result-cases (new_idempotency_key e 0)) [
        | inr (why, k) ↦ ground arith
        | inl (id, k) ↦
            let made = new_action e new_key (trim_space account_id) (trim_space date) kind id in
            ground (
              arith,
              lookup-insert new_key key made s.content.actions,
              erase_back new_key made s.content.actions q,
              text_eq_iff new_key key,
            )
      ]
    ]

reset_keeps :
    (e : Env) (j key : Text) (s : Store) (a : Action)
    → stored key s ≡ some a
    → a.side_effect_started ≡ true
    → stored key (reset_retryable_action e j s).1 ≡ some a
unfolding reset_retryable_action retryable_action on_ok
reset_keeps e j key s a h started = elim (Option-cases (stored j s)) [
  | inl q ↦ ground arith
  | inr (old, q) ↦
      ground (arith, replace_action-stored e j key old (reset e old) s q, text_eq_iff j key)
]

rotate_keeps :
    (e : Env) (j key : Text) (s : Store) (a : Action)
    → stored key s ≡ some a
    → a.side_effect_started ≡ true
    → stored key (rotate_repeatable_action e j s).1 ≡ some a
unfolding rotate_repeatable_action rotation on_ok
rotate_keeps e j key s a h started = elim (Option-cases (stored j s)) [
  | inl q ↦ ground arith
  | inr (old, q) ↦ elim (Result-cases (new_idempotency_key e 0)) [
    | inr (why, k) ↦ ground arith
    | inl (id, k) ↦
        ground (arith, replace_action-stored e j key old (rotated e id old) s q, text_eq_iff j key)
  ]
]

perform-keeps_started :
    (e : Env) (call : Call) (key : Text) (s : Store) (a : Action)
    → stored key s ≡ some a
    → a.side_effect_started ≡ true
    → stored key (perform e call s) ≡ some a
unfolding perform
perform-keeps_started e (get_or_create account_id date kind) key s a h started =
    create_keeps e account_id date kind key s a h
perform-keeps_started e (reset_retryable j) key s a h started = reset_keeps e j key s a h started
perform-keeps_started e (rotate_repeatable j) key s a h started = rotate_keeps e j key s a h started

-- An action that is marked as started is left exactly as it is by every sequence of calls of
-- GetOrCreateAction, ResetRetryableAction and RotateRepeatableAction, whatever actions they name, and
-- whether or not the writes succeed.
pub perform_all-keeps_started :
    (calls : List (Env × Call)) (key : Text) (s : Store) (a : Action)
    → stored key s ≡ some a
    → a.side_effect_started ≡ true
    → stored key (perform_all calls s) ≡ some a
unfolding perform_all
perform_all-keeps_started [] key s a h started = h
perform_all-keeps_started ((e, call) ∷ calls) key s a h started =
    perform_all-keeps_started calls key (perform e call s) a
      (perform-keeps_started e call key s a h started) started
