-- ===== src/State/Plans/Shape.antt =====
-- The shape of the stored plans.
use lottery.Prelude.{
  ℕ, ◌+◌, ◌≡◌, refl, subst, ◌++◌, ◌⊎◌, inl, inr, Bool, true, false, Option, none, some, List, [],
  ◌∷◌, arith, Bool-cases, Option-cases, if◌then◌else◌,
}
use lottery.Prelude.Text.{Text, text_eq, text_eq_iff, trim_space, is_empty}
use lottery.Prelude.Dict.{Dict, lookup, lookup-insert}
use lottery.Prelude.Result.{ok, Result-cases}
use lottery.Prelude.Time.{Time}
use lottery.Quota.Money.{Money}
use lottery.State.Types.{AutoDrawPlan, Store, plan_pending, plan_running}
use lottery.State.Persist.{Env}
use lottery.State.Persist.RoundTrip.{on_ok-after, commit-after}
use lottery.State.Display.{is_terminal_status, is_plan_status, normalize_status}
use lottery.State.Display.Safety.{terminal-IsStatus, normalize_finished_status-terminal}
use lottery.State.Plans.{
  plan_key, clear_unfinished, normalize_plan, begun, begin_auto_draw_plan, finishing,
  finish_auto_draw_plan, postponing, postpone_auto_draw_plan, replace_plan, ensure_loop, place_plan,
  ensure_auto_draw_plans,
}
use lottery.State.Plans.Atomic.{ensure_loop-AreNew, insert_all-append, erase_all-insert_all}
use lottery.State.Plans.Ensured.{lookup-append_left, lookup-append_right}
use lottery.State.Plans.Lifecycle.{
  stored, Call, ensure, begin, finish, postpone, perform, perform_all, replace_plan-stored,
}

-- A plan stands under the key that its date, window and account give, its status is one of the
-- five, and it carries a result only if it has ended.
pub record IsShaped (key : Text) (p : AutoDrawPlan) : Type 0 where
  pub keyed : p.key ≡ key
  pub derived : p.key ≡ plan_key p.date p.account_id p.window_id
  pub known : is_plan_status p.status ≡ true
  pub clear :
      (is_terminal_status p.status ≡ true)
      ⊎ ((p.executed_at ≡ 0) × (p.message ≡ []) × (p.prize_label ≡ []) × (p.quota_delta_usd ≡ none))

known-pending : is_plan_status plan_pending ≡ true
unfolding is_plan_status text_eq
known-pending = refl

known-running : is_plan_status plan_running ≡ true
unfolding is_plan_status text_eq
known-running = refl

begun-IsShaped :
    (e : Env) (key : Text) (p : AutoDrawPlan) → IsShaped key p → IsShaped key (begun e p)
unfolding begun
begun-IsShaped e key p h = ground (arith, known-running)

finishing-IsShaped :
    (e : Env) (j key status message prize : Text) (delta : Option Money) (executed_at : Time)
    (s : Store) (p q : AutoDrawPlan)
    → finishing e j status message prize delta executed_at s ≡ ok (p, q)
    → IsShaped key p
    → IsShaped key q
unfolding finishing
finishing-IsShaped e j key status message prize delta executed_at s p q h shaped =
    ground (arith, normalize_finished_status-terminal status q.status, terminal-IsStatus q.status)

postponing-IsShaped :
    (e : Env) (j key : Text) (next_at : Time) (note : Text) (s : Store) (p q : AutoDrawPlan)
    → postponing e j next_at note s ≡ ok (p, q)
    → IsShaped key p
    → IsShaped key q
unfolding postponing
postponing-IsShaped e j key next_at note s p q h shaped = ground (arith, known-pending)

normalize_status-known :
    (status result : Text)
    → normalize_status status ≡ ok result
    → is_plan_status (if is_empty result then plan_pending else result) ≡ true
unfolding normalize_status
normalize_status-known status result h = ground (arith, known-pending)

normalize_plan-IsShaped :
    (e : Env) (n : ℕ) (input p : AutoDrawPlan) (preserve : Bool)
    → normalize_plan e n input preserve ≡ ok p
    → IsShaped p.key p
unfolding normalize_plan clear_unfinished
normalize_plan-IsShaped e n input p preserve h =
    elim (Result-cases (normalize_status input.status)) [
      | inr (why, q) ↦ absurd (ground arith)
      | inl (status, q) ↦ ground (arith, normalize_status-known input.status status q)
    ]

abbrev pub AreShaped : Dict AutoDrawPlan → Type 0
AreShaped plans = (key : Text) (p : AutoDrawPlan) → lookup key plans ≡ some p → IsShaped key p

replace_plan-AreShaped :
    {A : Type 0} (e : Env) (key : Text) (previous plan : AutoDrawPlan) (a : A) (s : Store)
    → stored key s ≡ some previous
    → (IsShaped key previous → IsShaped key plan)
    → AreShaped s.content.plans
    → AreShaped (replace_plan e key previous plan a s).1.content.plans
replace_plan-AreShaped e key previous plan a s h step all j p k =
    let old = step (all key previous h) in
    elim (Bool-cases (text_eq key j)) [
      | inl same ↦ elim (Option-cases e.write) [
        | inl w ↦
            ground (arith, replace_plan-stored e key j previous plan a s h, text_eq_iff key j, old)
        | inr (why, w) ↦ all j p (ground (arith, replace_plan-stored e key j previous plan a s h))
      ]
      | inr other ↦ all j p (ground (arith, replace_plan-stored e key j previous plan a s h))
    ]

pub empty-AreShaped : AreShaped []
unfolding lookup
empty-AreShaped key p h = cc

place_plan-AreShaped :
    (old pending : Dict AutoDrawPlan) (plan : AutoDrawPlan)
    → IsShaped plan.key plan
    → AreShaped pending
    → AreShaped (place_plan old pending plan).1
unfolding place_plan
place_plan-AreShaped old pending plan shaped all k p h =
    ground (arith, all k p, lookup-insert plan.key k plan pending, text_eq_iff plan.key k)

ensure_loop-AreShaped :
    (e : Env) (n : ℕ) (old pending : Dict AutoDrawPlan) (inputs results : List AutoDrawPlan)
    (added : Dict AutoDrawPlan)
    → ensure_loop e n old pending inputs ≡ ok (results, added)
    → AreShaped pending
    → AreShaped added
unfolding ensure_loop
ensure_loop-AreShaped e n old pending [] results added h all = subst AreShaped (ground arith) all
ensure_loop-AreShaped e n old pending (input ∷ inputs) results added h all =
    elim (Result-cases (normalize_plan e n input false)) [
      | inr (why, r) ↦ absurd (ground arith)
      | inl (plan, r) ↦
          let next = (place_plan old pending plan).1 in
          elim (Result-cases (ensure_loop e (n + 1) old next inputs)) [
            | inr (why, t) ↦ absurd (ground arith)
            | inl (rest, t) ↦
                let same : rest.1 ≡ added = ground arith in
                subst AreShaped same (
                  ensure_loop-AreShaped e (n + 1) old next inputs rest.0 rest.1 t (
                    place_plan-AreShaped old pending plan
                      (normalize_plan-IsShaped e n input plan false r) all))
          ]
    ]

append-AreShaped :
    (plans added : Dict AutoDrawPlan)
    → AreShaped plans
    → AreShaped added
    → AreShaped (plans ++ added)
append-AreShaped plans added old new k p h = elim (Option-cases (lookup k plans)) [
  | inl q ↦ new k p (ground (arith, lookup-append_right plans added k q))
  | inr (r, q) ↦ old k p (ground (arith, lookup-append_left plans added k r q))
]

perform-AreShaped :
    (e : Env) (call : Call) (s : Store)
    → AreShaped s.content.plans
    → AreShaped (perform e call s).content.plans
unfolding perform ensure_auto_draw_plans begin_auto_draw_plan finish_auto_draw_plan
    postpone_auto_draw_plan
perform-AreShaped e (ensure inputs) s all =
    on_ok-after (λ t. AreShaped t.content.plans) _ s _ all
      λ r q.
        let new = ensure_loop-AreNew e 0 s.content.plans [] inputs r.0 r.1 tt q in
        commit-after (λ t. AreShaped t.content.plans) e _ _ r.0 s
          (rw (insert_all-append r.1 s.content.plans new) (
            append-AreShaped s.content.plans r.1 all
              (ensure_loop-AreShaped e 0 s.content.plans [] inputs r.0 r.1 q empty-AreShaped)))
          (rw (erase_all-insert_all r.1 s.content.plans new) all)
perform-AreShaped e (begin key) s all =
    on_ok-after (λ t. AreShaped t.content.plans) _ s _ all
      λ plan q. elim (Bool-cases (is_terminal_status plan.status)) [
        | inl t ↦ rw t all
        | inr t ↦ rw t (
            replace_plan-AreShaped e (trim_space key) plan (begun e plan) _ s (ground arith)
              (begun-IsShaped e (trim_space key) plan) all)
      ]
perform-AreShaped e (finish key status message prize delta executed_at) s all =
    on_ok-after (λ t. AreShaped t.content.plans)
      (finishing e (trim_space key) status message prize delta executed_at s) s _ all
      λ r q.
        replace_plan-AreShaped e (trim_space key) r.0 r.1 _ s (unfold finishing in ground arith)
          (finishing-IsShaped e (trim_space key) (trim_space key) status message prize delta
            executed_at s r.0 r.1 q)
          all
perform-AreShaped e (postpone key next_at note) s all =
    on_ok-after (λ t. AreShaped t.content.plans) (postponing e (trim_space key) next_at note s) s _
      all
      λ r q.
        replace_plan-AreShaped e (trim_space key) r.0 r.1 _ s (unfold postponing in ground arith)
          (postponing-IsShaped e (trim_space key) (trim_space key) next_at note s r.0 r.1 q) all

-- If every stored plan stands under the key of its date, window and account, has one of the five
-- statuses, and carries a result only if it has ended, then so it is after every sequence of calls
-- that ensure, begin, finish and postpone plans, whether or not the writes succeed.
pub perform_all-AreShaped :
    (calls : List (Env × Call)) (s : Store)
    → AreShaped s.content.plans
    → AreShaped (perform_all calls s).content.plans
unfolding perform_all
perform_all-AreShaped [] s all = all
perform_all-AreShaped ((e, call) ∷ calls) s all =
    perform_all-AreShaped calls (perform e call s) (perform-AreShaped e call s all)
