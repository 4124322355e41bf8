-- ===== src/State/Plans/Lifecycle.antt =====
-- The life of a plan through EnsureAutoDrawPlans, BeginAutoDrawPlan, FinishAutoDrawPlan and
-- PostponeAutoDrawPlan.
use lottery.Prelude.{
  ◌≡◌, inl, inr, false, Option, none, some, List, [], ◌∷◌, arith, Bool-cases, Option-cases,
  if◌then◌else◌,
}
use lottery.Prelude.Text.{Text, text_eq, text_eq_iff, text_eq_refl, trim_space}
use lottery.Prelude.Dict.{lookup, insert_back, lookup-insert}
use lottery.Prelude.Result.{ok}
use lottery.Prelude.Time.{Time}
use lottery.Quota.Money.{Money}
use lottery.State.Types.{AutoDrawPlan, Store}
use lottery.State.Persist.{Env, commit, on_ok}
use lottery.State.Persist.RoundTrip.{on_ok-after}
use lottery.State.Display.{is_terminal_status}
use lottery.State.Display.Safety.{normalize_finished_status-terminal}
use lottery.State.Plans.{
  ensure_auto_draw_plans, replace_plan, begun, begin_auto_draw_plan, finishing,
  finish_auto_draw_plan, postponing, postpone_auto_draw_plan,
}
use lottery.State.Plans.Ensured.{ensure-keeps}

abbrev pub stored : Text → Store → Option AutoDrawPlan
stored key s = lookup key s.content.plans

pub data Call : Type 0 where
  ensure : List AutoDrawPlan → Call
  begin : Text → Call
  finish : Text → Text → Text → Text → Option Money → Time → Call
  postpone : Text → Time → Text → Call

unfoldable pub perform : Env → Call → Store → Store
perform e (ensure inputs) s = (ensure_auto_draw_plans e inputs s).1
perform e (begin key) s = (begin_auto_draw_plan e key s).1
perform e (finish key status message prize delta executed_at) s =
    (finish_auto_draw_plan e key status message prize delta executed_at s).1
perform e (postpone key next_at note) s = (postpone_auto_draw_plan e key next_at note s).1

unfoldable pub perform_all : List (Env × Call) → Store → Store
perform_all [] s = s
perform_all ((e, call) ∷ calls) s = perform_all calls (perform e call s)

-- What replace_plan leaves behind.
pub replace_plan-stored :
    {A : Type 0} (e : Env) (key j : Text) (previous plan : AutoDrawPlan) (a : A) (s : Store)
    → stored key s ≡ some previous
    → stored j (replace_plan e key previous plan a s).1 ≡ elim e.write [
      | none ↦ if text_eq key j then some plan else stored j s
      | some _ ↦ stored j s
    ]
unfolding replace_plan commit
replace_plan-stored e key j previous plan a s h = ground (
  arith,
  lookup-insert key j plan s.content.plans,
  insert_back key plan previous s.content.plans h,
)

-- A plan that has been finished is not executed again: the next attempt to begin it, at any later
-- time, is told so and changes nothing.
pub begin_after_finish :
    (e later : Env) (key status message prize : Text) (delta : Option Money) (executed_at : Time)
    (s : Store) (plan : AutoDrawPlan)
    → (finish_auto_draw_plan e key status message prize delta executed_at s).0 ≡ ok plan
    → begin_auto_draw_plan later key
        (finish_auto_draw_plan e key status message prize delta executed_at s).1
      ≡ (ok (plan, false), (finish_auto_draw_plan e key status message prize delta executed_at s).1)
unfolding finish_auto_draw_plan finishing begin_auto_draw_plan replace_plan commit on_ok
begin_after_finish e later key status message prize delta executed_at s plan h = ground (
  arith,
  lookup-insert (trim_space key) (trim_space key) plan s.content.plans,
  text_eq_refl (trim_space key),
  normalize_finished_status-terminal status plan.status,
)

-- The same task under the same idempotency key.
abbrev pub SameTask : AutoDrawPlan → Option AutoDrawPlan → Type 0
SameTask p none = ⊥
SameTask p (some q) =
    (q.idempotency_key ≡ p.idempotency_key)
    × (q.key ≡ p.key)
    × (q.date ≡ p.date)
    × (q.account_id ≡ p.account_id)
    × (q.window_id ≡ p.window_id)
    × (q.task_type ≡ p.task_type)

replace_plan-SameTask :
    {A : Type 0} (e : Env) (key j : Text) (previous plan p : AutoDrawPlan) (a : A) (s : Store)
    → stored key s ≡ some previous
    → SameTask previous (some plan)
    → stored j s ≡ some p
    → SameTask p (stored j (replace_plan e key previous plan a s).1)
replace_plan-SameTask e key j previous plan p a s h same k =
    ground (arith, replace_plan-stored e key j previous plan a s h, text_eq_iff key j)

begin-SameTask :
    (e : Env) (j key : Text) (s : Store) (p : AutoDrawPlan)
    → stored key s ≡ some p
    → SameTask p (stored key (begin_auto_draw_plan e j s).1)
unfolding begin_auto_draw_plan
begin-SameTask e j key s p h =
    on_ok-after (λ t. SameTask p (stored key t)) _ s _ (ground arith)
      λ plan q. elim (Bool-cases (is_terminal_status plan.status)) [
        | inl t ↦ rw t (ground arith)
        | inr t ↦ rw t (
            replace_plan-SameTask e (trim_space j) key plan (begun e plan) p _ s (ground arith)
              (unfold begun in ground arith) h)
      ]

finish-SameTask :
    (e : Env) (j status message prize : Text) (delta : Option Money) (executed_at : Time)
    (key : Text) (s : Store) (p : AutoDrawPlan)
    → stored key s ≡ some p
    → SameTask p (stored key (finish_auto_draw_plan e j status message prize delta executed_at s).1)
unfolding finish_auto_draw_plan finishing
finish-SameTask e j status message prize delta executed_at key s p h =
    on_ok-after (λ t. SameTask p (stored key t)) _ s _ (ground arith)
      λ r q.
        replace_plan-SameTask e (trim_space j) key r.0 r.1 p _ s (ground arith) (ground arith) h

postpone-SameTask :
    (e : Env) (j : Text) (next_at : Time) (note key : Text) (s : Store) (p : AutoDrawPlan)
    → stored key s ≡ some p
    → SameTask p (stored key (postpone_auto_draw_plan e j next_at note s).1)
unfolding postpone_auto_draw_plan postponing
postpone-SameTask e j next_at note key s p h =
    on_ok-after (λ t. SameTask p (stored key t)) _ s _ (ground arith)
      λ r q.
        replace_plan-SameTask e (trim_space j) key r.0 r.1 p _ s (ground arith) (ground arith) h

perform-SameTask :
    (e : Env) (call : Call) (key : Text) (s : Store) (p : AutoDrawPlan)
    → stored key s ≡ some p
    → SameTask p (stored key (perform e call s))
unfolding perform
perform-SameTask e (ensure inputs) key s p h = ground (arith, ensure-keeps e inputs key s p h)
perform-SameTask e (begin j) key s p h = begin-SameTask e j key s p h
perform-SameTask e (finish j status message prize delta executed_at) key s p h =
    finish-SameTask e j status message prize delta executed_at key s p h
perform-SameTask e (postpone j next_at note) key s p h =
    postpone-SameTask e j next_at note key s p h

SameTask-trans :
    (p q : AutoDrawPlan) (o : Option AutoDrawPlan)
    → SameTask p (some q)
    → SameTask q o
    → SameTask p o
SameTask-trans p q none h k = k
SameTask-trans p q (some r) h k = ground arith

-- No sequence of calls that ensure, begin, finish and postpone plans changes the idempotency key of a
-- stored plan, or the task that it stands for, whether or not the writes succeed.
pub perform_all-SameTask :
    (calls : List (Env × Call)) (key : Text) (s : Store) (p : AutoDrawPlan)
    → stored key s ≡ some p
    → SameTask p (stored key (perform_all calls s))
unfolding perform_all
perform_all-SameTask [] key s p h = ground arith
perform_all-SameTask ((e, call) ∷ calls) key s p h =
    elim (Option-cases (stored key (perform e call s))) [
      | inl q ↦ absurd (ground (arith, perform-SameTask e call key s p h))
      | inr (r, q) ↦
          SameTask-trans p r _ (ground (arith, perform-SameTask e call key s p h))
            (perform_all-SameTask calls key (perform e call s) r q)
    ]
