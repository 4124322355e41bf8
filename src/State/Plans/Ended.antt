-- ===== src/State/Plans/Ended.antt =====
-- Plans that have ended.
use lottery.Prelude.{◌≡◌, inl, inr, true, false, some, List, [], ◌∷◌, arith, Bool-cases}
use lottery.Prelude.Text.{Text, text_eq_iff, trim_space}
use lottery.Prelude.Time.{Time}
use lottery.State.Types.{AutoDrawPlan, Store}
use lottery.State.Persist.{Env}
use lottery.State.Persist.RoundTrip.{on_ok-after}
use lottery.State.Display.{is_terminal_status}
use lottery.State.Plans.{
  begun, begin_auto_draw_plan, postponing, postpone_auto_draw_plan, replace_plan,
}
use lottery.State.Plans.Ensured.{ensure-keeps}
use lottery.State.Plans.Lifecycle.{
  stored, Call, ensure, begin, finish, postpone, perform, perform_all, replace_plan-stored,
}

-- All calls but FinishAutoDrawPlan.
abbrev pub IsNoFinish : Call → Type 0
IsNoFinish (ensure inputs) = Unit
IsNoFinish (begin key) = Unit
IsNoFinish (finish key status message prize delta executed_at) = ⊥
IsNoFinish (postpone key next_at note) = Unit

abbrev pub AreNoFinish : List (Env × Call) → Type 0
AreNoFinish [] = Unit
AreNoFinish ((e, call) ∷ calls) = IsNoFinish call × AreNoFinish calls

-- A change to one plan that has not ended leaves every ended plan alone.
replace_plan-keeps_ended :
    {A : Type 0} (e : Env) (key j : Text) (previous plan p : AutoDrawPlan) (a : A) (s : Store)
    → stored key s ≡ some previous
    → is_terminal_status previous.status ≡ false
    → stored j s ≡ some p
    → is_terminal_status p.status ≡ true
    → stored j (replace_plan e key previous plan a s).1 ≡ some p
replace_plan-keeps_ended e key j previous plan p a s h unended k ended =
    ground (arith, replace_plan-stored e key j previous plan a s h, text_eq_iff key j)

begin-keeps_ended :
    (e : Env) (j key : Text) (s : Store) (p : AutoDrawPlan)
    → stored key s ≡ some p
    → is_terminal_status p.status ≡ true
    → stored key (begin_auto_draw_plan e j s).1 ≡ some p
unfolding begin_auto_draw_plan
begin-keeps_ended e j key s p h ended =
    on_ok-after (λ t. stored key t ≡ some p) _ s _ h
      λ plan q. elim (Bool-cases (is_terminal_status plan.status)) [
        | inl t ↦ rw t h
        | inr t ↦ rw t (
            replace_plan-keeps_ended e (trim_space j) key plan (begun e plan) p _ s (ground arith) t
              h ended)
      ]

postpone-keeps_ended :
    (e : Env) (j : Text) (next_at : Time) (note key : Text) (s : Store) (p : AutoDrawPlan)
    → stored key s ≡ some p
    → is_terminal_status p.status ≡ true
    → stored key (postpone_auto_draw_plan e j next_at note s).1 ≡ some p
unfolding postpone_auto_draw_plan postponing
postpone-keeps_ended e j next_at note key s p h ended =
    on_ok-after (λ t. stored key t ≡ some p) _ s _ h
      λ r q.
        replace_plan-keeps_ended e (trim_space j) key r.0 r.1 p _ s (ground arith) (ground arith) h
          ended

perform-keeps_ended :
    (e : Env) (call : Call) (key : Text) (s : Store) (p : AutoDrawPlan)
    → IsNoFinish call
    → stored key s ≡ some p
    → is_terminal_status p.status ≡ true
    → stored key (perform e call s) ≡ some p
unfolding perform
perform-keeps_ended e (ensure inputs) key s p n h ended = ensure-keeps e inputs key s p h
perform-keeps_ended e (begin j) key s p n h ended = begin-keeps_ended e j key s p h ended
perform-keeps_ended e (finish j status message prize delta executed_at) key s p n h ended = absurd n
perform-keeps_ended e (postpone j next_at note) key s p n h ended =
    postpone-keeps_ended e j next_at note key s p h ended

-- A plan that has ended is left exactly as it is by every sequence of calls that ensure, begin and
-- postpone plans, its own included, whether or not the writes succeed.
pub perform_all-keeps_ended :
    (calls : List (Env × Call)) (key : Text) (s : Store) (p : AutoDrawPlan)
    → AreNoFinish calls
    → stored key s ≡ some p
    → is_terminal_status p.status ≡ true
    → stored key (perform_all calls s) ≡ some p
unfolding perform_all
perform_all-keeps_ended [] key s p n h ended = h
perform_all-keeps_ended ((e, call) ∷ calls) key s p n h ended =
    perform_all-keeps_ended calls key (perform e call s) p n.1
      (perform-keeps_ended e call key s p n.0 h ended) ended
