-- ===== src/State/Plans/Atomic.antt =====
-- The writes of the operations on plans.
use mathlib.Core.List.{append-nil, append_assoc}
use lottery.Prelude.{
  ℕ, ◌+◌, ◌≡◌, refl, ap, sym, inl, inr, ◌∙◌, false, Option, none, some, List, [], ◌∷◌, ◌++◌, arith,
  Bool-cases,
}
use lottery.Prelude.Text.{Text, text_eq_iff, text_eq_refl, trim_space}
use lottery.Prelude.Dict.{Dict, lookup, insert, erase, insert_back, lookup-insert}
use lottery.Prelude.Result.{ok, Result-cases}
use lottery.Prelude.Time.{Time}
use lottery.Quota.Money.{Money}
use lottery.State.Types.{AutoDrawPlan, Store}
use lottery.State.Persist.{Env}
use lottery.State.Persist.RoundTrip.{Transacts, commit-Transacts, on_ok-Transacts}
use lottery.State.Display.{is_terminal_status}
use lottery.State.Plans.{
  with_plans, place_plan, ensure_loop, insert_all, erase_all, ensure_auto_draw_plans, replace_plan,
  begun, begin_auto_draw_plan, finishing, finish_auto_draw_plan, postponing,
  postpone_auto_draw_plan, normalize_plan,
}

pub replace_plan-Transacts :
    {A : Type 0} (e : Env) (key : Text) (previous plan : AutoDrawPlan) (a : A) (s : Store)
    → lookup key s.content.plans ≡ some previous
    → Transacts s (replace_plan e key previous plan a s)
unfolding replace_plan
replace_plan-Transacts e key previous plan a s h =
    commit-Transacts e _ _ a s (ap (with_plans s) (insert_back key plan previous s.content.plans h))

-- BeginAutoDrawPlan is a transaction.
pub begin_auto_draw_plan-Transacts :
    (e : Env) (key : Text) (s : Store) → Transacts s (begin_auto_draw_plan e key s)
unfolding begin_auto_draw_plan
begin_auto_draw_plan-Transacts e key s = on_ok-Transacts _ s _ λ plan h.
    elim (Bool-cases (is_terminal_status plan.status)) [
      | inl t ↦ rw t (inl refl)
      | inr t ↦
          rw t (replace_plan-Transacts e (trim_space key) plan (begun e plan) _ s (ground arith))
    ]

-- FinishAutoDrawPlan is a transaction.
pub finish_auto_draw_plan-Transacts :
    (e : Env) (key status message prize : Text) (delta : Option Money) (executed_at : Time)
    (s : Store)
    → Transacts s (finish_auto_draw_plan e key status message prize delta executed_at s)
unfolding finish_auto_draw_plan finishing
finish_auto_draw_plan-Transacts e key status message prize delta executed_at s =
    on_ok-Transacts _ s _
      λ p h. replace_plan-Transacts e (trim_space key) p.0 p.1 _ s (ground arith)

-- PostponeAutoDrawPlan is a transaction.
pub postpone_auto_draw_plan-Transacts :
    (e : Env) (key : Text) (next_at : Time) (note : Text) (s : Store)
    → Transacts s (postpone_auto_draw_plan e key next_at note s)
unfolding postpone_auto_draw_plan postponing
postpone_auto_draw_plan-Transacts e key next_at note s =
    on_ok-Transacts _ s _
      λ p h. replace_plan-Transacts e (trim_space key) p.0 p.1 _ s (ground arith)

-- The new plans of a call: none is stored, and none stands twice.
abbrev pub AreNew : Dict AutoDrawPlan → Dict AutoDrawPlan → Type 0
AreNew stored [] = Unit
AreNew stored ((key, plan) ∷ added) =
    (lookup key stored ≡ none) × (lookup key added ≡ none) × AreNew stored added

insert-AreNew :
    (stored added : Dict AutoDrawPlan) (key : Text) (plan : AutoDrawPlan)
    → lookup key stored ≡ none
    → lookup key added ≡ none
    → AreNew stored added
    → AreNew stored (insert key plan added)
unfolding insert lookup
insert-AreNew stored [] key plan h k n = (h, refl, tt)
insert-AreNew stored ((j, old) ∷ added) key plan h k n = ground (
  arith,
  insert-AreNew stored added key plan h,
  lookup-insert key j plan added,
  text_eq_iff key j,
  text_eq_refl key,
)

place_plan-AreNew :
    (stored pending : Dict AutoDrawPlan) (plan : AutoDrawPlan)
    → AreNew stored pending
    → AreNew stored (place_plan stored pending plan).1
unfolding place_plan
place_plan-AreNew stored pending plan n = ground (arith, insert-AreNew stored pending plan.key plan)

pub ensure_loop-AreNew :
    (e : Env) (n : ℕ) (stored pending : Dict AutoDrawPlan) (inputs results : List AutoDrawPlan)
    (added : Dict AutoDrawPlan)
    → AreNew stored pending
    → ensure_loop e n stored pending inputs ≡ ok (results, added)
    → AreNew stored added
unfolding ensure_loop
ensure_loop-AreNew e n stored pending [] results added new h = ground arith
ensure_loop-AreNew e n stored pending (input ∷ inputs) results added new h =
    elim (Result-cases (normalize_plan e n input false)) [
      | inr (why, q) ↦ ground arith
      | inl (plan, q) ↦
          let next = (place_plan stored pending plan).1 in
          elim (Result-cases (ensure_loop e (n + 1) stored next inputs)) [
            | inr (why, r) ↦ ground arith
            | inl (rest, r) ↦ ground (
              arith,
              ensure_loop-AreNew e (n + 1) stored next inputs rest.0 rest.1
                  (place_plan-AreNew stored pending plan new) r,
            )
          ]
    ]

lookup-insert_all :
    (added plans : Dict AutoDrawPlan) (k : Text)
    → lookup k added ≡ none
    → lookup k (insert_all added plans) ≡ lookup k plans
unfolding insert_all lookup
lookup-insert_all [] plans k h = refl
lookup-insert_all ((key, plan) ∷ added) plans k h =
    ground
      (arith, lookup-insert_all added (insert key plan plans) k, lookup-insert key k plan plans)

AreNew-weaken :
    (added plans : Dict AutoDrawPlan) (key : Text) (plan : AutoDrawPlan)
    → lookup key added ≡ none
    → AreNew plans added
    → AreNew (insert key plan plans) added
unfolding lookup
AreNew-weaken [] plans key plan h n = tt
AreNew-weaken ((j, p) ∷ added) plans key plan h n = ground (
  arith,
  AreNew-weaken added plans key plan,
  lookup-insert key j plan plans,
  text_eq_iff key j,
  text_eq_refl j,
)

insert-append :
    (key : Text) (plan : AutoDrawPlan) (plans : Dict AutoDrawPlan)
    → lookup key plans ≡ none
    → insert key plan plans ≡ plans ++ (key, plan) ∷ []
unfolding insert lookup
insert-append key plan [] h = refl
insert-append key plan ((j, p) ∷ plans) h = ground (arith, insert-append key plan plans)

erase-append :
    (key : Text) (plan : AutoDrawPlan) (plans rest : Dict AutoDrawPlan)
    → lookup key plans ≡ none
    → erase key (plans ++ (key, plan) ∷ rest) ≡ plans ++ rest
unfolding erase lookup
erase-append key plan [] rest h = ground (arith, text_eq_refl key)
erase-append key plan ((j, p) ∷ plans) rest h = ground (arith, erase-append key plan plans rest)

-- The new plans go to the end.
pub insert_all-append :
    (added plans : Dict AutoDrawPlan) → AreNew plans added → insert_all added plans ≡ plans ++ added
unfolding insert_all
insert_all-append [] plans n = sym (append-nil plans)
insert_all-append ((key, plan) ∷ added) plans n =
    insert_all-append added (insert key plan plans) (AreNew-weaken added plans key plan n.1 n.2)
    ∙ rw (insert-append key plan plans n.0) (append_assoc plans ((key, plan) ∷ []) added)

erase_all-append :
    (added plans : Dict AutoDrawPlan)
    → AreNew plans added
    → erase_all added (plans ++ added) ≡ plans
unfolding erase_all
erase_all-append [] plans n = append-nil plans
erase_all-append ((key, plan) ∷ added) plans n =
    rw (erase-append key plan plans added n.0) (erase_all-append added plans n.2)

-- Deleting the new plans undoes their insertion.
pub erase_all-insert_all :
    (added plans : Dict AutoDrawPlan)
    → AreNew plans added
    → erase_all added (insert_all added plans) ≡ plans
erase_all-insert_all added plans n =
    rw (insert_all-append added plans n) (erase_all-append added plans n)

-- EnsureAutoDrawPlans is a transaction: if the write fails, all plans of the call are gone again.
pub ensure_auto_draw_plans-Transacts :
    (e : Env) (inputs : List AutoDrawPlan) (s : Store)
    → Transacts s (ensure_auto_draw_plans e inputs s)
unfolding ensure_auto_draw_plans
ensure_auto_draw_plans-Transacts e inputs s = on_ok-Transacts _ s _ λ p h.
    commit-Transacts e _ _ _ s (
      ap (with_plans s) (
        erase_all-insert_all p.1 s.content.plans
          (ensure_loop-AreNew e 0 s.content.plans [] inputs p.0 p.1 tt h)))
