-- ===== src/Service/AutoDraw/Claims.antt =====
-- The plans that ensurePlans finds missing.
use lottery.Prelude.{
  ℕ, ◌+◌, ◌≡◌, subst, inl, inr, true, false, Option, some, List, [], ◌∷◌, arith, Option-cases,
  Bool-cases, All, All-append, ◌++◌,
}
use lottery.Prelude.Text.{Text, text_eq, text_eq_iff}
use lottery.Prelude.Time.{Time}
use lottery.Prelude.Sort.{Pairwise}
use lottery.State.Types.{AutoDrawPlan, AutoDrawSchedule, Store}
use lottery.State.Plans.{auto_draw_plans}
use lottery.State.Accounts.{list_enabled}
use lottery.State.Schedules.{is_used}
use lottery.Service.AutoDraw.{
  Slot-cases, schedule_time, is_claim, window_key, has_plan, plan_of, is_left_out, add_claim,
  missing_plans, claimed, entries_of, missing_today,
}

-- Two plans are not both claims of one account.
abbrev pub AreSeparate : AutoDrawPlan → AutoDrawPlan → Type 0
AreSeparate p q =
    is_claim p.task_type ≡ true
    → is_claim q.task_type ≡ true
    → text_eq p.account_id q.account_id ≡ false

-- A plan that is new: no claim of an account that has one, and under a window without a plan.
abbrev pub IsNew : List AutoDrawPlan → List Text → AutoDrawPlan → Type 0
IsNew existing scheduled p =
    (is_claim p.task_type ≡ true → is_used p.account_id scheduled ≡ false)
    × (has_plan (window_key p.account_id p.window_id) existing ≡ false)

IsNew-mono :
    (existing : List AutoDrawPlan) (scheduled : List Text) (id : Text) (entry : AutoDrawSchedule)
    (plans : List AutoDrawPlan)
    → All (IsNew existing (add_claim id entry scheduled)) plans
    → All (IsNew existing scheduled) plans
unfolding add_claim is_used
IsNew-mono existing scheduled id entry [] h = tt
IsNew-mono existing scheduled id entry (p ∷ plans) h =
    ((λ c. ground (arith, h.0.0 c), h.0.1), IsNew-mono existing scheduled id entry plans h.1)

separate :
    (date id : Text) (entry : AutoDrawSchedule) (t : Time) (existing : List AutoDrawPlan)
    (scheduled : List Text) (plans : List AutoDrawPlan)
    → All (IsNew existing (add_claim id entry scheduled)) plans
    → All (AreSeparate (plan_of date id entry t)) plans
unfolding add_claim is_used plan_of
separate date id entry t existing scheduled [] h = tt
separate date id entry t existing scheduled (p ∷ plans) h = (
  λ c k. ground (arith, h.0.0 k, text_eq_iff id p.account_id, text_eq_iff p.account_id id),
  separate date id entry t existing scheduled plans h.1,
)

taken-IsNew :
    (date id : Text) (entry : AutoDrawSchedule) (t : Time) (existing : List AutoDrawPlan)
    (scheduled : List Text)
    → is_left_out existing scheduled id entry ≡ false
    → IsNew existing scheduled (plan_of date id entry t)
unfolding is_left_out plan_of
taken-IsNew date id entry t existing scheduled h = ground arith

-- The plans that are found missing are new, and no two of them are claims of one account.
pub missing_plans_lem :
    (raw : ℕ → Option ℕ) (n : ℕ) (date : Text) (now : Time) (existing : List AutoDrawPlan)
    (scheduled : List Text) (entries : List (Text × AutoDrawSchedule)) (plans : List AutoDrawPlan)
    → missing_plans raw n date now existing scheduled entries ≡ some plans
    → All (IsNew existing scheduled) plans × Pairwise AreSeparate plans
unfolding missing_plans
missing_plans_lem raw n date now existing scheduled [] plans h =
    let same : [] ≡ plans = ground arith in
    subst (λ l. All (IsNew existing scheduled) l × Pairwise AreSeparate l) same (tt, tt)
missing_plans_lem raw n date now existing scheduled ((id, entry) ∷ entries) plans h =
    let skip = missing_plans_lem raw (n + 1) date now existing scheduled entries plans in
    let taken =
      missing_plans raw (n + 1) date now existing (add_claim id entry scheduled) entries in
    elim (Bool-cases (is_left_out existing scheduled id entry)) [
      | inl q ↦ skip (ground arith)
      | inr q ↦ elim (Slot-cases (schedule_time (raw n) date entry now)) [
        | inr (inl r) ↦ skip (ground arith)
        | inr (inr r) ↦ absurd (ground arith)
        | inl (t, r) ↦ elim (Option-cases taken) [
          | inl none_left ↦ absurd (ground arith)
          | inr (rest, left) ↦
              let same : plan_of date id entry t ∷ rest ≡ plans = ground arith in
              let tail =
                missing_plans_lem raw (n + 1) date now existing (add_claim id entry scheduled)
                  entries rest left in
              subst (λ l. All (IsNew existing scheduled) l × Pairwise AreSeparate l) same
                (
                  (
                    taken-IsNew date id entry t existing scheduled q,
                    IsNew-mono existing scheduled id entry rest tail.0,
                  ),
                  (separate date id entry t existing scheduled rest tail.0, tail.1),
                )
        ]
      ]
    ]

All-second :
    (existing : List AutoDrawPlan) (scheduled : List Text) (plans : List AutoDrawPlan)
    → All (IsNew existing scheduled) plans
    → All (λ p. has_plan (window_key p.account_id p.window_id) existing ≡ false) plans
All-second existing scheduled [] h = tt
All-second existing scheduled (p ∷ plans) h = (h.0.1, All-second existing scheduled plans h.1)

-- A claim among the plans is noted under its account.
claimed-is_used :
    (p : AutoDrawPlan) (plans : List AutoDrawPlan) (q : AutoDrawPlan)
    → is_claim p.task_type ≡ true
    → is_used q.account_id (claimed (p ∷ plans)) ≡ false
    → text_eq p.account_id q.account_id ≡ false
unfolding claimed is_used
claimed-is_used p plans q c h = ground arith

separate_from :
    (p : AutoDrawPlan) (existing : List AutoDrawPlan) (plans all : List AutoDrawPlan)
    → All (IsNew all (claimed (p ∷ existing))) plans
    → All (AreSeparate p) plans
separate_from p existing [] all h = tt
separate_from p existing (q ∷ plans) all h =
    (λ c k. claimed-is_used p existing q c (h.0.0 k), separate_from p existing plans all h.1)

IsNew-rest :
    (p : AutoDrawPlan) (existing plans all : List AutoDrawPlan)
    → All (IsNew all (claimed (p ∷ existing))) plans
    → All (IsNew all (claimed existing)) plans
unfolding claimed is_used
IsNew-rest p existing [] all h = tt
IsNew-rest p existing (q ∷ plans) all h =
    ((λ k. ground (arith, h.0.0 k), h.0.1), IsNew-rest p existing plans all h.1)

append-AreSeparate :
    (existing plans all : List AutoDrawPlan)
    → Pairwise AreSeparate existing
    → Pairwise AreSeparate plans
    → All (IsNew all (claimed existing)) plans
    → Pairwise AreSeparate (existing ++ plans)
append-AreSeparate [] plans all h k new = k
append-AreSeparate (p ∷ existing) plans all h k new = (
  All-append (AreSeparate p) existing plans h.0 (separate_from p existing plans all new),
  append-AreSeparate existing plans all h.1 k (IsNew-rest p existing plans all new),
)

-- With the plans that ensurePlans adds, still no account has two claims on a day, and no added plan
-- is for a window that has a plan already.
pub missing_today-AreSeparate :
    (raw : ℕ → Option ℕ) (date : Text) (now : Time) (s : Store) (plans : List AutoDrawPlan)
    → missing_today raw date now s ≡ some plans
    → Pairwise AreSeparate (auto_draw_plans date s)
    → Pairwise AreSeparate (auto_draw_plans date s ++ plans)
      × All
          (λ p. has_plan (window_key p.account_id p.window_id) (auto_draw_plans date s) ≡ false)
          plans
unfolding missing_today
missing_today-AreSeparate raw date now s plans h separate_before =
    let existing = auto_draw_plans date s in
    let facts =
      missing_plans_lem raw 0 date now existing (claimed existing) (entries_of (list_enabled s) s)
        plans h in
    (
      append-AreSeparate existing plans existing separate_before facts.1 facts.0,
      All-second existing (claimed existing) plans facts.0,
    )
