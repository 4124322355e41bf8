-- ===== src/State/Plans/Ensured.antt =====
-- What EnsureAutoDrawPlans leaves in the store.
use lottery.Prelude.{
  ℕ, ◌+◌, ◌≡◌, refl, ◌⊎◌, inl, inr, false, none, some, List, [], ◌∷◌, ◌++◌, arith, Option-cases,
  length, All,
}
use lottery.Prelude.Text.{Text, text_eq_iff, text_eq_refl}
use lottery.Prelude.Dict.{Dict, lookup, lookup-insert}
use lottery.Prelude.Result.{ok, Result-cases}
use lottery.State.Types.{AutoDrawPlan, Store}
use lottery.State.Persist.{Env, commit, on_ok}
use lottery.State.Persist.RoundTrip.{on_ok-after, commit-after}
use lottery.State.Plans.{ensure_auto_draw_plans, ensure_loop, normalize_plan, place_plan}
use lottery.State.Plans.Atomic.{ensure_loop-AreNew, insert_all-append, erase_all-insert_all}

pub lookup-append_left :
    (plans added : Dict AutoDrawPlan) (k : Text) (p : AutoDrawPlan)
    → lookup k plans ≡ some p
    → lookup k (plans ++ added) ≡ some p
unfolding lookup
lookup-append_left [] added k p h = ground arith
lookup-append_left ((j, q) ∷ plans) added k p h = ground (arith, lookup-append_left plans added k p)

pub lookup-append_right :
    (plans added : Dict AutoDrawPlan) (k : Text)
    → lookup k plans ≡ none
    → lookup k (plans ++ added) ≡ lookup k added
unfolding lookup
lookup-append_right [] added k h = refl
lookup-append_right ((j, q) ∷ plans) added k h = ground (arith, lookup-append_right plans added k)

-- A plan that is stored stays as it is when the day's plans are ensured again.
pub ensure-keeps :
    (e : Env) (inputs : List AutoDrawPlan) (key : Text) (s : Store) (p : AutoDrawPlan)
    → lookup key s.content.plans ≡ some p
    → lookup key (ensure_auto_draw_plans e inputs s).1.content.plans ≡ some p
unfolding ensure_auto_draw_plans
ensure-keeps e inputs key s p h =
    on_ok-after (λ t. lookup key t.content.plans ≡ some p) _ s _ h
      λ r q.
        let new = ensure_loop-AreNew e 0 s.content.plans [] inputs r.0 r.1 tt q in
        commit-after (λ t. lookup key t.content.plans ≡ some p) e _ _ r.0 s
          (rw (insert_all-append r.1 s.content.plans new)
            (lookup-append_left s.content.plans r.1 key p h))
          (rw (erase_all-insert_all r.1 s.content.plans new) h)

-- Every result is the plan that is stored under its key, or that is to be added under it.
abbrev Placed : Dict AutoDrawPlan → Dict AutoDrawPlan → AutoDrawPlan → Type 0
Placed stored added plan =
    (lookup plan.key stored ≡ some plan)
    ⊎ ((lookup plan.key stored ≡ none) × (lookup plan.key added ≡ some plan))

-- Every plan stands under its own key.
abbrev pub IsKeyed : Dict AutoDrawPlan → Type 0
IsKeyed plans = (k : Text) (p : AutoDrawPlan) → lookup k plans ≡ some p → p.key ≡ k

place_plan-keeps :
    (stored pending : Dict AutoDrawPlan) (plan : AutoDrawPlan) (k : Text) (p : AutoDrawPlan)
    → lookup k pending ≡ some p
    → lookup k (place_plan stored pending plan).1 ≡ some p
unfolding place_plan
place_plan-keeps stored pending plan k p h =
    ground (arith, lookup-insert plan.key k plan pending, text_eq_iff plan.key k)

place_plan-IsKeyed :
    (stored pending : Dict AutoDrawPlan) (plan : AutoDrawPlan)
    → IsKeyed pending
    → IsKeyed (place_plan stored pending plan).1
unfolding place_plan
place_plan-IsKeyed stored pending plan keyed k p h =
    ground (arith, keyed k p, lookup-insert plan.key k plan pending, text_eq_iff plan.key k)

place_plan-Placed :
    (stored pending : Dict AutoDrawPlan) (plan : AutoDrawPlan)
    → IsKeyed stored
    → IsKeyed pending
    → Placed stored (place_plan stored pending plan).1 (place_plan stored pending plan).0
unfolding place_plan
place_plan-Placed stored pending plan old new = elim (Option-cases (lookup plan.key stored)) [
  | inr (p, q) ↦ ground (arith, old plan.key p q)
  | inl q ↦ elim (Option-cases (lookup plan.key pending)) [
    | inr (p, r) ↦ ground (arith, new plan.key p r)
    | inl r ↦ ground (arith, lookup-insert plan.key plan.key plan pending, text_eq_refl plan.key)
  ]
]

ensure_loop-keeps :
    (e : Env) (n : ℕ) (stored pending : Dict AutoDrawPlan) (inputs results : List AutoDrawPlan)
    (added : Dict AutoDrawPlan) (k : Text) (p : AutoDrawPlan)
    → ensure_loop e n stored pending inputs ≡ ok (results, added)
    → lookup k pending ≡ some p
    → lookup k added ≡ some p
unfolding ensure_loop
ensure_loop-keeps e n stored pending [] results added k p h q = ground arith
ensure_loop-keeps e n stored pending (input ∷ inputs) results added k p h q =
    elim (Result-cases (normalize_plan e n input false)) [
      | inr (why, r) ↦ ground arith
      | inl (plan, r) ↦
          let next = (place_plan stored pending plan).1 in
          elim (Result-cases (ensure_loop e (n + 1) stored next inputs)) [
            | inr (why, t) ↦ ground arith
            | inl (rest, t) ↦ ground (
              arith,
              ensure_loop-keeps e (n + 1) stored next inputs rest.0 rest.1 k p t
                  (place_plan-keeps stored pending plan k p q),
            )
          ]
    ]

ensure_loop-Placed :
    (e : Env) (n : ℕ) (stored pending : Dict AutoDrawPlan) (inputs results : List AutoDrawPlan)
    (added : Dict AutoDrawPlan)
    → IsKeyed stored
    → IsKeyed pending
    → ensure_loop e n stored pending inputs ≡ ok (results, added)
    → (length results ≡ length inputs) × All (Placed stored added) results
unfolding ensure_loop
ensure_loop-Placed e n stored pending [] results added old new h = ground arith
ensure_loop-Placed e n stored pending (input ∷ inputs) results added old new h =
    elim (Result-cases (normalize_plan e n input false)) [
      | inr (why, r) ↦ absurd (ground arith)
      | inl (plan, r) ↦
          let placed = place_plan stored pending plan in
          elim (Result-cases (ensure_loop e (n + 1) stored placed.1 inputs)) [
            | inr (why, t) ↦ absurd (ground arith)
            | inl (rest, t) ↦ ground (
              arith,
              ensure_loop-Placed e (n + 1) stored placed.1 inputs rest.0 rest.1 old
                  (place_plan-IsKeyed stored pending plan new) t,
              place_plan-Placed stored pending plan old new,
              ensure_loop-keeps e (n + 1) stored placed.1 inputs rest.0 rest.1 placed.0.key placed.0
                  t,
            )
          ]
    ]

Placed-stored :
    (stored added : Dict AutoDrawPlan) (results : List AutoDrawPlan)
    → All (Placed stored added) results
    → All (λ p. lookup p.key (stored ++ added) ≡ some p) results
Placed-stored stored added [] h = tt
Placed-stored stored added (p ∷ rest) h = (
  elim h.0 [
    | inl found ↦ lookup-append_left stored added p.key p found
    | inr (new, made) ↦ rw (lookup-append_right stored added p.key new) made
  ],
  Placed-stored stored added rest h.1,
)

pub empty-IsKeyed : IsKeyed []
unfolding lookup
empty-IsKeyed k p h = cc

-- A successful call answers every input with a plan, and each answer is the plan that is stored
-- under its key afterwards, if every stored plan stands under its own key.
pub ensure_auto_draw_plans_lem :
    (e : Env) (inputs results : List AutoDrawPlan) (s : Store)
    → IsKeyed s.content.plans
    → (ensure_auto_draw_plans e inputs s).0 ≡ ok results
    → (length results ≡ length inputs)
      × All (λ p. lookup p.key (ensure_auto_draw_plans e inputs s).1.content.plans ≡ some p) results
unfolding ensure_auto_draw_plans commit on_ok
ensure_auto_draw_plans_lem e inputs results s keyed h =
    elim (Result-cases (ensure_loop e 0 s.content.plans [] inputs)) [
      | inr (why, q) ↦ absurd (ground arith)
      | inl (r, q) ↦ elim (Option-cases e.write) [
        | inr (why, w) ↦ absurd (ground arith)
        | inl w ↦
            let new = ensure_loop-AreNew e 0 s.content.plans [] inputs r.0 r.1 tt q in
            let answers =
              ensure_loop-Placed e 0 s.content.plans [] inputs r.0 r.1 keyed empty-IsKeyed q in
            let same : r.0 ≡ results = ground arith in
            let kept : (ensure_auto_draw_plans e inputs s).1.content.plans
                ≡ s.content.plans ++ r.1 =
              ground (arith, insert_all-append r.1 s.content.plans new) in
            rw (kept, ← same) (answers.0, Placed-stored s.content.plans r.1 r.0 answers.1)
      ]
    ]
