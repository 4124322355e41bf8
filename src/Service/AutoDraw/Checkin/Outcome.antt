-- ===== src/Service/AutoDraw/Checkin/Outcome.antt =====
-- postponeCheckinPlan and the plan that it is called for.
use lottery.Prelude.{
  ℕ, ◌+◌, ◌≡◌, refl, subst, sym, ◌∙◌, ap, ◌⊎◌, inl, inr, true, false, Option, none, some, [], ◌++◌,
  arith, Bool-cases, Option-cases,
}
use lottery.Prelude.Text.{Text, codes, text_eq, text_eq_refl, trim_space}
use lottery.Prelude.Time.{Time, is_zero}
use lottery.Prelude.Dict.{Dict, lookup}
use lottery.Prelude.Result.{Error, Result, ok, err, Result-cases}
use lottery.State.Types.{AutoDrawPlan, RuntimeLog, Store, plan_pending, plan_skipped}
use lottery.State.Persist.{Env, commit, on_ok}
use lottery.State.Display.{normalize_finished_status, is_terminal_status, normalize_display_text}
use lottery.State.Logs.{append_runtime_log}
use lottery.State.Plans.{
  finishing, finish_auto_draw_plan, postponing, postpone_auto_draw_plan, replace_plan,
}
use lottery.State.Plans.Lifecycle.{stored, replace_plan-stored}
use lottery.Service.{first_non_empty}
use lottery.Service.AutoDraw.Checkin.{
  hour, gives_up, record_checkin_attempt, finished_log, finish_checkin, log_postponed,
  postponed_log, retry_note, postpone_checkin_plan,
}

append_runtime_log-plans :
    (e : Env) (given : RuntimeLog) (s : Store)
    → (append_runtime_log e given s).1.content.plans ≡ s.content.plans
unfolding append_runtime_log on_ok commit
append_runtime_log-plans e given s = ground arith

record_checkin_attempt-plans :
    (e : Env) (r : Result AutoDrawPlan × Store)
    → (record_checkin_attempt e r).content.plans ≡ r.1.content.plans
unfolding record_checkin_attempt
record_checkin_attempt-plans e (ok p, s) = append_runtime_log-plans e (finished_log p) s
record_checkin_attempt-plans e (err why, s) = refl

log_postponed-plans :
    (e : Env) (entry : RuntimeLog) (r : Result AutoDrawPlan × Store)
    → (log_postponed e entry r).content.plans ≡ r.1.content.plans
unfolding log_postponed
log_postponed-plans e entry (ok p, s) = append_runtime_log-plans e entry s
log_postponed-plans e entry (err why, s) = refl

-- The plan is as it was, which has a cause, or is what the call wrote.
abbrev pub IsOneOf : Type 0 → (AutoDrawPlan → Type 0) → AutoDrawPlan → Option AutoDrawPlan → Type 0
IsOneOf Cause Q p found = ((found ≡ some p) × Cause) ⊎ ((q : AutoDrawPlan) × (found ≡ some q) × Q q)

-- The write fails, or the text may not be stored.
abbrev pub Stops : Env → Text → Type 0
Stops e text =
    ((why : Text) × (e.write ≡ some why))
    ⊎ ((why : Error) × (normalize_display_text text 512 ≡ err why))

no_text : normalize_display_text [] 256 ≡ ok []
unfolding normalize_display_text trim_space lottery.Prelude.Text.byte_len
    lottery.Prelude.Text.join_words lottery.State.Display.contains_sensitive
    lottery.State.Display.contains_any lottery.Prelude.Text.contains lottery.Prelude.Text.to_lower
no_text = refl

skipped_status : normalize_finished_status plan_skipped ≡ ok plan_skipped
unfolding normalize_finished_status lottery.State.Display.normalize_status trim_space
    lottery.State.Display.is_plan_status text_eq is_terminal_status
skipped_status = refl

finishing-skipped :
    (e : Env) (key message : Text) (now : Time) (s : Store) (previous plan : AutoDrawPlan)
    → finishing e key plan_skipped message [] none now s ≡ ok (previous, plan)
    → (stored key s ≡ some previous) × (plan.status ≡ plan_skipped)
unfolding finishing
finishing-skipped e key message now s previous plan h = ground (arith, skipped_status)

postponing-pending :
    (e : Env) (key note : Text) (next : Time) (s : Store) (previous plan : AutoDrawPlan)
    → postponing e key next note s ≡ ok (previous, plan)
    → (stored key s ≡ some previous) × (plan.status ≡ plan_pending) × (plan.planned_at ≡ next)
unfolding postponing
postponing-pending e key note next s previous plan h = ground arith

finishing-stops :
    (e : Env) (key message : Text) (now : Time) (s : Store) (p : AutoDrawPlan) (why : Error)
    → stored key s ≡ some p
    → finishing e key plan_skipped message [] none now s ≡ err why
    → normalize_display_text message 512 ≡ err why
unfolding finishing
finishing-stops e key message now s p why h stops = ground (arith, skipped_status, no_text)

postponing-stops :
    (e : Env) (key note : Text) (now : Time) (s : Store) (p : AutoDrawPlan) (why : Error)
    → stored key s ≡ some p
    → postponing e key (now + hour) note s ≡ err why
    → (is_terminal_status p.status ≡ true) ⊎ (normalize_display_text note 512 ≡ err why)
unfolding postponing
postponing-stops e key note now s p why h stops =
    let later : is_zero (now + hour) ≡ false = ground arith in
    elim (Bool-cases (is_terminal_status p.status)) [ inl q ↦ inl q | inr q ↦ inr (ground arith) ]

replaced_lem :
    (Cause : Type 0) (Q : AutoDrawPlan → Type 0) (e : Env) (key : Text)
    (previous plan p : AutoDrawPlan) (s : Store)
    → stored key s ≡ some p
    → stored key s ≡ some previous
    → Q plan
    → ((why : Text) → e.write ≡ some why → Cause)
    → IsOneOf Cause Q p (stored key (replace_plan e key previous plan plan s).1)
replaced_lem Cause Q e key previous plan p s h found held unwritten =
    let now = replace_plan-stored e key key previous plan plan s found in
    elim (Option-cases e.write) [
      | inl w ↦ inr (plan, ground (arith, now, text_eq_refl key), held)
      | inr (why, w) ↦ inl (ground (arith, now), unwritten why w)
    ]

skipped_lem :
    (e : Env) (key message : Text) (now : Time) (s : Store) (p : AutoDrawPlan)
    → stored (trim_space key) s ≡ some p
    → IsOneOf
        (Stops e message)
        (λ q. q.status ≡ plan_skipped)
        p
        (stored (trim_space key) (finish_auto_draw_plan e key plan_skipped message [] none now s).1)
unfolding finish_auto_draw_plan on_ok
skipped_lem e key message now s p h =
    elim (Result-cases (finishing e (trim_space key) plan_skipped message [] none now s)) [
      | inr (why, q) ↦
          rw (q, finish_auto_draw_plan, on_ok)
            (inl (h, inr (why, finishing-stops e (trim_space key) message now s p why h q)))
      | inl ((previous, plan), q) ↦
          let facts = finishing-skipped e (trim_space key) message now s previous plan q in
          rw (q, finish_auto_draw_plan, on_ok)
            (replaced_lem (Stops e message) (λ q. q.status ≡ plan_skipped) e (trim_space key)
              previous plan p s h facts.0 facts.1 (λ why w. inl (why, w)))
    ]

-- Pending again, at the time.
abbrev pub IsPendingAt : Time → AutoDrawPlan → Type 0
IsPendingAt next q = (q.status ≡ plan_pending) × (q.planned_at ≡ next)

-- Why a plan is not made pending again: it has ended, or what stops any call.
abbrev pub IsStuck : Env → Text → AutoDrawPlan → Type 0
IsStuck e note p = (is_terminal_status p.status ≡ true) ⊎ Stops e note

pending_lem :
    (e : Env) (key note : Text) (now : Time) (s : Store) (p : AutoDrawPlan)
    → stored (trim_space key) s ≡ some p
    → IsOneOf
        (IsStuck e note p)
        (IsPendingAt (now + hour))
        p
        (stored (trim_space key) (postpone_auto_draw_plan e key (now + hour) note s).1)
unfolding postpone_auto_draw_plan on_ok
pending_lem e key note now s p h =
    let next = now + hour in
    elim (Result-cases (postponing e (trim_space key) next note s)) [
      | inr (why, q) ↦
          let stuck : IsStuck e note p =
            elim (postponing-stops e (trim_space key) note now s p why h q) [
              | inl ended ↦ inl ended
              | inr refused ↦ inr (inr (why, refused))
            ] in
          rw (q, postpone_auto_draw_plan, on_ok) (inl (h, stuck))
      | inl ((previous, plan), q) ↦
          let facts = postponing-pending e (trim_space key) note next s previous plan q in
          rw (q, postpone_auto_draw_plan, on_ok)
            (replaced_lem (IsStuck e note p) (IsPendingAt next) e (trim_space key) previous plan p s
              h facts.0 (facts.1, facts.2) (λ why w. inr (inl (why, w))))
    ]

-- The text that a plan is skipped with.
abbrev pub skip_message : Text → Text
skip_message reason = first_non_empty reason (codes "活跃度不足") ++ codes "，已过当日 0 点，自动签到跳过"

-- What becomes of the plan of the first state.
abbrev pub IsPostponed : Env → Text → Time → AutoDrawPlan → Option AutoDrawPlan → Type 0
IsPostponed e reason now p found =
    ((gives_up now ≡ true)
      × IsOneOf (Stops e (skip_message reason)) (λ q. q.status ≡ plan_skipped) p found)
    ⊎ ((gives_up now ≡ false)
        × IsOneOf (IsStuck e (retry_note reason (now + hour)) p) (IsPendingAt (now + hour)) p found)

-- A plan whose check-in is postponed is skipped if the day is given up, and else pending again one
-- hour later. It stays as it is only if the first write of the call fails, if the text to be stored
-- with it is refused, or if it is to be pending again and has ended already.
pub postpone_checkin_plan_lem :
    (env : ℕ → Env) (key reason : Text) (now : Time) (s : Store) (p : AutoDrawPlan)
    → stored (trim_space key) s ≡ some p
    → IsPostponed
        (env 0)
        reason
        now
        p
        (stored (trim_space key) (postpone_checkin_plan env key reason now s))
unfolding postpone_checkin_plan finish_checkin
postpone_checkin_plan_lem env key reason now s p h =
    let message = skip_message reason in
    let note = retry_note reason (now + hour) in
    let skip = finish_auto_draw_plan (env 0) key plan_skipped message [] none now s in
    let post = postpone_auto_draw_plan (env 0) key (now + hour) note s in
    let IsHeld = λ (plans : Dict AutoDrawPlan).
      IsPostponed (env 0) reason now p (lookup (trim_space key) plans) in
    elim (Bool-cases (gives_up now)) [
      | inl g ↦
          let same : postpone_checkin_plan env key reason now s
              ≡ record_checkin_attempt (env 1) skip =
            rw (g, postpone_checkin_plan, finish_checkin) refl in
          subst IsHeld
            (sym (ap (λ t. t.content.plans) same ∙ record_checkin_attempt-plans (env 1) skip))
            (inl (g, skipped_lem (env 0) key message now s p h))
      | inr g ↦
          let same : postpone_checkin_plan env key reason now s
              ≡ log_postponed (env 1) (postponed_log key now note) post =
            rw (g, postpone_checkin_plan) refl in
          subst IsHeld
            (sym (
              ap (λ t. t.content.plans) same
              ∙ log_postponed-plans (env 1) (postponed_log key now note) post))
            (inr (g, pending_lem (env 0) key note now s p h))
    ]
