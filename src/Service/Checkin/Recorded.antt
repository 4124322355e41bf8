-- ===== src/Service/Checkin/Recorded.antt =====
-- Runner.Checkin on an action that exists, and the call as a whole.
use lottery.Prelude.{
  ℕ, ◌+◌, ◌≡◌, refl, sym, ap, subst, ◌∙◌, inl, inr, Bool, true, Option, none, some, List, arith,
  Option-cases, if◌then◌else◌, not, ◌&&◌, ◌||◌,
}
use lottery.Prelude.Text.{Text, trim_space, text_eq}
use lottery.Prelude.Time.{Time}
use lottery.Prelude.Result.{Result-cases}
use lottery.Account.{Record}
use lottery.State.Types.{
  Action, Store, action_checkin, action_pending, action_completed, action_unknown, action_failed,
}
use lottery.State.Actions.{
  action_key, get_or_create_action, update_action, reset_retryable_action, reset,
}
use lottery.State.Actions.Lifecycle.{stored, reset_retryable_action_lem}
use lottery.Website.{CheckinStatus, StatusSettings}
use lottery.Service.{
  reply, Site, World, handle, after, on_store, of_result, enabled_account, finish_action,
  ActionOutcome,
}
use lottery.Service.DailyClaim.Quiet.{IsCalm}
use lottery.Service.DailyClaim.Marked.{IsMarked, HasKey, calm-HasKey}
use lottery.Service.DailyClaim.Ahead.{
  update_action_lem, finish_action-keeps_key, get_or_create_action-stored,
}
use lottery.Service.Checkin.{
  let_others, outcome_of, found_checked_in, attempt_checkin, reopened, reset_failed_checkin_action,
  reconcile_with, reconcile_failed_checkin, retry_checkin, resume_checkin, proceed_checkin, checkin,
}
use lottery.Service.Checkin.Calm.{Gives, after-Gives, gives, at_end, choose-Gives}
use lottery.Service.Checkin.Reconciled.{reconcile-Gives}
use lottery.Service.Checkin.Posted.{Posted, IsDone, Nothing, Ends, ends, attempt_checkin-Ends}

abbrev is_over : Action → Bool
is_over action = text_eq action.status action_completed || text_eq action.status action_unknown

abbrev is_open : Action → Bool
is_open action = text_eq action.status action_pending && not action.side_effect_started

abbrev is_retryable : Action → Bool
is_retryable action = action.retryable && not action.side_effect_started

-- Other calls neither clear the mark of the action nor put another action under its key.
pub record Respects (key : Text) (site : Site) : Type 0 where
  pub marks : (n : ℕ) (s : Store) → IsMarked key s → IsMarked key (site.others n s)
  pub keys : (n : ℕ) (s : Store) → HasKey key s → HasKey key (site.others n s)

module _ (site : Site) (key : Text) (old : List Store) (respects : Respects key site) where
  -- Nothing has been posted, and what is stored under the key has it.
  abbrev Here : World → Type 0
  Here w = Nothing old w × HasKey key w.store

  -- And an action that is left to retry has the key.
  abbrev Ready : Action × Option ActionOutcome → World → Type 0
  Ready (found, some outcome) w = Nothing old w
  Ready (found, none) w = (found.key ≡ key) × Here w

  calm-Here : (v w : World) → IsCalm v w → Here v → Here w
  calm-Here v w c (h, has) = (c.checkins ∙ h, calm-HasKey key v w c has)

  -- An action written to the store keeps the key, there as well.
  finish_action-Gives :
      (action : Action) (change : Action → Action) (w : World)
      → ((v : Action) → (change v).key ≡ v.key)
      → action.key ≡ key
      → Here w
      → Gives (Nothing old) (λ a v. (a.key ≡ key) × Here v) (finish_action site action change w)
  unfolding finish_action on_store of_result
  finish_action-Gives action change w same_change same (h, has) =
      let Q = λ (a : Action) (v : World). (a.key ≡ key) × Here v in
      let e = site.env w.asked in
      gives (Nothing old) Q (finish_action site action change w) h λ a q.
        let kept = finish_action-keeps_key site key action a change w same_change same has q in
        let r = update_action e action.key change w.store in
        elim (Result-cases r.0) [
          | inr (why, g) ↦ absurd (ground arith)
          | inl (b, g) ↦
              let (before, found, made, now, file) =
                update_action_lem e action.key change w.store b g in
              let same_action : b ≡ a = ground arith in
              (kept, (h, λ c at. ground (arith, subst (λ k. stored k r.1 ≡ some b) same now)))
        ]

  reset_retryable-Gives :
      (action : Action) (w : World)
      → action.key ≡ key
      → Here w
      → Gives
          (Nothing old)
          (λ a v. (a.key ≡ key) × Nothing old v)
          (on_store (λ e. reset_retryable_action e action.key) site w)
  unfolding on_store of_result reset
  reset_retryable-Gives action w same (h, has) =
      let Q = λ (a : Action) (v : World). (a.key ≡ key) × Nothing old v in
      let e = site.env w.asked in
      gives (Nothing old) Q (on_store (λ e. reset_retryable_action e action.key) site w) h λ a q.
        let r = reset_retryable_action e action.key w.store in
        elim (Result-cases r.0) [
          | inr (why, g) ↦ absurd (ground arith)
          | inl (b, g) ↦
              let (before, found, x, y, made, z, now) =
                reset_retryable_action_lem e action.key w.store b g in
              let same_action : b ≡ a = ground arith in
              let key_before =
                has before (subst (λ k. stored k w.store ≡ some before) same found) in
              (sym (ap (λ x. x.key) same_action) ∙ ap (λ x. x.key) made ∙ key_before, h)
        ]

  reopened-key : (v : Action) → (reopened v).key ≡ v.key
  unfolding reopened
  reopened-key v = refl

  found_checked_in-key :
      (now : Time) (status : CheckinStatus) (settings : StatusSettings) (v : Action)
      → (found_checked_in now status settings v).key ≡ v.key
  unfolding found_checked_in
  found_checked_in-key now status settings v = elim (Option-cases status.today_quota_awarded) [
    | inl q ↦ rw (q, found_checked_in) refl
    | inr (awarded, q) ↦ rw (q, found_checked_in) refl
  ]

  reconcile_with-Gives :
      (action : Action) (known : CheckinStatus × StatusSettings) (w : World)
      → action.key ≡ key
      → Here w
      → Gives (Nothing old) Ready (reconcile_with site action known w)
  unfolding reconcile_with reset_failed_checkin_action finish_action on_store
  reconcile_with-Gives action (status, settings) w same (h, has) =
      let u = let_others site w in
      let here : Here u = (h, respects.keys w.asked w.store has) in
      let Q = λ (a : Action) (v : World). (a.key ≡ key) × Here v in
      choose-Gives (Nothing old) Ready status.checked_in_today _ _
        (after-Gives (Nothing old) Q Ready _ _
          (finish_action-Gives action (found_checked_in (site.now w.asked) status settings) u
            (found_checked_in-key _ status settings) same here)
          (λ a v q. q.1.0))
        (after-Gives (Nothing old) Q Ready _ _
          (finish_action-Gives action reopened u reopened-key same here) (λ a v q. q))

  module _ (account_id : Text) (action : Action) (same : action.key ≡ key) where
    reconcile-Ready :
        (w : World)
        → Here w
        → Gives (Nothing old) Ready (reconcile_failed_checkin site account_id action w)
    reconcile-Ready =
        reconcile-Gives site account_id action old Here Ready (λ status. Unit {0}) calm-Here
          (λ v h. h.0) (λ v h. (same, h)) (λ n token status q. tt)
          (λ known v x h. reconcile_with-Gives action known v same h)

    retry-Ends :
        (found : Action × Option ActionOutcome) (w : World)
        → Ready found w
        → Ends site key old (retry_checkin site account_id action found w)
    unfolding retry_checkin after
    retry-Ends (found, some outcome) w h = inl h
    retry-Ends (found, none) w (has, (h, stored_key)) =
        choose-Gives (IsDone key old) (λ o. IsDone key old) (is_open found)
          (attempt_checkin site account_id found w)
          (if is_retryable action
            then (after
                (on_store (λ e. reset_retryable_action e action.key) site (let_others site w))
                λ reset w. attempt_checkin site account_id reset w)
            else (reply (outcome_of true action), w))
          (attempt_checkin-Ends site key old respects.marks account_id found w has h)
          (choose-Gives (IsDone key old) (λ o. IsDone key old) (is_retryable action)
            (after (on_store (λ e. reset_retryable_action e action.key) site (let_others site w))
              λ reset w. attempt_checkin site account_id reset w)
            (reply (outcome_of true action), w)
            (ends site key old (λ a v. (a.key ≡ key) × Nothing old v) (Nothing old) _ _ _
              (reset_retryable-Gives action (let_others site w) same
                (h, respects.keys w.asked w.store stored_key))
              (λ why v q. inl q)
              (λ a v q. attempt_checkin-Ends site key old respects.marks account_id a v q.0 q.1))
            (inl h))

    resume-Ends : (w : World) → Here w → Ends site key old (resume_checkin site account_id action w)
    unfolding resume_checkin after
    resume-Ends w here =
        choose-Gives (IsDone key old) (λ o. IsDone key old) (is_over action)
          (reply (outcome_of true action), w)
          (if text_eq action.status action_failed
            then (after (reconcile_failed_checkin site account_id action w)
                λ found w. retry_checkin site account_id action found w)
            else (reply (outcome_of true action), w))
          (inl here.0)
          (choose-Gives (IsDone key old) (λ o. IsDone key old) (text_eq action.status action_failed)
            (after (reconcile_failed_checkin site account_id action w)
              λ found w. retry_checkin site account_id action found w)
            (reply (outcome_of true action), w)
            (ends site key old Ready (Nothing old) _ _ _ (reconcile-Ready w here) (λ why v q. inl q)
              (λ found v q. retry-Ends found v q))
            (inl here.0))

    proceed-Ends :
        (created : Bool) (w : World)
        → Here w
        → Ends site key old (proceed_checkin site account_id (action, created) w)
    unfolding proceed_checkin
    proceed-Ends created w here =
        choose-Gives (IsDone key old) (λ o. IsDone key old) created
          (attempt_checkin site account_id action w) (resume_checkin site account_id action w)
          (attempt_checkin-Ends site key old respects.marks account_id action w same here.0)
          (resume-Ends w here)

-- The key of the check-in of an account today.
abbrev pub checkin_key : Site → Text → World → Text
checkin_key site id w = action_key (trim_space id) (trim_space (site.today w.asked)) action_checkin

-- A call of Checkin on an account that exists and is enabled posts nothing, or one check-in, or two.
-- Whenever it posts one, the action of that account and day is marked as started, in memory and on
-- file, at that time; the retry after a rejected token is no exception. The stored action is taken to
-- carry its own key. Other calls may change the store between the steps, but are taken neither to
-- clear the mark, in memory or on file, nor to put another action under the key, which no lock
-- ensures.
pub checkin-Posted :
    (site : Site) (account_id : Text) (w : World) (r : Record)
    → enabled_account account_id w.store ≡ reply r
    → HasKey (checkin_key site r.id w) w.store
    → Respects (checkin_key site r.id w) site
    → Posted (checkin_key site r.id w) w.checkins (checkin site account_id w).1.checkins
unfolding checkin after on_store of_result handle
checkin-Posted site account_id w r found has respects =
    let key = checkin_key site r.id w in
    let date = site.today w.asked in
    let taken = get_or_create_action (site.env w.asked) r.id date action_checkin w.store in
    let v = record w { store = taken.1; asked = w.asked + 1 } in
    elim (Result-cases taken.0) [
      | inr (why, g) ↦ rw (found, g, checkin, after, handle, on_store, of_result) (inl refl)
      | inl ((a, created), g) ↦
          let facts =
            get_or_create_action-stored (site.env w.asked) r.id date action_checkin w.store a
              created has g in
          rw (found, g, checkin, after, handle, on_store, of_result)
            (at_end (IsDone key w.checkins) (proceed_checkin site r.id (a, created) v)
              (proceed-Ends site key w.checkins respects r.id a facts.0 created v (refl, facts.1)))
    ]
