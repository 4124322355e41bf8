-- ===== src/Service/Checkin/Resumed.antt =====
-- Runner.Checkin on an action whose check-in may have been posted.
use lottery.Prelude.{
  ◌≡◌, refl, ap, ◌∙◌, ◌⊎◌, inl, inr, true, false, Option, none, some, List, arith, ℕ, ◌&&◌, not,
  ◌||◌, Bool-cases,
}
use lottery.Prelude.Text.{Text, text_eq, text_eq_iff}
use lottery.Account.{Record}
use lottery.State.Types.{
  Action, Store, action_checkin, action_completed, action_failed, action_unknown, action_pending,
}
use lottery.State.Actions.Lifecycle.{stored}
use lottery.Website.{CheckinStatus, StatusSettings}
use lottery.Service.{
  reply, Site, World, handle, after, of_result, on_store, enabled_account, ActionOutcome,
  finish_action,
}
use lottery.Service.DailyClaim.Guarded.{get_or_create_action-found}
use lottery.Service.Checkin.{
  let_others, reconcile_with, retry_checkin, resume_checkin, proceed_checkin, checkin,
  found_checked_in,
}
use lottery.Service.Checkin.Calm.{Gives, after-Gives, handle-Gives, keeps, at_end}
use lottery.Service.Checkin.Reconciled.{reconcile-Gives}
use lottery.Service.Checkin.Posted.{Nothing}
use lottery.Service.Checkin.Recorded.{checkin_key}

-- The check-in of the action may have been posted, or may not be tried again.
abbrev pub IsSpent : Action → Type 0
IsSpent a = (a.side_effect_started ≡ true) ⊎ (a.retryable ≡ false)

resume-Recorded :
    (site : Site) (account_id : Text) (action : Action) (old : List Store) (w : World)
    → text_eq action.status action_failed ≡ false
    → Nothing old w
    → Nothing old (resume_checkin site account_id action w).1
unfolding resume_checkin
resume-Recorded site account_id action old w other h =
    elim (Bool-cases
      (text_eq action.status action_completed || text_eq action.status action_unknown)) [
        | inl q ↦ rw (q, resume_checkin) h
        | inr q ↦ rw (q, other, resume_checkin) h
      ]

module _ (site : Site) (account_id : Text) (action : Action) (old : List Store)
    (spent : IsSpent action)
    (checked_in : (n : ℕ) (token : Text) (status : CheckinStatus)
      → site.checkin_status n token ≡ reply status
      → status.checked_in_today ≡ true) where
  -- The reconciliation has an outcome, or has changed nothing.
  abbrev Left : Action × Option ActionOutcome → World → Type 0
  Left (found, some outcome) w = Nothing old w
  Left (found, none) w = (found ≡ action) × Nothing old w

  told-Left :
      (answer : CheckinStatus × StatusSettings) (w : World)
      → answer.0.checked_in_today ≡ true
      → Nothing old w
      → Gives (Nothing old) Left (reconcile_with site action answer w)
  unfolding reconcile_with finish_action on_store found_checked_in
  told-Left (status, settings) w known h =
      rw (known, reconcile_with)
        (after-Gives (Nothing old) (λ a. Nothing old) Left _ _
          (keeps (Nothing old)
            (finish_action site action (found_checked_in (site.now w.asked) status settings)
              (let_others site w))
            h)
          (λ a v q. q))

  retry-Left :
      (found : Action × Option ActionOutcome) (w : World)
      → action.status ≡ action_failed
      → Left found w
      → Nothing old (retry_checkin site account_id action found w).1
  unfolding retry_checkin text_eq
  retry-Left (found, some outcome) w failed h = h
  retry-Left (found, none) w failed (same, h) =
      let closed : text_eq found.status action_pending ≡ false =
        ap (λ x. text_eq x.status action_pending) same
        ∙ ap (λ t. text_eq t action_pending) failed in
      let kept : (action.retryable && not action.side_effect_started) ≡ false = elim spent [
        | inl q ↦ ground (arith, q)
        | inr q ↦ ground (arith, q)
      ] in
      rw (closed, kept, retry_checkin) h

  resume-Left :
      (w : World)
      → action.status ≡ action_failed
      → Nothing old w
      → Nothing old (resume_checkin site account_id action w).1
  unfolding resume_checkin text_eq after
  resume-Left w failed h =
      let completed : text_eq action.status action_completed ≡ false =
        ap (λ t. text_eq t action_completed) failed in
      let unknown : text_eq action.status action_unknown ≡ false =
        ap (λ t. text_eq t action_unknown) failed in
      let has_failed : text_eq action.status action_failed ≡ true =
        ap (λ t. text_eq t action_failed) failed in
      rw (completed, unknown, has_failed, resume_checkin, after)
        (at_end (Nothing old) _ (
          handle-Gives (Nothing old) (Nothing old) Left (λ o. Nothing old) _ _ _
            (reconcile-Gives site account_id action old (Nothing old) Left
              (λ status. status.checked_in_today ≡ true) (λ v u c n. c.checkins ∙ n) (λ v n. n)
              (λ v n. (refl, n)) checked_in told-Left w h)
            (λ why v n. n)
            (λ found v n.
              keeps (Nothing old) (retry_checkin site account_id action found v)
                (retry-Left found v failed n))))

-- A call of Checkin posts no check-in if the action of that account and day is stored and has not
-- failed; nor if it has failed, is marked as started or is not marked retryable, and the website,
-- whenever it tells its state, tells that the account has checked in.
pub checkin-PostsNothing :
    (site : Site) (account_id : Text) (w : World) (r : Record) (a : Action)
    → enabled_account account_id w.store ≡ reply r
    → stored (checkin_key site r.id w) w.store ≡ some a
    → (a.status ≡ action_failed → IsSpent a)
    → ((n : ℕ) (token : Text) (status : CheckinStatus)
        → a.status ≡ action_failed
        → site.checkin_status n token ≡ reply status
        → status.checked_in_today ≡ true)
    → (checkin site account_id w).1.checkins ≡ w.checkins
unfolding checkin proceed_checkin after handle on_store of_result
checkin-PostsNothing site account_id w r a q h spent checked_in =
    let found =
      get_or_create_action-found (site.env w.asked) r.id (site.today w.asked) action_checkin w.store
        a h in
    elim found.1 [
      | inr missing ↦ rw (q, missing, checkin, after, handle, on_store, of_result) refl
      | inl existing ↦
          rw (q, existing, checkin, proceed_checkin, after, handle, on_store, of_result)
            (elim (Bool-cases (text_eq a.status action_failed)) [
              | inr other ↦ resume-Recorded site r.id a _ _ other refl
              | inl same ↦
                  let failed = (text_eq_iff a.status action_failed).0 same in
                  resume-Left site r.id a w.checkins (spent failed)
                    (λ n token status. checked_in n token status failed) _ failed refl
            ])
    ]
