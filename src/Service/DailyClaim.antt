-- ===== src/Service/DailyClaim.antt =====
-- The daily claim of internal/service/daily_claim.go.
pub mod Quiet
pub mod Guarded
pub mod Marked
pub mod Ahead
pub mod Few
use lottery.Prelude.{
  ℕ, ◌+◌, Bool, true, false, ◌&&◌, ◌||◌, not, Option, none, some, List, [], ◌∷◌, if◌then◌else◌,
}
use lottery.Prelude.Text.{Text, codes, text_eq}
use lottery.Prelude.Int.{ℤ, pos, ltb_ℤ, sub_int}
use lottery.State.Types.{
  Action, Store, action_daily_claim, action_pending, action_completed, action_failed,
  action_unknown,
}
use lottery.State.Persist.{Env}
use lottery.State.Actions.{get_or_create_action, reset_retryable_action}
use lottery.Website.{Fault, other, Dashboard, ClaimResult, remaining_draws}
use lottery.Service.{
  Session, Reply, reply, fault, Site, World, Step, handle, after, on_store, acquire, client_for,
  dashboard_with_recovery, Recovered, left_with, as_step, claim_with_recovery, enabled_account,
  finish_action, start_action, auth_retryable, safe_error, first_non_empty,
}

pub record DailyClaimOutcome : Type 0 where
  pub action : Action
  pub already_recorded : Bool
  pub added : ℤ
  pub remaining : Option ℤ

-- dailyClaimAdded
unfoldable pub daily_claim_added : Option ℤ → Option ℤ → ℤ
daily_claim_added (some b) (some a) = if ltb_ℤ b a then sub_int a b else pos 0
daily_claim_added (some b) none = pos 0
daily_claim_added none _ = pos 0

-- dailyClaimRecordedOutcome
unfoldable pub recorded_outcome : Action → DailyClaimOutcome
recorded_outcome action = record {
  action = action;
  already_recorded = true;
  added = daily_claim_added action.claim_before_remaining action.claim_after_remaining;
  remaining = action.claim_after_remaining;
}

-- Runner.acquireLotteryForAction
unfoldable pub acquire_lottery_for_action : Site → Text → World → Step Session
acquire_lottery_for_action site account_id w =
    after (acquire site account_id w)
      λ sess w. after (client_for site sess w) λ _ w. (reply sess, w)

-- An action written to the store, and the outcome that shows it.
unfoldable pub finish_with :
    Site
    → Action
    → (Action → Action)
    → (Action → DailyClaimOutcome)
    → World
    → Step DailyClaimOutcome
finish_with site action change outcome w =
    after (finish_action site action change w) λ updated w. (reply (outcome updated), w)

abbrev pub shows : Bool → ℤ → Option ℤ → Action → DailyClaimOutcome
shows recorded added remaining updated = record {
  action = updated;
  already_recorded = recorded;
  added = added;
  remaining = remaining;
}

-- Runner.recordDailyClaimPreflightError
unfoldable pub record_preflight_error : Site → Action → Fault → World → Step DailyClaimOutcome
record_preflight_error site action cause w =
    finish_with site action
      (λ value. record value {
        status = action_failed;
        retryable = auth_retryable cause;
        side_effect_started = false;
        message = safe_error cause;
        last_error = safe_error cause;
      })
      (shows false (pos 0) none) w

-- The change of an action whose claim is found to have taken place.
unfoldable pub reconciled : ℤ → Action → Action
reconciled remaining value = record value {
  status = action_completed;
  retryable = false;
  claim_after_remaining = some remaining;
  message = codes "今日领取已对账完成";
  last_error = [];
}

unfoldable pub still_unknown : Action → Action
still_unknown value = record value {
  status = action_unknown;
  retryable = false;
  message = first_non_empty value.message (codes "领取结果未知");
}

-- The number of draws has grown since `before`.
unfoldable pub has_grown : Option ℤ → Option ℤ → Bool
has_grown (some before) (some now) = ltb_ℤ before now
has_grown (some before) none = false
has_grown none _ = false

abbrev pub or_zero : Option ℤ → ℤ
or_zero (some n) = n
or_zero none = pos 0

-- Runner.reconcileDailyClaim
unfoldable pub reconcile_daily_claim : Site → Text → Action → World → Step DailyClaimOutcome
reconcile_daily_claim site account_id action w =
    after (acquire_lottery_for_action site account_id w) λ sess w.
      after (as_step (dashboard_with_recovery site account_id sess w)) λ (dashboard, _) w.
        let remaining = remaining_draws dashboard in
        if has_grown action.claim_before_remaining remaining
        then finish_with site action (reconciled (or_zero remaining))
            (shows true (daily_claim_added action.claim_before_remaining remaining) remaining) w
        else finish_with site action still_unknown (shows true (pos 0) remaining) w

unfoldable pub unknown_after : ℤ → Fault → Action → Action
unknown_after before cause value = record value {
  status = action_unknown;
  retryable = false;
  claim_before_remaining = some before;
  claim_after_remaining = none;
  message = safe_error cause;
  last_error = safe_error cause;
}

-- Runner.reconcileClaimAfterPostError
unfoldable pub reconcile_after_post_error :
    Site → Text → Session → Action → ℤ → Fault → World → Step DailyClaimOutcome
reconcile_after_post_error site account_id sess action before cause w =
    handle (as_step (dashboard_with_recovery site account_id sess w))
      (λ _ w. finish_with site action (unknown_after before cause) (shows false (pos 0) none) w)
      (λ (dashboard, _) w.
        let remaining = remaining_draws dashboard in
        if has_grown (some before) remaining
        then finish_with site action
            (λ value. record (reconciled (or_zero remaining) value) {
              claim_before_remaining = some before;
            })
            (shows true (daily_claim_added (some before) remaining) remaining) w
        else finish_with site action (unknown_after before cause) (shows false (pos 0) remaining) w)

-- The dashboard after a claim: the one that the answer holds, or a new one.
unfoldable pub dashboard_after :
    Site → Text → Session → Option Dashboard → World → Recovered Dashboard × World
dashboard_after site account_id sess (some dashboard) w = left_with sess (reply dashboard, w)
dashboard_after site account_id sess none w = dashboard_with_recovery site account_id sess w

-- ClaimDaily after the website has answered.
unfoldable pub finish_claim :
    Site → Text → Session → Action → ℤ → ClaimResult → World → Step DailyClaimOutcome
finish_claim site account_id sess action before result w =
    if not result.success
    then finish_with site action
        (λ value. record value {
          status = action_failed;
          retryable = true;
          side_effect_started = false;
          claim_before_remaining = some before;
          claim_after_remaining = none;
          message = first_non_empty result.message (codes "领取未成功");
          last_error = first_non_empty result.message (codes "领取未成功");
        })
        (shows false (pos 0) (some before)) w
    else let fetched = dashboard_after site account_id sess result.dashboard w in
      let left = fetched.0.session in
      handle (fetched.0.answer, fetched.1)
        (λ cause w. reconcile_after_post_error site account_id left action before cause w)
        (λ dashboard w. elim (remaining_draws dashboard) [
          | none ↦
              reconcile_after_post_error site account_id left action before
                (other (codes "抽奖次数接口没有返回 remaining")) w
          | some now ↦
              finish_with site action
                (λ value. record value {
                  status = action_completed;
                  retryable = false;
                  claim_before_remaining = some before;
                  claim_after_remaining = some now;
                  message = first_non_empty result.message (codes "今日领取成功");
                  last_error = [];
                })
                (shows false (daily_claim_added (some before) (some now)) (some now)) w
        ])

-- ClaimDaily once the action is marked as started.
unfoldable pub claim_started : Site → Text → Session → Action → ℤ → World → Step DailyClaimOutcome
claim_started site account_id sess action before w =
    let posted = claim_with_recovery site account_id sess w in
    handle (posted.0.answer, posted.1)
      (λ cause w. reconcile_after_post_error site account_id posted.0.session action before cause w)
      (λ result w. finish_claim site account_id posted.0.session action before result w)

-- The change that notes the draws before the claim.
unfoldable pub prepared : ℤ → Action → Action
prepared before value = record value {
  claim_before_remaining = some before;
  claim_after_remaining = none;
  message = [];
  last_error = [];
  retryable = false;
}

-- ClaimDaily from the preparation of the claim on.
unfoldable pub attempt_claim : Site → Text → Action → World → Step DailyClaimOutcome
attempt_claim site account_id action w =
    handle (acquire_lottery_for_action site account_id w)
      (λ why w. record_preflight_error site action why w)
      (λ sess w.
        handle (as_step (dashboard_with_recovery site account_id sess w))
          (λ why w. record_preflight_error site action why w)
          (λ (dashboard, sess) w. elim (remaining_draws dashboard) [
            | none ↦ record_preflight_error site action (other (codes "抽奖次数接口没有返回 remaining")) w
            | some before ↦ after (finish_action site action (prepared before) w) λ action w.
                after (start_action site action w)
                  λ action w. claim_started site account_id sess action before w
          ]))

-- What ClaimDaily does with an action that exists.
unfoldable pub resume_claim : Site → Text → Action → World → Step DailyClaimOutcome
resume_claim site account_id action w =
    if text_eq action.status action_completed
    then (reply (recorded_outcome action), w)
    else if text_eq action.status action_failed
        && action.retryable
        && not action.side_effect_started
    then (after (on_store (λ e. reset_retryable_action e action.key) site w)
        λ action w. attempt_claim site account_id action w)
    else if text_eq action.status action_pending && not action.side_effect_started
    then attempt_claim site account_id action w
    else if text_eq action.status action_unknown || action.side_effect_started
    then reconcile_daily_claim site account_id action w
    else (reply (recorded_outcome action), w)

-- Runner.ClaimDaily, which holds the lock of the action from the choice of the date to the end.
unfoldable pub claim_daily : Site → Text → World → Step DailyClaimOutcome
claim_daily site account_id w =
    after (enabled_account account_id w.store, w)
      λ _ w.
        let date = site.today w.asked in
        after (on_store (λ e. get_or_create_action e account_id date action_daily_claim) site w)
          λ (action, created) w.
            if created
            then attempt_claim site account_id action w
            else resume_claim site account_id action w
