-- ===== src/Service/Purchase/Unlock.antt =====
-- Unlocking the day pass: UnlockDailyPass of internal/service/purchase.go.
use lottery.Prelude.{Bool, true, false, ◌&&◌, ◌||◌, not, Option, none, some, [], if◌then◌else◌}
use lottery.Prelude.Text.{Text, codes, text_eq}
use lottery.Quota.Money.{Money}
use lottery.State.Types.{
  Action, action_pass_unlock, action_pending, action_completed, action_failed, action_unknown,
}
use lottery.State.Actions.{get_or_create_action, rotate_repeatable_action}
use lottery.Website.{Fault, Dashboard, OperationResult, remaining_draws}
use lottery.Service.{
  Session, reply, Site, World, Step, handle, after, on_store, as_step, dashboard_with_recovery,
  enabled_account, finish_action, start_action, safe_error, first_non_empty,
}
use lottery.Service.DailyClaim.{acquire_lottery_for_action}
use lottery.Service.Purchase.{
  PurchaseOutcome, purchase_outcome, pass_price, is_unlocked_for, finish_purchase,
  record_purchase_preflight_error, finish_purchase_without_proof, finish_purchase_with_proof,
  still_under_way, pass_unlock, place_order, store_activity_snapshot,
}

-- Runner.finishUnlockFromDashboard
unfoldable pub finish_unlock_from_dashboard :
    Site → Text → Action → Option Money → Dashboard → Text → Text → World → Step PurchaseOutcome
finish_unlock_from_dashboard site account_id action price dashboard status fallback w =
    if is_unlocked_for dashboard (site.today w.asked)
    then finish_purchase_with_proof site account_id action price dashboard
        (first_non_empty fallback (codes "今日通行证解锁成功")) w
    else finish_purchase_without_proof site account_id action price (remaining_draws dashboard)
        status fallback w

-- Runner.reconcileUnlockDailyPass
unfoldable pub reconcile_unlock_daily_pass : Site → Text → Action → World → Step PurchaseOutcome
reconcile_unlock_daily_pass site account_id action w =
    after (acquire_lottery_for_action site account_id w) λ sess w.
      after (as_step (dashboard_with_recovery site account_id sess w)) λ (dashboard, _) w.
        if is_unlocked_for dashboard (site.today w.asked)
        then finish_unlock_from_dashboard site account_id action action.price_usd dashboard []
            (codes "今日通行证已对账完成") w
        else finish_purchase site account_id action
            (still_under_way (text_eq action.status action_pending) (codes "通行证解锁处理中")
              (codes "通行证解锁结果未知"))
            (remaining_draws dashboard) none true w

-- Runner.reconcileUnlockAfterPostError
unfoldable pub reconcile_unlock_after_post_error :
    Site → Text → Action → Option Money → Session → Fault → World → Step PurchaseOutcome
reconcile_unlock_after_post_error site account_id action price sess cause w =
    handle (as_step (dashboard_with_recovery site account_id sess w))
      (λ _ w.
        finish_purchase_without_proof site account_id action price none [] (safe_error cause) w)
      (λ (dashboard, _) w.
        if is_unlocked_for dashboard (site.today w.asked)
        then finish_unlock_from_dashboard site account_id action price dashboard []
            (codes "今日通行证已对账完成") w
        else finish_purchase_without_proof site account_id action price (remaining_draws dashboard)
            [] (safe_error cause) w)

-- UnlockDailyPass after the website has answered.
unfoldable pub settle_unlock :
    Site → Text → Action → Option Money → Session → OperationResult → World → Step PurchaseOutcome
settle_unlock site account_id action price sess result w =
    handle (as_step (dashboard_with_recovery site account_id sess w))
      (λ why w.
        finish_purchase_without_proof site account_id action price none result.status
          (safe_error why) w)
      (λ (dashboard, _) w.
        finish_unlock_from_dashboard site account_id action price dashboard result.status [] w)

-- The change that notes the price and whether the pass was unlocked before.
unfoldable pub unlock_prepared : Option Money → Bool → Action → Action
unlock_prepared price unlocked value = record value {
  price_usd = price;
  pass_before_unlocked = some unlocked;
  purchase_before_today = none;
  purchase_before_remaining = none;
  message = [];
  last_error = [];
  retryable = false;
}

-- The change of an unlock that is not needed.
unfoldable pub already_unlocked : Action → Action
already_unlocked value = record value {
  status = action_completed;
  side_effect_started = false;
  retryable = false;
  message = codes "今日通行证已解锁";
  last_error = [];
}

-- UnlockDailyPass when the pass is unlocked already: the action is completed first, then the
-- snapshot is stored.
unfoldable pub note_unlocked : Site → Text → Action → Dashboard → World → Step PurchaseOutcome
note_unlocked site account_id action dashboard w =
    after (finish_action site action already_unlocked w) λ updated w.
      after (store_activity_snapshot site account_id dashboard w) λ report w. (
        reply (purchase_outcome account_id updated (remaining_draws dashboard) (some report) false),
        w,
      )

-- UnlockDailyPass once the dashboard is known.
unfoldable pub order_unlock :
    Site → Text → Session → Action → Dashboard → World → Step PurchaseOutcome
order_unlock site account_id sess action dashboard w =
    let price = pass_price (site.now w.asked) dashboard in
    let unlocked = is_unlocked_for dashboard (site.today w.asked) in
    after (finish_action site action (unlock_prepared price unlocked) w) λ action w.
      if unlocked
      then note_unlocked site account_id action dashboard w
      else after (start_action site action w) λ action w.
        place_order site pass_unlock account_id sess action (remaining_draws dashboard)
          (reconcile_unlock_after_post_error site account_id action price)
          (settle_unlock site account_id action price) w

-- UnlockDailyPass from the preparation of the order on.
unfoldable pub attempt_unlock : Site → Text → Action → World → Step PurchaseOutcome
attempt_unlock site account_id action w =
    handle (acquire_lottery_for_action site account_id w)
      (λ why w. record_purchase_preflight_error site account_id action none why w)
      (λ sess w.
        handle (as_step (dashboard_with_recovery site account_id sess w))
          (λ why w. record_purchase_preflight_error site account_id action none why w)
          (λ (dashboard, sess) w. order_unlock site account_id sess action dashboard w))

-- What UnlockDailyPass does with an action that exists.
unfoldable pub resume_unlock : Site → Text → Action → World → Step PurchaseOutcome
resume_unlock site account_id action w =
    if text_eq action.status action_completed
    then (reply (purchase_outcome account_id action none none true), w)
    else if text_eq action.status action_unknown || action.side_effect_started
    then reconcile_unlock_daily_pass site account_id action w
    else if text_eq action.status action_pending && not action.side_effect_started
    then attempt_unlock site account_id action w
    else if text_eq action.status action_failed
        && action.retryable
        && not action.side_effect_started
    then (after (on_store (λ e. rotate_repeatable_action e action.key) site w)
        λ action w. attempt_unlock site account_id action w)
    else (reply (purchase_outcome account_id action none none true), w)

-- UnlockDailyPass once it has the action.
unfoldable pub proceed_unlock : Site → Text → Action × Bool → World → Step PurchaseOutcome
proceed_unlock site account_id (action, created) w =
    if created
    then attempt_unlock site account_id action w
    else resume_unlock site account_id action w

-- Runner.UnlockDailyPass, which holds the lock of the action from the choice of the date to the end.
unfoldable pub unlock_daily_pass : Site → Text → World → Step PurchaseOutcome
unlock_daily_pass site account_id w =
    after (enabled_account account_id w.store, w)
      λ _ w.
        after
          (on_store (λ e. get_or_create_action e account_id (site.today w.asked) action_pass_unlock)
            site w)
          λ p w. proceed_unlock site account_id p w
