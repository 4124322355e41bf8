-- ===== src/Service/Purchase/Draw.antt =====
-- Buying a draw: PurchaseDraw of internal/service/purchase.go.
use lottery.Prelude.{Bool, true, false, ◌&&◌, ◌||◌, not, Option, none, some, [], if◌then◌else◌}
use lottery.Prelude.Text.{Text, codes, text_eq}
use lottery.Prelude.Time.{Time, before}
use lottery.Quota.Money.{Money}
use lottery.State.Types.{
  Action, action_draw_purchase, action_pending, action_completed, action_failed, action_unknown,
}
use lottery.State.Actions.{get_or_create_action, rotate_repeatable_action}
use lottery.Website.{Fault, Dashboard, OperationResult, remaining_draws}
use lottery.Service.{
  Session, reply, Site, World, Step, handle, after, on_store, as_step, dashboard_with_recovery,
  enabled_account, finish_action, start_action, safe_error, first_non_empty,
}
use lottery.Service.DailyClaim.{acquire_lottery_for_action}
use lottery.Service.Purchase.{
  PurchaseOutcome, purchase_outcome, purchased_today, purchased_remaining, purchase_price,
  proves_purchase, finish_purchase, record_purchase_preflight_error, finish_purchase_without_proof,
  finish_purchase_with_proof, still_under_way, draw_purchase, place_order,
}

-- Runner.finishPurchaseDrawFromDashboard
unfoldable pub finish_purchase_draw_from_dashboard :
    Site → Text → Action → Option Money → Dashboard → Text → Text → World → Step PurchaseOutcome
finish_purchase_draw_from_dashboard site account_id action price dashboard status fallback w =
    if proves_purchase action dashboard
    then finish_purchase_with_proof site account_id action price dashboard
        (first_non_empty fallback (codes "购买抽奖次数成功")) w
    else finish_purchase_without_proof site account_id action price (remaining_draws dashboard)
        status fallback w

-- Runner.reconcilePurchaseDraw
unfoldable pub reconcile_purchase_draw : Site → Text → Action → World → Step PurchaseOutcome
reconcile_purchase_draw site account_id action w =
    after (acquire_lottery_for_action site account_id w) λ sess w.
      after (as_step (dashboard_with_recovery site account_id sess w)) λ (dashboard, _) w.
        if proves_purchase action dashboard
        then finish_purchase_draw_from_dashboard site account_id action action.price_usd dashboard
            [] (codes "购买抽奖次数已对账完成") w
        else finish_purchase site account_id action
            (still_under_way (text_eq action.status action_pending) (codes "购买处理中")
              (codes "购买结果未知"))
            (remaining_draws dashboard) none true w

-- Runner.reconcilePurchaseAfterPostError
unfoldable pub reconcile_purchase_after_post_error :
    Site → Text → Action → Option Money → Session → Fault → World → Step PurchaseOutcome
reconcile_purchase_after_post_error site account_id action price sess cause w =
    handle (as_step (dashboard_with_recovery site account_id sess w))
      (λ _ w.
        finish_purchase_without_proof site account_id action price none [] (safe_error cause) w)
      (λ (dashboard, _) w.
        if proves_purchase action dashboard
        then finish_purchase_draw_from_dashboard site account_id action price dashboard []
            (codes "购买抽奖次数已对账完成") w
        else finish_purchase_without_proof site account_id action price (remaining_draws dashboard)
            [] (safe_error cause) w)

-- PurchaseDraw after the website has answered.
unfoldable pub settle_purchase :
    Site → Text → Action → Option Money → Session → OperationResult → World → Step PurchaseOutcome
settle_purchase site account_id action price sess result w =
    handle (as_step (dashboard_with_recovery site account_id sess w))
      (λ why w.
        finish_purchase_without_proof site account_id action price none result.status
          (safe_error why) w)
      (λ (dashboard, _) w.
        finish_purchase_draw_from_dashboard site account_id action price dashboard result.status []
          w)

-- The change that notes the price and what was bought before.
unfoldable pub purchase_prepared : Option Money → Dashboard → Action → Action
purchase_prepared price dashboard value = record value {
  price_usd = price;
  purchase_before_today = some (purchased_today dashboard);
  purchase_before_remaining = purchased_remaining dashboard;
  pass_before_unlocked = none;
  message = [];
  last_error = [];
  retryable = false;
}

-- PurchaseDraw once the dashboard is known.
unfoldable pub order_draw :
    Site → Text → Session → Action → Dashboard → World → Step PurchaseOutcome
order_draw site account_id sess action dashboard w =
    let price = purchase_price (site.now w.asked) dashboard in
    after (finish_action site action (purchase_prepared price dashboard) w) λ action w.
      after (start_action site action w) λ action w.
        place_order site draw_purchase account_id sess action (remaining_draws dashboard)
          (reconcile_purchase_after_post_error site account_id action price)
          (settle_purchase site account_id action price) w

-- PurchaseDraw from the preparation of the order on.
unfoldable pub attempt_purchase : Site → Text → Action → World → Step PurchaseOutcome
attempt_purchase site account_id action w =
    handle (acquire_lottery_for_action site account_id w)
      (λ why w. record_purchase_preflight_error site account_id action none why w)
      (λ sess w.
        handle (as_step (dashboard_with_recovery site account_id sess w))
          (λ why w. record_purchase_preflight_error site account_id action none why w)
          (λ (dashboard, sess) w. order_draw site account_id sess action dashboard w))

-- A purchase that ended before this call began starts again under a new idempotency key; one that
-- ended while the call waited for the lock is its answer.
unfoldable pub purchase_again : Site → Text → Action → Time → World → Step PurchaseOutcome
purchase_again site account_id action call_started w =
    if not (before action.updated_at call_started)
    then (reply (purchase_outcome account_id action none none true), w)
    else after (on_store (λ e. rotate_repeatable_action e action.key) site w)
        λ action w. attempt_purchase site account_id action w

-- What PurchaseDraw does with an action that exists.
unfoldable pub resume_purchase : Site → Text → Action → Time → World → Step PurchaseOutcome
resume_purchase site account_id action call_started w =
    if text_eq action.status action_unknown || action.side_effect_started
    then reconcile_purchase_draw site account_id action w
    else if text_eq action.status action_completed
    then purchase_again site account_id action call_started w
    else if text_eq action.status action_failed
        && action.retryable
        && not action.side_effect_started
    then purchase_again site account_id action call_started w
    else if text_eq action.status action_pending && not action.side_effect_started
    then attempt_purchase site account_id action w
    else (reply (purchase_outcome account_id action none none true), w)

-- PurchaseDraw once it has the action.
unfoldable pub proceed_purchase : Site → Text → Time → Action × Bool → World → Step PurchaseOutcome
proceed_purchase site account_id call_started (action, created) w =
    if created
    then attempt_purchase site account_id action w
    else resume_purchase site account_id action call_started w

-- Runner.PurchaseDraw, which holds the lock of the action from the choice of the date to the end.
unfoldable pub purchase_draw : Site → Text → World → Step PurchaseOutcome
purchase_draw site account_id w =
    after (enabled_account account_id w.store, w)
      λ _ w.
        let date = site.today w.asked in
        let call_started = site.now w.asked in
        after (on_store (λ e. get_or_create_action e account_id date action_draw_purchase) site w)
          λ p w. proceed_purchase site account_id call_started p w
