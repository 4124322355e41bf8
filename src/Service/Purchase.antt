-- ===== src/Service/Purchase.antt =====
-- The orders of internal/service/purchase.go: a draw that is bought, and a day pass that is unlocked.
-- What the two share stands here, and their flows in the child modules.
pub mod Draw
pub mod Unlock
pub mod Calm
pub mod Backed
pub mod Sent
pub mod Resumed
use lottery.Prelude.{
  ℕ, ◌+◌, ◌≡◌, refl, Bool, true, false, ◌&&◌, ◌||◌, not, Option, none, some, List, [], ◌∷◌, ◌==◌,
  if◌then◌else◌,
}
use lottery.Prelude.Text.{Text, codes, text_eq, is_empty, trim_space, to_lower, contains}
use lottery.Prelude.Int.{ℤ, ltb_ℤ}
use lottery.Prelude.Time.{Time}
use lottery.Prelude.Float.{real_of_int}
use lottery.Quota.Money.{Money}
use lottery.Quota.Policy.{usd_money}
use lottery.State.Types.{
  Action, Store, action_pending, action_completed, action_failed, action_unknown,
}
use lottery.State.Persist.{Env}
use lottery.State.Snapshots.{put_snapshot}
use lottery.Website.{
  Fault, is_status, Dashboard, OperationResult, effective_draw_limit, remaining_draws,
}
use lottery.Service.{
  Session, Reply, reply, fault, Site, World, Step, handle, after, on_store, ask, client_for,
  renew_lottery, Recovered, left_with, finish_action, auth_retryable, safe_error, first_non_empty,
}
use lottery.Service.Activity.{
  ActivityReport, build_activity_report, first_map_int, first_map_float, default, map_option,
}

pub record PurchaseOutcome : Type 0 where
  pub account_id : Text
  pub status : Text
  pub message : Text
  pub price_usd : Option Money
  pub remaining : Option ℤ
  pub activity : Option ActivityReport
  pub action : Action
  pub already_recorded : Bool

-- purchaseOutcomeFromAction
unfoldable pub purchase_outcome :
    Text → Action → Option ℤ → Option ActivityReport → Bool → PurchaseOutcome
purchase_outcome account_id action remaining activity recorded = record {
  account_id = account_id;
  status = action.status;
  message = action.message;
  price_usd = action.price_usd;
  remaining = remaining;
  activity = activity;
  action = action;
  already_recorded = recorded;
}

-- Runner.storeActivitySnapshot
unfoldable pub store_activity_snapshot : Site → Text → Dashboard → World → Step ActivityReport
store_activity_snapshot site account_id dashboard w =
    let now = site.now w.asked in
    let report = build_activity_report now account_id dashboard now (site.today w.asked) in
    after
      (on_store
        (λ e. put_snapshot e (record {
          account_id = account_id;
          kind = codes "activity";
          content = site.marshal report;
          queried_at = report.queried_at;
        }))
        site w)
      λ _ w. (reply report, w)

-- dashboardPurchasedToday
unfoldable pub purchased_today : Dashboard → ℤ
purchased_today dashboard =
    first_map_int dashboard.purchase (codes "purchasedToday" ∷ codes "todayPurchased" ∷ [])

-- dashboardPurchasedRemaining
unfoldable pub purchased_remaining : Dashboard → Option ℤ
purchased_remaining dashboard =
    let limit = effective_draw_limit dashboard in
    elim limit.remaining [ none ↦ none | some _ ↦ limit.purchased_remaining ]

-- Runner.dashboardPurchasePrice
unfoldable pub purchase_price : Time → Dashboard → Option Money
purchase_price now dashboard =
    map_option (λ cost. usd_money now cost (codes "dashboard.purchase.cost") now)
      (first_map_float dashboard.purchase (codes "cost" ∷ codes "unitCost" ∷ codes "price" ∷ []))

-- Runner.dashboardPassPrice
unfoldable pub pass_price : Time → Dashboard → Option Money
pass_price now dashboard =
    map_option
      (λ cost. usd_money now (real_of_int cost) (codes "dashboard.draw_limit.unlock_cost") now)
      (effective_draw_limit dashboard).unlock_cost

-- dashboardPassUnlockedForToday
unfoldable pub is_unlocked_for : Dashboard → Text → Bool
is_unlocked_for dashboard today =
    let limit = effective_draw_limit dashboard in
    let day_key = trim_space limit.day_key in
    default limit.unlocked false && not (is_empty day_key) && text_eq day_key (trim_space today)

-- `after` lies above a bound that is given.
unfoldable pub exceeds : ℤ → Option ℤ → Bool
exceeds now none = false
exceeds now (some bound) = ltb_ℤ bound now

abbrev pub exceeds_given : Option ℤ → Option ℤ → Bool
exceeds_given none bound = false
exceeds_given (some now) bound = exceeds now bound

-- purchaseDashboardProvesSuccess
unfoldable pub proves_purchase : Action → Dashboard → Bool
unfolding exceeds
proves_purchase action dashboard =
    exceeds (purchased_today dashboard) action.purchase_before_today
    || exceeds_given (purchased_remaining dashboard) action.purchase_before_remaining

-- isOperationPendingStatus
unfoldable pub is_operation_pending : Text → Bool
is_operation_pending status =
    let status = to_lower (trim_space status) in
    text_eq status (codes "pending") || text_eq status (codes "processing")

abbrev insufficient_phrases : List Text
insufficient_phrases =
    codes "insufficient balance"
    ∷ codes "insufficient quota"
    ∷ codes "balance is insufficient"
    ∷ codes "quota is insufficient"
    ∷ codes "余额不足"
    ∷ codes "额度不足"
    ∷ []

unfoldable pub contains_phrase : Text → List Text → Bool
contains_phrase text [] = false
contains_phrase text (phrase ∷ phrases) = contains text phrase || contains_phrase text phrases

-- isExplicitInsufficient
unfoldable pub is_explicit_insufficient : Fault → Bool
unfolding contains_phrase
is_explicit_insufficient why =
    is_status why 402 || contains_phrase (to_lower (safe_error why)) insufficient_phrases

-- An action written to the store, and the outcome that shows it.
unfoldable pub finish_purchase :
    Site
    → Text
    → Action
    → (Action → Action)
    → Option ℤ
    → Option ActivityReport
    → Bool
    → World
    → Step PurchaseOutcome
finish_purchase site account_id action change remaining activity recorded w =
    after (finish_action site action change w)
      λ updated w. (reply (purchase_outcome account_id updated remaining activity recorded), w)

-- The change of recordPurchasePreflightError.
unfoldable pub preflight_failed : Fault → Action → Action
preflight_failed cause value = record value {
  status = action_failed;
  retryable = auth_retryable cause;
  side_effect_started = false;
  message = safe_error cause;
  last_error = safe_error cause;
}

-- Runner.recordPurchasePreflightError
unfoldable pub record_purchase_preflight_error :
    Site → Text → Action → Option ℤ → Fault → World → Step PurchaseOutcome
record_purchase_preflight_error site account_id action remaining cause w =
    finish_purchase site account_id action (preflight_failed cause) remaining none false w

-- The change of finishPurchaseWithoutProof.
unfoldable pub without_proof : Option Money → Text → Text → Action → Action
without_proof price status fallback value =
    if is_operation_pending status
    then record value {
      price_usd = price;
      retryable = false;
      status = action_pending;
      side_effect_started = true;
      message = first_non_empty fallback (codes "购买处理中");
      last_error = [];
    }
    else record value {
      price_usd = price;
      retryable = false;
      status = action_unknown;
      side_effect_started = true;
      message = first_non_empty fallback (codes "购买结果未知");
      last_error = first_non_empty fallback (codes "购买结果未知");
    }

-- Runner.finishPurchaseWithoutProof
unfoldable pub finish_purchase_without_proof :
    Site → Text → Action → Option Money → Option ℤ → Text → Text → World → Step PurchaseOutcome
finish_purchase_without_proof site account_id action price remaining status fallback w =
    finish_purchase site account_id action (without_proof price status fallback) remaining none
      false w

-- The change of an order that the dashboard proves.
unfoldable pub proven : Option Money → Text → Action → Action
proven price message value = record value {
  status = action_completed;
  side_effect_started = false;
  retryable = false;
  message = message;
  last_error = [];
  price_usd = price;
}

-- finishPurchaseDrawFromDashboard and finishUnlockFromDashboard once the dashboard proves the order.
unfoldable pub finish_purchase_with_proof :
    Site → Text → Action → Option Money → Dashboard → Text → World → Step PurchaseOutcome
finish_purchase_with_proof site account_id action price dashboard message w =
    after (store_activity_snapshot site account_id dashboard w) λ report w.
      finish_purchase site account_id action (proven price message) (remaining_draws dashboard)
        (some report) false w

-- The change of an explicit refusal for want of money.
unfoldable pub refused : Fault → Action → Action
refused cause value = record value {
  status = action_failed;
  retryable = true;
  side_effect_started = false;
  message = safe_error cause;
  last_error = safe_error cause;
}

-- A reconciliation that finds no proof: the order stays under way, pending or unknown.
unfoldable pub still_under_way : Bool → Text → Text → Action → Action
still_under_way pending processing unknown value =
    if pending
    then record value {
      status = action_pending;
      side_effect_started = true;
      retryable = false;
      message = first_non_empty value.message processing;
    }
    else record value {
      status = action_unknown;
      side_effect_started = true;
      retryable = false;
      message = first_non_empty value.message unknown;
    }

-- The two orders of the website.
pub data Order : Type 0 where
  draw_purchase pass_unlock : Order

unfoldable pub request : Site → Order → ℕ → Text → Text → Reply OperationResult
request site draw_purchase = site.purchase
request site pass_unlock = site.unlock

-- The request that orders; its idempotency key is noted, with what the store holds at that time.
unfoldable pub post_order : Site → Order → Session → Text → World → Step OperationResult
unfolding request
post_order site order sess key w =
    ask (λ n. request site order n sess.token key) (record w { orders = (key, w.store) ∷ w.orders })

unfoldable pub order_again :
    Site → Order → Session → Text → Step (Unit {0}) → Recovered OperationResult × World
order_again site order renewed key (fault why, w) = left_with renewed (fault why, w)
order_again site order renewed key (reply _, w) =
    left_with renewed (post_order site order renewed key w)

unfoldable pub order_renewed :
    Site → Order → Session → Text → Step Session → Recovered OperationResult × World
order_renewed site order sess key (fault why, w) = left_with sess (fault why, w)
order_renewed site order sess key (reply renewed, w) =
    order_again site order renewed key (client_for site renewed w)

unfoldable pub recover_order :
    Site → Order → Text → Session → Text → Step OperationResult → Recovered OperationResult × World
recover_order site order account_id sess key (reply result, w) = left_with sess (reply result, w)
recover_order site order account_id sess key (fault why, w) =
    if is_status why 401 || is_status why 403
    then order_renewed site order sess key (renew_lottery site account_id sess.token w)
    else left_with sess (fault why, w)

-- Runner.purchaseDrawWithRecovery and Runner.unlockDailyPassWithRecovery
unfoldable pub order_with_recovery :
    Site → Order → Text → Session → Text → World → Recovered OperationResult × World
order_with_recovery site order account_id sess key w =
    recover_order site order account_id sess key (post_order site order sess key w)

-- An order that is marked as started: the request, and what follows its answer or its fault.
unfoldable pub place_order :
    Site
    → Order
    → Text
    → Session
    → Action
    → Option ℤ
    → (Session → Fault → World → Step PurchaseOutcome)
    → (Session → OperationResult → World → Step PurchaseOutcome)
    → World
    → Step PurchaseOutcome
place_order site order account_id sess action before failed settle w =
    let ordered = order_with_recovery site order account_id sess action.idempotency_key w in
    handle (ordered.0.answer, ordered.1)
      (λ cause w.
        if is_explicit_insufficient cause
        then finish_purchase site account_id action (refused cause) before none false w
        else failed ordered.0.session cause w)
      (λ result w. settle ordered.0.session result w)
