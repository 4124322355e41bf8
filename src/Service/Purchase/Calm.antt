-- ===== src/Service/Purchase/Calm.antt =====
-- Steps of a purchase or an unlock that send no order.
use lottery.Prelude.{◌≡◌, refl, ◌∙◌, Bool, true, false, Option, if◌then◌else◌}
use lottery.Prelude.Text.{Text}
use lottery.Prelude.Int.{ℤ}
use lottery.Quota.Money.{Money}
use lottery.State.Types.{Action}
use lottery.Website.{Fault, Dashboard, OperationResult}
use lottery.Service.{
  reply, fault, Session, Site, World, Step, handle, after, on_store, finish_action,
}
use lottery.Service.Activity.{ActivityReport}
use lottery.Service.DailyClaim.Quiet.{acquire_lottery_for_action-IsCalm, dashboard_step-IsCalm}
use lottery.Service.Purchase.{
  store_activity_snapshot, finish_purchase, record_purchase_preflight_error,
  finish_purchase_without_proof, finish_purchase_with_proof, proves_purchase, is_unlocked_for,
}
use lottery.Service.Purchase.Draw.{
  finish_purchase_draw_from_dashboard, reconcile_purchase_draw, reconcile_purchase_after_post_error,
  settle_purchase,
}
use lottery.Service.Purchase.Unlock.{
  finish_unlock_from_dashboard, reconcile_unlock_daily_pass, reconcile_unlock_after_post_error,
  settle_unlock, note_unlocked,
}

-- The second world has the orders of the first.
abbrev pub SendsNothing : World → World → Type 0
SendsNothing v w = w.orders ≡ v.orders

pub handle-SendsNothing :
    {A B : Type 0} (u : World) (r : Step A) (failed : Fault → World → Step B)
    (next : A → World → Step B)
    → SendsNothing u r.1
    → ((why : Fault) (v : World) → SendsNothing v (failed why v).1)
    → ((a : A) (v : World) → SendsNothing v (next a v).1)
    → SendsNothing u (handle r failed next).1
unfolding handle
handle-SendsNothing u (reply a, w) failed next h f n = n a w ∙ h
handle-SendsNothing u (fault why, w) failed next h f n = f why w ∙ h

pub after-SendsNothing :
    {A B : Type 0} (u : World) (r : Step A) (next : A → World → Step B)
    → SendsNothing u r.1
    → ((a : A) (v : World) → SendsNothing v (next a v).1)
    → SendsNothing u (after r next).1
unfolding after
after-SendsNothing u r next h n = handle-SendsNothing u r _ next h (λ why v. refl) n

pub choose-SendsNothing :
    {A : Type 0} (u : World) (b : Bool) (r s : Step A)
    → SendsNothing u r.1
    → SendsNothing u s.1
    → SendsNothing u (if b then r else s).1
choose-SendsNothing u true r s h k = h
choose-SendsNothing u false r s h k = k

pub finish_purchase-SendsNothing :
    (site : Site) (account_id : Text) (action : Action) (change : Action → Action)
    (remaining : Option ℤ) (activity : Option ActivityReport) (recorded : Bool) (w : World)
    → SendsNothing w (finish_purchase site account_id action change remaining activity recorded w).1
unfolding finish_purchase finish_action on_store
finish_purchase-SendsNothing site account_id action change remaining activity recorded w =
    after-SendsNothing w _ _ refl (λ a v. refl)

store_activity_snapshot-SendsNothing :
    (site : Site) (account_id : Text) (dashboard : Dashboard) (w : World)
    → SendsNothing w (store_activity_snapshot site account_id dashboard w).1
unfolding store_activity_snapshot on_store
store_activity_snapshot-SendsNothing site account_id dashboard w =
    after-SendsNothing w _ _ refl (λ a v. refl)

pub note_unlocked-SendsNothing :
    (site : Site) (account_id : Text) (action : Action) (dashboard : Dashboard) (w : World)
    → SendsNothing w (note_unlocked site account_id action dashboard w).1
unfolding note_unlocked finish_action on_store
note_unlocked-SendsNothing site account_id action dashboard w = after-SendsNothing w _ _ refl λ a v.
    after-SendsNothing v _ _ (store_activity_snapshot-SendsNothing site account_id dashboard v)
      (λ b u. refl)

pub preflight-SendsNothing :
    (site : Site) (account_id : Text) (action : Action) (remaining : Option ℤ) (cause : Fault)
    (w : World)
    → SendsNothing w (record_purchase_preflight_error site account_id action remaining cause w).1
unfolding record_purchase_preflight_error
preflight-SendsNothing site account_id action remaining cause w =
    finish_purchase-SendsNothing site account_id action _ remaining _ _ w

module _ (site : Site) (account_id : Text) (action : Action) where
  without_proof-SendsNothing :
      (price : Option Money) (remaining : Option ℤ) (status fallback : Text) (w : World)
      → SendsNothing w
          (finish_purchase_without_proof site account_id action price remaining status fallback w).1
  unfolding finish_purchase_without_proof
  without_proof-SendsNothing price remaining status fallback w =
      finish_purchase-SendsNothing site account_id action _ remaining _ _ w

  with_proof-SendsNothing :
      (price : Option Money) (dashboard : Dashboard) (message : Text) (w : World)
      → SendsNothing w
          (finish_purchase_with_proof site account_id action price dashboard message w).1
  unfolding finish_purchase_with_proof
  with_proof-SendsNothing price dashboard message w =
      after-SendsNothing w _ _ (store_activity_snapshot-SendsNothing site account_id dashboard w)
        (λ report v. finish_purchase-SendsNothing site account_id action _ _ _ _ v)

  purchase_from_dashboard-SendsNothing :
      (price : Option Money) (dashboard : Dashboard) (status fallback : Text) (w : World)
      → SendsNothing w
          (finish_purchase_draw_from_dashboard site account_id action price dashboard status
            fallback w).1
  unfolding finish_purchase_draw_from_dashboard
  purchase_from_dashboard-SendsNothing price dashboard status fallback w =
      choose-SendsNothing w (proves_purchase action dashboard) _ _
        (with_proof-SendsNothing price dashboard _ w)
        (without_proof-SendsNothing price _ status fallback w)

  unlock_from_dashboard-SendsNothing :
      (price : Option Money) (dashboard : Dashboard) (status fallback : Text) (w : World)
      → SendsNothing w
          (finish_unlock_from_dashboard site account_id action price dashboard status fallback w).1
  unfolding finish_unlock_from_dashboard
  unlock_from_dashboard-SendsNothing price dashboard status fallback w =
      choose-SendsNothing w (is_unlocked_for dashboard (site.today w.asked)) _ _
        (with_proof-SendsNothing price dashboard _ w)
        (without_proof-SendsNothing price _ status fallback w)

  -- Reconciling a purchase that may have been sent sends nothing.
  pub reconcile_purchase-SendsNothing :
      (w : World) → SendsNothing w (reconcile_purchase_draw site account_id action w).1
  unfolding reconcile_purchase_draw
  reconcile_purchase-SendsNothing w =
      after-SendsNothing w _ _ (acquire_lottery_for_action-IsCalm site account_id w).orders
        λ sess v.
          after-SendsNothing v _ _ (dashboard_step-IsCalm site account_id sess v).orders λ d u.
            choose-SendsNothing u (proves_purchase action d.0) _ _
              (purchase_from_dashboard-SendsNothing action.price_usd d.0 _ _ u)
              (finish_purchase-SendsNothing site account_id action _ _ _ _ u)

  pub reconcile_unlock-SendsNothing :
      (w : World) → SendsNothing w (reconcile_unlock_daily_pass site account_id action w).1
  unfolding reconcile_unlock_daily_pass
  reconcile_unlock-SendsNothing w =
      after-SendsNothing w _ _ (acquire_lottery_for_action-IsCalm site account_id w).orders
        λ sess v.
          after-SendsNothing v _ _ (dashboard_step-IsCalm site account_id sess v).orders λ d u.
            choose-SendsNothing u (is_unlocked_for d.0 (site.today u.asked)) _ _
              (unlock_from_dashboard-SendsNothing action.price_usd d.0 _ _ u)
              (finish_purchase-SendsNothing site account_id action _ _ _ _ u)

  pub purchase_failed-SendsNothing :
      (price : Option Money) (sess : Session) (cause : Fault) (w : World)
      → SendsNothing w
          (reconcile_purchase_after_post_error site account_id action price sess cause w).1
  unfolding reconcile_purchase_after_post_error
  purchase_failed-SendsNothing price sess cause w =
      handle-SendsNothing w _ _ _ (dashboard_step-IsCalm site account_id sess w).orders
        (λ why v. without_proof-SendsNothing price _ _ _ v)
        λ d v.
          choose-SendsNothing v (proves_purchase action d.0) _ _
            (purchase_from_dashboard-SendsNothing price d.0 _ _ v)
            (without_proof-SendsNothing price _ _ _ v)

  pub unlock_failed-SendsNothing :
      (price : Option Money) (sess : Session) (cause : Fault) (w : World)
      → SendsNothing w
          (reconcile_unlock_after_post_error site account_id action price sess cause w).1
  unfolding reconcile_unlock_after_post_error
  unlock_failed-SendsNothing price sess cause w =
      handle-SendsNothing w _ _ _ (dashboard_step-IsCalm site account_id sess w).orders
        (λ why v. without_proof-SendsNothing price _ _ _ v)
        λ d v.
          choose-SendsNothing v (is_unlocked_for d.0 (site.today v.asked)) _ _
            (unlock_from_dashboard-SendsNothing price d.0 _ _ v)
            (without_proof-SendsNothing price _ _ _ v)

  pub settle_purchase-SendsNothing :
      (price : Option Money) (sess : Session) (result : OperationResult) (w : World)
      → SendsNothing w (settle_purchase site account_id action price sess result w).1
  unfolding settle_purchase
  settle_purchase-SendsNothing price sess result w =
      handle-SendsNothing w _ _ _ (dashboard_step-IsCalm site account_id sess w).orders
        (λ why v. without_proof-SendsNothing price _ _ _ v)
        λ d v. purchase_from_dashboard-SendsNothing price d.0 _ _ v

  pub settle_unlock-SendsNothing :
      (price : Option Money) (sess : Session) (result : OperationResult) (w : World)
      → SendsNothing w (settle_unlock site account_id action price sess result w).1
  unfolding settle_unlock
  settle_unlock-SendsNothing price sess result w =
      handle-SendsNothing w _ _ _ (dashboard_step-IsCalm site account_id sess w).orders
        (λ why v. without_proof-SendsNothing price _ _ _ v)
        λ d v. unlock_from_dashboard-SendsNothing price d.0 _ _ v
