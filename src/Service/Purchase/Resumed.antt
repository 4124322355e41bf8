-- ===== src/Service/Purchase/Resumed.antt =====
-- PurchaseDraw and UnlockDailyPass on an action that exists.
use lottery.Prelude.{◌≡◌, refl, ◌⊎◌, inl, inr, true, some, arith}
use lottery.Prelude.Text.{Text, text_eq}
use lottery.Prelude.Time.{Time}
use lottery.State.Types.{Action, action_unknown}
use lottery.State.Actions.Lifecycle.{stored}
use lottery.Service.{Reply-cases, Site, World, handle, after, of_result, on_store, enabled_account}
use lottery.Service.DailyClaim.Guarded.{get_or_create_action-found}
use lottery.Service.Purchase.{Order, draw_purchase, pass_unlock}
use lottery.Service.Purchase.Draw.{resume_purchase, proceed_purchase, purchase_draw}
use lottery.Service.Purchase.Unlock.{resume_unlock, proceed_unlock, unlock_daily_pass}
use lottery.Service.Purchase.Calm.{
  SendsNothing, reconcile_purchase-SendsNothing, reconcile_unlock-SendsNothing,
}
use lottery.Service.Purchase.Sent.{key_today, kind_of, call}

-- The order of the action may have been sent.
abbrev pub MayHaveOrdered : Action → Type 0
MayHaveOrdered a = (a.status ≡ action_unknown) ⊎ (a.side_effect_started ≡ true)

resume_purchase-SendsNothing :
    (site : Site) (account_id : Text) (a : Action) (call_started : Time) (w : World)
    → MayHaveOrdered a
    → SendsNothing w (resume_purchase site account_id a call_started w).1
unfolding resume_purchase text_eq
resume_purchase-SendsNothing site account_id a call_started w h =
    ground (arith, reconcile_purchase-SendsNothing site account_id a w)

resume_unlock-SendsNothing :
    (site : Site) (account_id : Text) (a : Action) (w : World)
    → MayHaveOrdered a
    → SendsNothing w (resume_unlock site account_id a w).1
unfolding resume_unlock text_eq
resume_unlock-SendsNothing site account_id a w h =
    ground (arith, reconcile_unlock-SendsNothing site account_id a w)

-- A call of PurchaseDraw or of UnlockDailyPass sends no order if the action of that account, day and
-- kind may have sent one already: if its result is unknown, or it is marked as started.
pub call-SendsNothing :
    (order : Order) (site : Site) (account_id : Text) (w : World) (a : Action)
    → stored (key_today site account_id (kind_of order) w) w.store ≡ some a
    → MayHaveOrdered a
    → SendsNothing w (call order site account_id w).1
unfolding purchase_draw proceed_purchase unlock_daily_pass proceed_unlock after handle on_store
    of_result
call-SendsNothing draw_purchase site account_id w a h may =
    let found =
      get_or_create_action-found (site.env w.asked) account_id (site.today w.asked)
        (kind_of draw_purchase) w.store a h in
    elim (Reply-cases (enabled_account account_id w.store)) [
      | inr (why, q) ↦ rw (q, purchase_draw, after, handle) refl
      | inl (r, q) ↦ elim found.1 [
        | inr missing ↦ rw (q, missing, purchase_draw, after, handle, on_store, of_result) refl
        | inl existing ↦
            rw (q, existing, purchase_draw, proceed_purchase, after, handle, on_store, of_result)
              (resume_purchase-SendsNothing site account_id a _ _ may)
      ]
    ]
call-SendsNothing pass_unlock site account_id w a h may =
    let found =
      get_or_create_action-found (site.env w.asked) account_id (site.today w.asked)
        (kind_of pass_unlock) w.store a h in
    elim (Reply-cases (enabled_account account_id w.store)) [
      | inr (why, q) ↦ rw (q, unlock_daily_pass, after, handle) refl
      | inl (r, q) ↦ elim found.1 [
        | inr missing ↦ rw (q, missing, unlock_daily_pass, after, handle, on_store, of_result) refl
        | inl existing ↦
            rw (q, existing, unlock_daily_pass, proceed_unlock, after, handle, on_store, of_result)
              (resume_unlock-SendsNothing site account_id a _ may)
      ]
    ]
