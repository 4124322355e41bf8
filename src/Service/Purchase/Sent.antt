-- ===== src/Service/Purchase/Sent.antt =====
-- The orders of PurchaseDraw and UnlockDailyPass.
use lottery.Prelude.{
  ◌+◌, ◌≡◌, refl, subst, ◌∙◌, inl, inr, Bool, true, false, none, List, arith, Bool-cases,
  if◌then◌else◌, not,
}
use lottery.Prelude.Text.{Text, trim_space}
use lottery.Prelude.Time.{Time, before}
use lottery.Prelude.Result.{Result-cases}
use lottery.State.Types.{Action, Store, action_draw_purchase, action_pass_unlock}
use lottery.State.Actions.{action_key, get_or_create_action, rotate_repeatable_action, rotated}
use lottery.State.Actions.Lifecycle.{rotate_repeatable_action_lem}
use lottery.Website.{Fault, Dashboard, remaining_draws}
use lottery.Service.{
  Session, Site, World, Step, handle, after, of_result, on_store, as_step, dashboard_with_recovery,
  finish_action, start_action,
}
use lottery.Service.DailyClaim.{acquire_lottery_for_action}
use lottery.Service.DailyClaim.Quiet.{acquire_lottery_for_action-IsCalm, dashboard_step-IsCalm}
use lottery.Service.DailyClaim.Marked.{HasKey, calm-HasKey, handle-keeps}
use lottery.Service.DailyClaim.Ahead.{finish_action-keeps_key, get_or_create_action-stored}
use lottery.Service.Purchase.{
  PurchaseOutcome, Order, record_purchase_preflight_error, is_unlocked_for, draw_purchase,
  pass_unlock, purchase_price, pass_price, place_order,
}
use lottery.Service.Purchase.Draw.{
  purchase_prepared, order_draw, attempt_purchase, purchase_again, resume_purchase,
  proceed_purchase, purchase_draw,
}
use lottery.Service.Purchase.Unlock.{
  reconcile_unlock_after_post_error, settle_unlock, note_unlocked, unlock_prepared, order_unlock,
  attempt_unlock, resume_unlock, proceed_unlock, unlock_daily_pass,
}
use lottery.Service.Purchase.Calm.{
  preflight-SendsNothing, note_unlocked-SendsNothing, reconcile_purchase-SendsNothing,
  reconcile_unlock-SendsNothing, purchase_failed-SendsNothing, unlock_failed-SendsNothing,
  settle_purchase-SendsNothing, settle_unlock-SendsNothing,
}
use lottery.Service.Purchase.Backed.{Sent, place_order-Sent, start_action-Holds}

-- What a call does after it has the action, from the time on when it has sent nothing.
abbrev IsSafe : Text → (Action → World → Step PurchaseOutcome) → Type 0
IsSafe key next =
    (old : List (Text × Store)) (a : Action) (w : World)
    → a.key ≡ key
    → HasKey key w.store
    → w.orders ≡ old
    → Sent key old (next a w).1.orders

nothing-Sent :
    (key : Text) (old : List (Text × Store)) (why : Fault) (w : World)
    → w.orders ≡ old
    → Sent key old w.orders
nothing-Sent key old why w h = inl h

preflight-Sent :
    (site : Site) (key : Text) (old : List (Text × Store)) (account_id : Text) (a : Action)
    (why : Fault) (w : World)
    → w.orders ≡ old
    → Sent key old (record_purchase_preflight_error site account_id a none why w).1.orders
preflight-Sent site key old account_id a why w h =
    inl (preflight-SendsNothing site account_id a none why w ∙ h)

-- An attempt is safe if its order is.
attempt-IsSafe :
    (site : Site) (key account_id : Text)
    (order : Session → Action → Dashboard → World → Step PurchaseOutcome)
    → ((sess : Session) (d : Dashboard) → IsSafe key (λ a w. order sess a d w))
    → IsSafe key (λ a w.
      handle
        (acquire_lottery_for_action site account_id w)
        (λ why w. record_purchase_preflight_error site account_id a none why w)
        (λ sess w.
          handle
            (as_step (dashboard_with_recovery site account_id sess w))
            (λ why w. record_purchase_preflight_error site account_id a none why w)
            (λ (d, sess) w. order sess a d w)))
attempt-IsSafe site key account_id order safe old a w same has h =
    let first = acquire_lottery_for_action-IsCalm site account_id w in
    let v = (acquire_lottery_for_action site account_id w).1 in
    let refused = preflight-Sent site key old account_id a in
    let at_v = first.orders ∙ h in
    let P = λ (u : World). u.orders ≡ old in
    let Q = λ (u : World). Sent key old u.orders in
    handle-keeps P Q _ _ _ at_v refused λ sess q.
      let second = dashboard_step-IsCalm site account_id sess v in
      let u = (as_step (dashboard_with_recovery site account_id sess v)).1 in
      handle-keeps P Q _ _ _ (second.orders ∙ at_v) refused λ d r.
        safe d.1 d.0 old a u same (calm-HasKey key v u second (calm-HasKey key w v first has))
          (second.orders ∙ at_v)

purchase_prepared-key :
    (site : Site) (d : Dashboard) (w : World) (v : Action)
    → (purchase_prepared (purchase_price (site.now w.asked) d) d v).key ≡ v.key
unfolding purchase_prepared
purchase_prepared-key site d w v = refl

order_draw-IsSafe :
    (site : Site) (key account_id : Text) (sess : Session) (d : Dashboard)
    → IsSafe key (λ a w. order_draw site account_id sess a d w)
unfolding order_draw after finish_action start_action on_store
order_draw-IsSafe site key account_id sess d old a w same has h =
    let price = purchase_price (site.now w.asked) d in
    let v = (finish_action site a (purchase_prepared price d) w).1 in
    let P = λ (u : World). u.orders ≡ old in
    let Q = λ (u : World). Sent key old u.orders in
    handle-keeps P Q _ _ _ h (nothing-Sent key old) λ b q.
      handle-keeps P Q _ _ _ h (nothing-Sent key old) λ c r.
        place_order-Sent site draw_purchase key old account_id sess c (remaining_draws d) _ _ _
          (λ left cause v. purchase_failed-SendsNothing site account_id c price left cause v)
          (λ left result v. settle_purchase-SendsNothing site account_id c price left result v) h
          (start_action-Holds site key b c v
            (finish_action-keeps_key site key a b (purchase_prepared price d) w
              (purchase_prepared-key site d w) same has q)
            r)

choose-Sent :
    {A : Type 0} (key : Text) (old : List (Text × Store)) (b : Bool) (r s : Step A)
    → Sent key old r.1.orders
    → Sent key old s.1.orders
    → Sent key old (if b then r else s).1.orders
choose-Sent key old true r s h k = h
choose-Sent key old false r s h k = k

unlock_prepared-key :
    (site : Site) (d : Dashboard) (w : World) (v : Action)
    → (unlock_prepared
        (pass_price (site.now w.asked) d)
        (is_unlocked_for d (site.today w.asked))
        v).key
      ≡ v.key
unfolding unlock_prepared
unlock_prepared-key site d w v = refl

order_unlock-IsSafe :
    (site : Site) (key account_id : Text) (sess : Session) (d : Dashboard)
    → IsSafe key (λ a w. order_unlock site account_id sess a d w)
unfolding order_unlock after finish_action start_action on_store
order_unlock-IsSafe site key account_id sess d old a w same has h =
    let price = pass_price (site.now w.asked) d in
    let unlocked = is_unlocked_for d (site.today w.asked) in
    let v = (finish_action site a (unlock_prepared price unlocked) w).1 in
    let P = λ (u : World). u.orders ≡ old in
    let Q = λ (u : World). Sent key old u.orders in
    handle-keeps P Q _ _ _ h (nothing-Sent key old) λ b q.
      choose-Sent {A = PurchaseOutcome} key old unlocked (note_unlocked site account_id b d v)
        (after (start_action site b v) λ c u.
          place_order site pass_unlock account_id sess c (remaining_draws d)
            (reconcile_unlock_after_post_error site account_id c price)
            (settle_unlock site account_id c price) u)
        (inl (note_unlocked-SendsNothing site account_id b d v ∙ h))
        (handle-keeps P Q _ _ _ h (nothing-Sent key old) λ c r.
          place_order-Sent site pass_unlock key old account_id sess c (remaining_draws d) _ _ _
            (λ left cause v. unlock_failed-SendsNothing site account_id c price left cause v)
            (λ left result v. settle_unlock-SendsNothing site account_id c price left result v) h
            (start_action-Holds site key b c v
              (finish_action-keeps_key site key a b (unlock_prepared price unlocked) w
                (unlock_prepared-key site d w) same has q)
              r))

attempt_purchase-IsSafe :
    (site : Site) (key account_id : Text) → IsSafe key (λ a w. attempt_purchase site account_id a w)
unfolding attempt_purchase
attempt_purchase-IsSafe site key account_id =
    attempt-IsSafe site key account_id (λ sess a d w. order_draw site account_id sess a d w)
      (order_draw-IsSafe site key account_id)

attempt_unlock-IsSafe :
    (site : Site) (key account_id : Text) → IsSafe key (λ a w. attempt_unlock site account_id a w)
unfolding attempt_unlock
attempt_unlock-IsSafe site key account_id =
    attempt-IsSafe site key account_id (λ sess a d w. order_unlock site account_id sess a d w)
      (order_unlock-IsSafe site key account_id)

-- An attempt after a rotation.
rotated-IsSafe :
    (site : Site) (key : Text) (next : Action → World → Step PurchaseOutcome)
    → IsSafe key next
    → IsSafe key
        (λ a w. after (on_store (λ e. rotate_repeatable_action e a.key) site w) λ a w. next a w)
unfolding after on_store of_result rotated
rotated-IsSafe site key next safe old a w same has h =
    let e = site.env w.asked in
    handle-keeps (λ u. u.orders ≡ old) (λ u. Sent key old u.orders) _ _ _ h (nothing-Sent key old)
      λ b q. elim (Result-cases (rotate_repeatable_action e a.key w.store).0) [
        | inr (why, t) ↦ absurd (ground arith)
        | inl (c, t) ↦
            let (before, fresh_key, found, idle, repeatable, drawn, made, now) =
              rotate_repeatable_action_lem e a.key w.store c t in
            safe old b _ (ground (arith, has before)) (λ d at. ground (arith, has before)) h
      ]

purchase_again-IsSafe :
    (site : Site) (key account_id : Text) (call_started : Time)
    → IsSafe key (λ a w. purchase_again site account_id a call_started w)
unfolding purchase_again
purchase_again-IsSafe site key account_id call_started old a w same has h =
    elim (Bool-cases (not (before a.updated_at call_started))) [
      | inl t ↦ rw (t, purchase_again) (inl h)
      | inr t ↦
          rw (t, purchase_again)
            (rotated-IsSafe site key (λ a w. attempt_purchase site account_id a w)
              (attempt_purchase-IsSafe site key account_id) old a w same has h)
    ]

proceed_purchase-Sent :
    (site : Site) (key account_id : Text) (call_started : Time) (created : Bool)
    → IsSafe key (λ a w. proceed_purchase site account_id call_started (a, created) w)
unfolding proceed_purchase resume_purchase
proceed_purchase-Sent site key account_id call_started created old a w same has h =
    let again = purchase_again-IsSafe site key account_id call_started old a w same has h in
    let attempt = attempt_purchase-IsSafe site key account_id old a w same has h in
    ground (arith, again, attempt, reconcile_purchase-SendsNothing site account_id a w ∙ h)

proceed_unlock-Sent :
    (site : Site) (key account_id : Text) (created : Bool)
    → IsSafe key (λ a w. proceed_unlock site account_id (a, created) w)
unfolding proceed_unlock resume_unlock
proceed_unlock-Sent site key account_id created old a w same has h =
    let attempt = attempt_unlock-IsSafe site key account_id old a w same has h in
    let again =
      rotated-IsSafe site key (λ a w. attempt_unlock site account_id a w)
        (attempt_unlock-IsSafe site key account_id) old a w same has h in
    ground (arith, again, attempt, reconcile_unlock-SendsNothing site account_id a w ∙ h)

-- The key of the action of an account, of today and of a kind.
abbrev pub key_today : Site → Text → Text → World → Text
key_today site account_id kind w =
    action_key (trim_space account_id) (trim_space (site.today w.asked)) kind

-- A call that takes the action of today and then does what is safe.
taken-Sent :
    (site : Site) (account_id kind : Text) (w : World)
    (next : Action × Bool → World → Step PurchaseOutcome)
    → HasKey (key_today site account_id kind w) w.store
    → ((created : Bool) → IsSafe (key_today site account_id kind w) (λ a w. next (a, created) w))
    → Sent
        (key_today site account_id kind w)
        w.orders
        (after
          (on_store (λ e. get_or_create_action e account_id (site.today w.asked) kind) site w)
          next).1.orders
unfolding after on_store of_result
taken-Sent site account_id kind w next has safe =
    let key = key_today site account_id kind w in
    let date = site.today w.asked in
    let taken = get_or_create_action (site.env w.asked) account_id date kind w.store in
    handle-keeps (λ u. u.orders ≡ w.orders) (λ u. Sent key w.orders u.orders) _ _ _ refl
      (nothing-Sent key w.orders)
      λ p t. elim (Result-cases taken.0) [
        | inr (why, g) ↦ absurd (ground arith)
        | inl ((a, created), g) ↦
            let facts =
              get_or_create_action-stored (site.env w.asked) account_id date kind w.store a created
                has g in
            let same : (a, created) ≡ p = ground arith in
            let v = record w { store = taken.1; asked = w.asked + 1 } in
            subst (λ p. Sent key w.orders (next p v).1.orders) same
              (safe created w.orders a v facts.0 facts.1 refl)
      ]

purchase_draw-Sent :
    (site : Site) (account_id : Text) (w : World)
    → HasKey (key_today site account_id action_draw_purchase w) w.store
    → Sent
        (key_today site account_id action_draw_purchase w)
        w.orders
        (purchase_draw site account_id w).1.orders
unfolding purchase_draw after
purchase_draw-Sent site account_id w has =
    let key = key_today site account_id action_draw_purchase w in
    handle-keeps (λ u. u.orders ≡ w.orders) (λ u. Sent key w.orders u.orders) _ _ _ refl
      (nothing-Sent key w.orders)
      λ r q.
        taken-Sent site account_id action_draw_purchase w _ has
          (λ created. proceed_purchase-Sent site key account_id (site.now w.asked) created)

unlock_daily_pass-Sent :
    (site : Site) (account_id : Text) (w : World)
    → HasKey (key_today site account_id action_pass_unlock w) w.store
    → Sent
        (key_today site account_id action_pass_unlock w)
        w.orders
        (unlock_daily_pass site account_id w).1.orders
unfolding unlock_daily_pass after
unlock_daily_pass-Sent site account_id w has =
    let key = key_today site account_id action_pass_unlock w in
    handle-keeps (λ u. u.orders ≡ w.orders) (λ u. Sent key w.orders u.orders) _ _ _ refl
      (nothing-Sent key w.orders)
      λ r q.
        taken-Sent site account_id action_pass_unlock w _ has
          (λ created. proceed_unlock-Sent site key account_id created)

-- The kind of the action of an order, and the call that places it.
abbrev pub kind_of : Order → Text
kind_of draw_purchase = action_draw_purchase
kind_of pass_unlock = action_pass_unlock

abbrev pub call : Order → Site → Text → World → Step PurchaseOutcome
call draw_purchase = purchase_draw
call pass_unlock = unlock_daily_pass

-- One call of PurchaseDraw or of UnlockDailyPass sends no order, or one, or two under the same
-- idempotency key. Whenever it sends one, the action of that account, day and kind is marked as
-- started and carries this idempotency key, in memory and on file, at that time. The stored action is
-- taken to carry its own key.
pub call-Sent :
    (order : Order) (site : Site) (account_id : Text) (w : World)
    → HasKey (key_today site account_id (kind_of order) w) w.store
    → Sent
        (key_today site account_id (kind_of order) w)
        w.orders
        (call order site account_id w).1.orders
call-Sent draw_purchase site account_id w has = purchase_draw-Sent site account_id w has
call-Sent pass_unlock site account_id w has = unlock_daily_pass-Sent site account_id w has
