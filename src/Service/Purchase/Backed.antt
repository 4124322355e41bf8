-- ===== src/Service/Purchase/Backed.antt =====
-- The orders that a call sends, and what the store holds when it sends them.
use lottery.Prelude.{
  ◌≡◌, refl, sym, ap, subst, ◌∙◌, ◌⊎◌, inl, inr, true, Option, some, List, ◌∷◌, arith, Bool-cases,
  ◌||◌,
}
use lottery.Prelude.Text.{Text}
use lottery.Prelude.Int.{ℤ}
use lottery.Prelude.Dict.{lookup}
use lottery.Prelude.Result.{Result-cases}
use lottery.State.Types.{Action, Store}
use lottery.State.Persist.{encode}
use lottery.State.Actions.{update_action}
use lottery.State.Actions.Lifecycle.{stored}
use lottery.Website.{Fault, OperationResult, is_status}
use lottery.Service.{
  Session, reply, fault, Site, World, Step, left_with, ask, renew_lottery, client_for, of_result,
  on_store, finish_action, started, start_action,
}
use lottery.Service.DailyClaim.Quiet.{IsCalm, renew_lottery-IsCalm, client_for-IsCalm}
use lottery.Service.DailyClaim.Marked.{handle-keeps}
use lottery.Service.DailyClaim.Ahead.{update_action_lem}
use lottery.Service.Purchase.{
  PurchaseOutcome, Order, post_order, order_again, order_renewed, recover_order,
  order_with_recovery, is_explicit_insufficient, place_order,
}
use lottery.Service.Purchase.Calm.{SendsNothing, choose-SendsNothing, finish_purchase-SendsNothing}

-- The action is stored under the key and marked as started, in memory and on file.
abbrev pub Holds : Text → Action → Store → Type 0
Holds key a s =
    (stored key s ≡ some a) × (a.side_effect_started ≡ true) × (s.file ≡ encode s.content)

-- An order was sent under the idempotency key of the action that the store holds.
abbrev pub IsBacked : Text → Text × Store → Type 0
IsBacked key order = (a : Action) × Holds key a order.1 × (a.idempotency_key ≡ order.0)

-- Since `old`, no order was sent, or one, or two under the same idempotency key; each was backed.
abbrev pub Sent : Text → List (Text × Store) → List (Text × Store) → Type 0
Sent key old now =
    (now ≡ old)
    ⊎ ((k : Text) × (s : Store) × IsBacked key (k, s) × (now ≡ (k, s) ∷ old))
    ⊎ ((k : Text) × (s t : Store) × IsBacked key (k, s)
        × IsBacked key (k, t)
        × (now ≡ (k, t) ∷ (k, s) ∷ old))

pub quiet-Sent :
    (key : Text) (old : List (Text × Store)) {before now : List (Text × Store)}
    → now ≡ before
    → Sent key old before
    → Sent key old now
quiet-Sent key old q h = subst (Sent key old) (sym q) h

calm-Holds :
    (key : Text) (a : Action) (v w : World) → IsCalm v w → Holds key a v.store → Holds key a w.store
calm-Holds key a v w c (found, mark, file) =
    (ap (lookup key) c.actions ∙ found, mark, c.on_file file)

module _ (site : Site) (order : Order) (key : Text) (old : List (Text × Store)) (a : Action)
    (s : Store) (held : Holds key a s) where
  -- The first order has been sent.
  abbrev First : World → Type 0
  First w = w.orders ≡ (a.idempotency_key, s) ∷ old

  First-Sent : (w : World) → First w → Sent key old w.orders
  First-Sent w h = inr (inl (a.idempotency_key, s, (a, held, refl), h))

  order_again-Sent :
      (sess : Session) (r : Step (Unit {0}))
      → First r.1
      → Holds key a r.1.store
      → Sent key old (order_again site order sess a.idempotency_key r).1.orders
  unfolding order_again left_with post_order ask
  order_again-Sent sess (fault why, w) h now = First-Sent w h
  order_again-Sent sess (reply x, w) h now = inr (
      inr (
        a.idempotency_key,
        s,
        w.store,
        (a, held, refl),
        (a, now, refl),
        ap (λ l. (a.idempotency_key, w.store) ∷ l) h,
      ))

  order_renewed-Sent :
      (sess : Session) (r : Step Session)
      → First r.1
      → Holds key a r.1.store
      → Sent key old (order_renewed site order sess a.idempotency_key r).1.orders
  unfolding order_renewed left_with
  order_renewed-Sent sess (fault why, w) h now = First-Sent w h
  order_renewed-Sent sess (reply renewed, w) h now =
      let calm = client_for-IsCalm site renewed w in
      order_again-Sent renewed (client_for site renewed w) (calm.orders ∙ h)
        (calm-Holds key a w (client_for site renewed w).1 calm now)

  recover_order-Sent :
      (account_id : Text) (sess : Session) (r : Step OperationResult)
      → First r.1
      → Holds key a r.1.store
      → Sent key old (recover_order site order account_id sess a.idempotency_key r).1.orders
  unfolding recover_order left_with
  recover_order-Sent account_id sess (reply result, w) h now = First-Sent w h
  recover_order-Sent account_id sess (fault why, w) h now =
      elim (Bool-cases (is_status why 401 || is_status why 403)) [
        | inr q ↦ rw (q, recover_order) (First-Sent w h)
        | inl q ↦
            let calm = renew_lottery-IsCalm site account_id sess.token w in
            rw (q, recover_order)
              (order_renewed-Sent sess (renew_lottery site account_id sess.token w)
                (calm.orders ∙ h)
                (calm-Holds key a w (renew_lottery site account_id sess.token w).1 calm now))
      ]

-- Placing an order whose action the store holds.
pub place_order-Sent :
    (site : Site) (order : Order) (key : Text) (old : List (Text × Store)) (account_id : Text)
    (sess : Session) (a : Action) (before : Option ℤ)
    (failed : Session → Fault → World → Step PurchaseOutcome)
    (settle : Session → OperationResult → World → Step PurchaseOutcome) (w : World)
    → ((left : Session) (cause : Fault) (v : World) → SendsNothing v (failed left cause v).1)
    → ((left : Session) (r : OperationResult) (v : World) → SendsNothing v (settle left r v).1)
    → w.orders ≡ old
    → Holds key a w.store
    → Sent key old (place_order site order account_id sess a before failed settle w).1.orders
unfolding place_order order_with_recovery post_order ask
place_order-Sent site order key old account_id sess a before failed settle w quiet calm h held =
    let k = a.idempotency_key in
    let sent =
      recover_order-Sent site order key old a w.store held account_id sess
        (post_order site order sess k w) (ap (λ l. (k, w.store) ∷ l) h) held in
    handle-keeps (λ v. Sent key old v.orders) (λ v. Sent key old v.orders) _ _ _ sent
      (λ cause v g.
        quiet-Sent key old
          (choose-SendsNothing v (is_explicit_insufficient cause) _ _
            (finish_purchase-SendsNothing site account_id a _ before _ _ v) (quiet _ cause v))
          g)
      (λ result q. quiet-Sent key old (calm _ result _) sent)

-- A start that succeeds stores the action that it returns, with its mark.
pub start_action-Holds :
    (site : Site) (key : Text) (action a : Action) (w : World)
    → action.key ≡ key
    → (start_action site action w).0 ≡ reply a
    → Holds key a (start_action site action w).1.store
unfolding start_action finish_action on_store of_result started
start_action-Holds site key action a w same h =
    let r = update_action (site.env w.asked) action.key started w.store in
    elim (Result-cases r.0) [
      | inr (why, q) ↦ absurd (ground arith)
      | inl (b, q) ↦
          let (old, found, made, now, file) =
            update_action_lem (site.env w.asked) action.key started w.store b q in
          let same_action : b ≡ a = ground arith in
          subst (λ c. Holds key c r.1) same_action
            (subst (λ k. stored k r.1 ≡ some b) same now, ground arith, file)
    ]
