-- ===== src/Service/Checkin/Posted.antt =====
-- The check-ins that Runner.Checkin posts, and what the store holds when it posts them.
use lottery.Prelude.{ℕ, ◌≡◌, ap, ◌∙◌, ◌⊎◌, inl, inr, Bool, false, List, ◌∷◌, not}
use lottery.Prelude.Text.{Text}
use lottery.State.Types.{Action, Store}
use lottery.Website.{Fault, CheckinResult, CheckinEligibility}
use lottery.Service.{
  Session, reply, Site, World, Step, handle, after, on_store, ask, finish_action, start_action,
  ActionOutcome,
}
use lottery.Service.DailyClaim.Quiet.{IsCalm, renew_parent-IsCalm, client_for-IsCalm}
use lottery.Service.DailyClaim.Marked.{IsMarked, calm-IsMarked}
use lottery.Service.DailyClaim.Ahead.{start_action-IsMarked}
use lottery.Service.Checkin.{
  is_auth_error, let_others, outcome_of, with_error, record_action_error, ask_status, post_checkin,
  settle_checkin, checkin_failed, checkin_again, checkin_started, run_checkin, refuse_checkin,
  check_eligibility, attempt_checkin,
}
use lottery.Service.Checkin.Calm.{
  Gives, handle-Gives, after-Gives, gives, keeps, choose-Gives, acquire_parent-IsCalm,
  eligibility-IsCalm,
}

-- Since `old`, no check-in was posted, or one, or two; each while the action was marked as started.
abbrev pub Posted : Text → List Store → List Store → Type 0
Posted key old now =
    (now ≡ old)
    ⊎ ((s : Store) × IsMarked key s × (now ≡ s ∷ old))
    ⊎ ((s t : Store) × IsMarked key s × IsMarked key t × (now ≡ t ∷ s ∷ old))

abbrev pub IsDone : Text → List Store → World → Type 0
IsDone key old w = Posted key old w.checkins

abbrev pub Nothing : List Store → World → Type 0
Nothing old w = w.checkins ≡ old

pub finish-Gives :
    (P : List Store → Type 0) (site : Site) (action : Action) (change : Action → Action)
    (recorded : Bool) (w : World)
    → P w.checkins
    → Gives
        (λ v. P v.checkins)
        (λ o v. P v.checkins)
        (after
          (finish_action site action change w)
          λ updated w. (reply (outcome_of recorded updated), w))
unfolding finish_action on_store
finish-Gives P site action change recorded w h =
    after-Gives (λ v. P v.checkins) (λ o v. P v.checkins) _ _ _ (keeps (λ v. P v.checkins) _ h)
      (λ a v k. k)

pub error-Gives :
    (P : List Store → Type 0) (site : Site) (action : Action) (why : Fault)
    (unknown retryable : Bool) (w : World)
    → P w.checkins
    → Gives
        (λ v. P v.checkins)
        (λ o v. P v.checkins)
        (record_action_error site action why unknown retryable w)
unfolding record_action_error
error-Gives P site action why unknown retryable w h =
    finish-Gives P site action (with_error why unknown retryable) false (let_others site w) h

failed-Gives :
    (P : List Store → Type 0) (site : Site) (action : Action) (why : Fault) (w : World)
    → P w.checkins
    → Gives (λ v. P v.checkins) (λ o v. P v.checkins) (checkin_failed site action why w)
unfolding checkin_failed
failed-Gives P site action why w h = error-Gives P site action why _ false w h

settle-Gives :
    (P : List Store → Type 0) (site : Site) (action : Action) (result : CheckinResult) (w : World)
    → P w.checkins
    → Gives (λ v. P v.checkins) (λ o v. P v.checkins) (settle_checkin site action result w)
unfolding settle_checkin
settle-Gives P site action result w h = finish-Gives P site action _ false (let_others site w) h

module _ (site : Site) (key : Text) (old : List Store) where
  -- One check-in has been posted, from the store `s`.
  abbrev First : Store → World → Type 0
  First s w = (w.checkins ≡ s ∷ old) × IsMarked key w.store

  calm-First : (s : Store) (v w : World) → IsCalm v w → First s v → First s w
  calm-First s v w c (h, m) = (c.checkins ∙ h, calm-IsMarked key v w c m)

  -- Whatever the call returns, what it has posted is accounted for.
  abbrev pub Ends : Step ActionOutcome → Type 0
  Ends r = Gives (IsDone key old) (λ o. IsDone key old) r

  pub ends :
      {A : Type 0} (Q : A → World → Type 0) (P : World → Type 0) (r : Step A)
      (failed : Fault → World → Step ActionOutcome) (next : A → World → Step ActionOutcome)
      → Gives P Q r
      → ((why : Fault) (v : World) → P v → Ends (failed why v))
      → ((a : A) (v : World) → Q a v → Ends (next a v))
      → Ends (handle r failed next)
  ends Q P r failed next h f n =
      handle-Gives P (IsDone key old) Q (λ o. IsDone key old) r failed next h f n

  error-Ends :
      (action : Action) (why : Fault) (unknown retryable : Bool) (v : World)
      → IsDone key old v
      → Ends (record_action_error site action why unknown retryable v)
  error-Ends = error-Gives (Posted key old) site

  failed-Ends :
      (action : Action) (why : Fault) (v : World)
      → IsDone key old v
      → Ends (checkin_failed site action why v)
  failed-Ends = failed-Gives (Posted key old) site

  settle-Ends :
      (action : Action) (result : CheckinResult) (v : World)
      → IsDone key old v
      → Ends (settle_checkin site action result v)
  settle-Ends = settle-Gives (Posted key old) site

  refuse_checkin-Ends :
      (sess : Session) (action : Action) (e : CheckinEligibility) (w : World)
      → Nothing old w
      → Ends (refuse_checkin site sess action e w)
  unfolding refuse_checkin ask_status ask
  refuse_checkin-Ends sess action e w h =
      ends (λ x. Nothing old) (Nothing old) _ _ _ (keeps (Nothing old) (ask_status site sess w) h)
        (λ why v q. error-Ends action _ _ _ v (inl q))
        (λ settings v q. error-Ends action _ _ _ v (inl q))

  -- Other calls keep the mark.
  module _ (kept : (n : ℕ) (s : Store) → IsMarked key s → IsMarked key (site.others n s)) where
    checkin_again-Ends :
        (account_id : Text) (sess : Session) (action : Action) (s : Store) (w : World)
        → IsMarked key s
        → First s w
        → Ends (checkin_again site account_id sess action w)
    unfolding checkin_again post_checkin ask
    checkin_again-Ends account_id sess action s w m first =
        let failed = λ (why : Fault) (v : World) (f : First s v).
          failed-Ends action why v (inr (inl (s, m, f.0))) in
        ends (λ x. First s) (First s) _ _ _
          (keeps (First s) _
            (calm-First s w _ (renew_parent-IsCalm site account_id sess.token w) first))
          failed
          λ renewed v f.
            ends (λ x. First s) (First s) _ _ _
              (keeps (First s) _ (calm-First s v _ (client_for-IsCalm site renewed v) f)) failed
              λ x u g.
                ends (λ r. IsDone key old) (IsDone key old) _ _ _
                  (keeps (IsDone key old) (post_checkin site renewed u) (
                    inr (
                      inr (
                        s,
                        site.others u.asked u.store,
                        m,
                        kept u.asked u.store g.1,
                        ap (λ l. site.others u.asked u.store ∷ l) g.0,
                      ))))
                  (failed-Ends action) (settle-Ends action)

    checkin_started-Ends :
        (account_id : Text) (sess : Session) (action : Action) (w : World)
        → IsMarked key w.store
        → Nothing old w
        → Ends (checkin_started site account_id sess action w)
    unfolding checkin_started post_checkin ask
    checkin_started-Ends account_id sess action w m h =
        let now = site.others w.asked w.store in
        let mark = kept w.asked w.store m in
        ends (λ r. First now) (First now) _ _ _
          (keeps (First now) (post_checkin site sess w) (ap (λ l. now ∷ l) h, mark))
          (λ why v f.
            choose-Gives (IsDone key old) (λ o. IsDone key old) (is_auth_error why) _ _
              (checkin_again-Ends account_id sess action now v mark f)
              (failed-Ends action why v (inr (inl (now, mark, f.0)))))
          (λ result v f. settle-Ends action result v (inr (inl (now, mark, f.0))))

    run_checkin-Ends :
        (account_id : Text) (sess : Session) (action : Action) (w : World)
        → action.key ≡ key
        → Nothing old w
        → Ends (run_checkin site account_id sess action w)
    unfolding run_checkin start_action finish_action on_store
    run_checkin-Ends account_id sess action w same h =
        let Q = λ (a : Action) (v : World). IsMarked key v.store × Nothing old v in
        after-Gives (IsDone key old) Q (λ o. IsDone key old) _ _
          (gives (IsDone key old) Q (start_action site action (let_others site w)) (inl h)
            (λ a q. (start_action-IsMarked site key action a (let_others site w) same q, h)))
          (λ a v q. checkin_started-Ends account_id sess a v q.0 q.1)

    check_eligibility-Ends :
        (account_id : Text) (sess : Session) (action : Action) (w : World)
        → action.key ≡ key
        → Nothing old w
        → Ends (check_eligibility site account_id sess action w)
    unfolding check_eligibility
    check_eligibility-Ends account_id sess action w same h =
        let calm = eligibility-IsCalm site account_id sess w in
        ends (λ x. Nothing old) (Nothing old) _ _ _ (keeps (Nothing old) _ (calm.checkins ∙ h))
          (λ why v q.
            choose-Gives (IsDone key old) (λ o. IsDone key old) _ _ _
              (error-Ends action why _ _ v (inl q))
              (run_checkin-Ends account_id sess action v same q))
          (λ e v q.
            choose-Gives (IsDone key old) (λ o. IsDone key old) (not e.can_checkin) _ _
              (refuse_checkin-Ends sess action e v q)
              (run_checkin-Ends account_id _ action v same q))

    pub attempt_checkin-Ends :
        (account_id : Text) (action : Action) (w : World)
        → action.key ≡ key
        → Nothing old w
        → Ends (attempt_checkin site account_id action w)
    unfolding attempt_checkin
    attempt_checkin-Ends account_id action w same h =
        let calm = acquire_parent-IsCalm site account_id w in
        ends (λ x. Nothing old) (Nothing old) _ _ _ (keeps (Nothing old) _ (calm.checkins ∙ h))
          (λ why v q. error-Ends action why _ _ v (inl q))
          (λ sess v q.
            choose-Gives (IsDone key old) (λ o. IsDone key old) _ _ _
              (check_eligibility-Ends account_id sess action v same q)
              (run_checkin-Ends account_id sess action v same q))
