-- ===== src/Service/Checkin/Reconciled.antt =====
-- The reconciliation of a failed check-in.
use lottery.Prelude.{ℕ, ◌≡◌, Option, none, List, not}
use lottery.Prelude.Text.{Text}
use lottery.State.Types.{Action, Store}
use lottery.Website.{Fault, CheckinStatus, StatusSettings}
use lottery.Service.{Session, reply, Site, World, Step, handle, ask, ActionOutcome}
use lottery.Service.DailyClaim.Quiet.{
  IsCalm, acquire-IsCalm, renew_parent-IsCalm, client_for-IsCalm, ask-IsCalm,
}
use lottery.Service.Checkin.{
  is_auth_error, fetch_checkin_display_status, ask_status, reconcile_with, unchanged,
  reconcile_again, reconcile_failed_checkin,
}
use lottery.Service.Checkin.Calm.{Gives, handle-Gives, after-Gives, gives, keeps, choose-Gives}
use lottery.Service.Checkin.Posted.{Nothing}

-- What holds of a reconciliation if it holds where the website has told its state, and where it has
-- told nothing.
module _ (site : Site) (account_id : Text) (action : Action) (old : List Store)
    (Here : World → Type 0) (Ready : Action × Option ActionOutcome → World → Type 0)
    (Known : CheckinStatus → Type 0) (calm : (v w : World) → IsCalm v w → Here v → Here w)
    (nothing : (v : World) → Here v → Nothing old v)
    (told_nothing : (v : World) → Here v → Ready (action, none) v)
    (known : (n : ℕ) (token : Text) (status : CheckinStatus)
      → site.checkin_status n token ≡ reply status
      → Known status)
    (told : (answer : CheckinStatus × StatusSettings) (v : World)
      → Known answer.0
      → Here v
      → Gives (Nothing old) Ready (reconcile_with site action answer v)) where
  fetch-Gives :
      (sess : Session) (w : World)
      → Here w
      → Gives Here (λ answer v. Known answer.0 × Here v) (fetch_checkin_display_status site sess w)
  unfolding fetch_checkin_display_status ask_status ask
  fetch-Gives sess w h =
      let Q = λ (answer : CheckinStatus × StatusSettings) (v : World). Known answer.0 × Here v in
      after-Gives Here (λ status v. Known status × Here v) Q _ _
        (gives Here (λ status v. Known status × Here v)
          (ask (λ n. site.checkin_status n sess.token) w)
          (calm w _ (ask-IsCalm (λ n. site.checkin_status n sess.token) w) h)
          (λ status q. (
            known _ _ status q,
            calm w _ (ask-IsCalm (λ n. site.checkin_status n sess.token) w) h,
          )))
        λ status v (k, g).
          handle-Gives Here Here (λ settings. Here) Q _ _ _
            (keeps Here (ask_status site sess v)
              (calm v _ (ask-IsCalm (λ n. site.status n sess.token) v) g))
            (λ why u l. choose-Gives Here Q (not (is_auth_error why)) _ _ (k, l) l)
            (λ settings u l. (k, l))

  reconcile :
      {A : Type 0} (Q : A → World → Type 0) (r : Step A)
      (failed : Fault → World → Step (Action × Option ActionOutcome))
      (next : A → World → Step (Action × Option ActionOutcome))
      → Gives Here Q r
      → ((why : Fault) (v : World) → Here v → Gives (Nothing old) Ready (failed why v))
      → ((a : A) (v : World) → Q a v → Gives (Nothing old) Ready (next a v))
      → Gives (Nothing old) Ready (handle r failed next)
  reconcile Q r failed next h f n = handle-Gives Here (Nothing old) Q Ready r failed next h f n

  unchanged-Gives :
      (why : Fault) (v : World) → Here v → Gives (Nothing old) Ready (unchanged action why v)
  unchanged-Gives why v h = told_nothing v h

  reconcile_again-Gives :
      (sess : Session) (w : World)
      → Here w
      → Gives (Nothing old) Ready (reconcile_again site account_id sess action w)
  unfolding reconcile_again
  reconcile_again-Gives sess w h =
      reconcile (λ x. Here) _ _ _
        (keeps Here _ (calm w _ (renew_parent-IsCalm site account_id sess.token w) h))
        unchanged-Gives
        λ renewed v h.
          reconcile (λ x. Here) _ _ _ (keeps Here _ (calm v _ (client_for-IsCalm site renewed v) h))
            unchanged-Gives
            λ x u h.
              reconcile (λ answer v. Known answer.0 × Here v) _ _ _ (fetch-Gives renewed u h)
                unchanged-Gives (λ answer t (k, h). told answer t k h)

  pub reconcile-Gives :
      (w : World)
      → Here w
      → Gives (Nothing old) Ready (reconcile_failed_checkin site account_id action w)
  unfolding reconcile_failed_checkin
  reconcile-Gives w h =
      reconcile (λ x. Here) _ _ _ (keeps Here _ (calm w _ (acquire-IsCalm site account_id w) h))
        unchanged-Gives
        λ sess v h.
          reconcile (λ x. Here) _ _ _ (keeps Here _ (calm v _ (client_for-IsCalm site sess v) h))
            unchanged-Gives
            λ x u h.
              reconcile (λ answer v. Known answer.0 × Here v) _ _ _ (fetch-Gives sess u h)
                (λ why t h.
                  choose-Gives (Nothing old) Ready (is_auth_error why) _ _
                    (reconcile_again-Gives sess t h) (told_nothing t h))
                (λ answer t (k, h). told answer t k h)
