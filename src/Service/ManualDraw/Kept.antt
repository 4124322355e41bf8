-- ===== src/Service/ManualDraw/Kept.antt =====
-- The draws that Runner.DrawAvailable posts.
use lottery.Prelude.{
  arith, ℕ, Bool, subst, ◌≡◌, refl, ap, ◌∙◌, ◌⊎◌, inl, inr, true, false, Option, none, some, List,
  ◌∷◌, ◌||◌, not, Option-cases, Bool-cases, if◌then◌else◌,
}
use lottery.Prelude.Text.{Text, is_empty, trim_space}
use lottery.Prelude.Int.{ℤ, pos, ltb_ℤ}
use lottery.Prelude.Time.{Time}
use lottery.Website.{
  Dashboard, remaining_draws, Fault, is_status, is_transient, DrawResult, StatusSettings,
}
use lottery.Service.{
  Session, Reply, Step, reply, fault, Site, World, Recovered, after, ask, renew_lottery, client_for,
  ask_dashboard, left_with, map_reply, as_step, fetch_after, fetch_renewed, retry_dashboard,
  recover_dashboard, dashboard_with_recovery,
}
use lottery.Service.DailyClaim.Quiet.{
  IsCalm, IsCalm-refl, handle-IsCalm, after-IsCalm, ask-IsCalm, acquire-IsCalm, renew_parent-IsCalm,
  renew_lottery-IsCalm, client_for-IsCalm, dashboard_step-IsCalm,
}
use lottery.Service.Checkin.{is_auth_error, ask_status}
use lottery.Service.Checkin.Calm.{
  Gives, handle-Gives, after-Gives, gives, keeps, choose-Gives, choose-IsCalm,
}
use lottery.Service.AutoDraw.Execute.{DrawAvailableOutcome}
use lottery.Service.ManualDraw.{
  Won, draw_result_quota_amount, delta_with, quota_delta, quota_delta_money_for_draw, post_draw,
  draw_again, draw_with_recovery, draw_remaining, draw_available,
}

delta_with-IsCalm :
    (site : Site) (won : Won) (seen : Time) (settings : StatusSettings) (w : World)
    → IsCalm w (delta_with site won seen settings w).1
unfolding delta_with
delta_with-IsCalm site won seen settings w = IsCalm-refl w

quota_delta-IsCalm :
    (site : Site) (account_id : Text) (won : Won) (seen : Time) (w : World)
    → IsCalm w (quota_delta site account_id won seen w).1
unfolding quota_delta ask_status
quota_delta-IsCalm site account_id won seen w =
    after-IsCalm w _ _ (acquire-IsCalm site account_id w) λ sess v.
      handle-IsCalm v _ _ _ (ask-IsCalm _ v)
        (λ why u. choose-IsCalm u (not (is_auth_error why)) _ _ (IsCalm-refl u) (
          after-IsCalm u _ _ (renew_parent-IsCalm site account_id sess.token u) λ renewed t.
            after-IsCalm t _ _ (client_for-IsCalm site renewed t) λ x s.
              after-IsCalm s _ _ (ask-IsCalm _ s)
                (λ settings r. delta_with-IsCalm site won seen settings r)))
        (λ settings u. delta_with-IsCalm site won seen settings u)

delta-IsCalm :
    (site : Site) (account_id : Text) (result : DrawResult) (w : World)
    → IsCalm w (quota_delta_money_for_draw site account_id result w).1
unfolding quota_delta_money_for_draw
delta-IsCalm site account_id result w = elim (Option-cases (draw_result_quota_amount result)) [
  | inl q ↦ rw (q, quota_delta_money_for_draw) (IsCalm-refl w)
  | inr (won, q) ↦
      rw (q, quota_delta_money_for_draw)
        (handle-IsCalm w _ _ _ (quota_delta-IsCalm site account_id won (site.now w.asked) w)
          (λ why v. IsCalm-refl v) (λ money v. IsCalm-refl v))
]

-- Since `old`, one draw was posted, or two, under the key.
abbrev pub Spent : Text → List Text → World → Type 0
Spent key old w = (w.draws ≡ key ∷ old) ⊎ (w.draws ≡ key ∷ key ∷ old)

-- Since `old`, at most two draws were posted, under the key.
abbrev pub MaySpend : Text → List Text → World → Type 0
MaySpend key old w = (w.draws ≡ old) ⊎ Spent key old w

-- The website has shown the dashboard.
abbrev Shows : Site → Dashboard → Type 0
Shows site dashboard = (n : ℕ) × (token : Text) × (site.dashboard n token ≡ reply dashboard)

-- The website has said that so many draws remain.
abbrev pub Said : Site → ℤ → Type 0
Said site remaining =
    (dashboard : Dashboard) × Shows site dashboard × (remaining_draws dashboard ≡ some remaining)

-- What was posted is what the outcome says.
abbrev pub IsSpent : Text → List Text → DrawAvailableOutcome → World → Type 0
IsSpent key old outcome w =
    ((outcome.skipped ≡ true) × (ltb_ℤ (pos 0) outcome.remaining_before ≡ false) × (w.draws ≡ old))
    ⊎ ((outcome.skipped ≡ false)
        × (ltb_ℤ (pos 0) outcome.remaining_before ≡ true)
        × Spent key old w)

-- The draws that remain are what the website has said, and what the outcome says is what was posted:
-- nothing if it was skipped, for want of draws that remain; else one draw or two.
abbrev pub IsReported : Site → Text → List Text → DrawAvailableOutcome → World → Type 0
IsReported site key old outcome w = Said site outcome.remaining_before × IsSpent key old outcome w

abbrev Answers : Site → Reply Dashboard → Type 0
Answers site (reply dashboard) = Shows site dashboard
Answers site (fault why) = Unit

answered :
    (site : Site) (n : ℕ) (token : Text) (r : Reply Dashboard)
    → site.dashboard n token ≡ r
    → Answers site r
answered site n token (reply dashboard) h = (n, token, h)
answered site n token (fault why) h = tt

ask_dashboard-Answers :
    (site : Site) (sess : Session) (w : World) → Answers site (ask_dashboard site sess w).0
unfolding ask_dashboard ask
ask_dashboard-Answers site sess w =
    answered site w.asked sess.token (site.dashboard w.asked sess.token) refl

fetch_after-Answers :
    (site : Site) (sess : Session) (r : Step (Unit {0}))
    → Answers site (fetch_after site sess r).0.answer
unfolding fetch_after left_with
fetch_after-Answers site sess (fault why, w) = tt
fetch_after-Answers site sess (reply x, w) = ask_dashboard-Answers site sess w

fetch_renewed-Answers :
    (site : Site) (sess : Session) (r : Step Session)
    → Answers site (fetch_renewed site sess r).0.answer
unfolding fetch_renewed left_with
fetch_renewed-Answers site sess (fault why, w) = tt
fetch_renewed-Answers site sess (reply renewed, w) =
    fetch_after-Answers site renewed (client_for site renewed w)

choose-Answers :
    (site : Site) (b : Bool) (r s : Recovered Dashboard × World)
    → Answers site r.0.answer
    → Answers site s.0.answer
    → Answers site (if b then r else s).0.answer
choose-Answers site true r s h k = h
choose-Answers site false r s h k = k

retry_dashboard-Answers :
    (site : Site) (account_id : Text) (sess : Session) (why : Fault) (w : World)
    → Answers site (retry_dashboard site account_id sess why w).0.answer
unfolding retry_dashboard left_with
retry_dashboard-Answers site account_id sess why w =
    choose-Answers site (is_status why 401 || is_status why 403) _ _
      (fetch_renewed-Answers site sess (renew_lottery site account_id sess.token w))
      (choose-Answers site (not (is_transient why)) _ _ tt
        (fetch_after-Answers site sess (ask site.wait w)))

recover_dashboard-Answers :
    (site : Site) (account_id : Text) (sess : Session) (r : Step Dashboard)
    → Answers site r.0
    → Answers site (recover_dashboard site account_id sess r).0.answer
unfolding recover_dashboard left_with
recover_dashboard-Answers site account_id sess (reply dashboard, w) h = h
recover_dashboard-Answers site account_id sess (fault why, w) h =
    retry_dashboard-Answers site account_id sess why w

map_reply-Shows :
    (site : Site) (sess : Session) (r : Reply Dashboard) (d : Dashboard × Session)
    → Answers site r
    → map_reply (λ a. (a, sess)) r ≡ reply d
    → Shows site d.0
unfolding map_reply
map_reply-Shows site sess (reply dashboard) d h q =
    let same : dashboard ≡ d.0 = ground arith in subst (λ a. Shows site a) same h
map_reply-Shows site sess (fault why) d h q = absurd (ground arith)

-- A dashboard that is got after all recovery is one that the website has shown.
dashboard-Shows :
    (site : Site) (account_id : Text) (sess : Session) (w : World) (d : Dashboard × Session)
    → (as_step (dashboard_with_recovery site account_id sess w)).0 ≡ reply d
    → Shows site d.0
unfolding as_step dashboard_with_recovery
dashboard-Shows site account_id sess w d q =
    let r = dashboard_with_recovery site account_id sess w in
    map_reply-Shows site r.0.session r.0.answer d
      (recover_dashboard-Answers site account_id sess (ask_dashboard site sess w)
        (ask_dashboard-Answers site sess w))
      q

module _ (site : Site) (key : Text) (old : List Text) where
  abbrev Once : World → Type 0
  Once w = w.draws ≡ key ∷ old

  abbrev None : World → Type 0
  None w = w.draws ≡ old

  post-Spent :
      (sess : Session) (w : World)
      → Once w
      → Gives (MaySpend key old) (λ r. Spent key old) (post_draw site sess key w)
  unfolding post_draw ask
  post-Spent sess w h =
      let again : key ∷ w.draws ≡ key ∷ key ∷ old = ap (λ l. key ∷ l) h in
      gives (MaySpend key old) (λ r. Spent key old) (post_draw site sess key w) (inr (inr again))
        (λ r q. inr again)

  draw_again-Gives :
      (account_id : Text) (sess : Session) (why : Fault) (w : World)
      → Once w
      → Gives (MaySpend key old) (λ r. Spent key old) (draw_again site account_id sess key why w)
  unfolding draw_again after
  draw_again-Gives account_id sess why w h =
      let P = MaySpend key old in
      let Q = λ (r : DrawResult). Spent key old in
      let stop = λ (cause : Fault) (v : World) (o : Once v). inr (inl o) in
      choose-Gives P Q (is_status why 401 || is_status why 403)
        (after (renew_lottery site account_id sess.token w)
          λ renewed w. after (client_for site renewed w) λ _ w. post_draw site renewed key w)
        (if is_transient why
          then (after (ask site.wait w) λ _ w. post_draw site sess key w)
          else (fault why, w))
        (handle-Gives Once P (λ s. Once) Q _ _ _
          (keeps Once _ ((renew_lottery-IsCalm site account_id sess.token w).draws ∙ h)) stop
          λ renewed v o.
            handle-Gives Once P (λ x. Once) Q _ _ _
              (keeps Once _ ((client_for-IsCalm site renewed v).draws ∙ o)) stop
              (λ x u o. post-Spent renewed u o))
        (choose-Gives P Q (is_transient why)
          (after (ask site.wait w) λ _ w. post_draw site sess key w) (fault why, w)
          (handle-Gives Once P (λ x. Once) Q _ _ _
            (keeps Once _ ((ask-IsCalm site.wait w).draws ∙ h)) stop (λ x v o. post-Spent sess v o))
          (inr (inl h)))

  draw-Gives :
      (account_id : Text) (sess : Session) (w : World)
      → None w
      → Gives
          (MaySpend key old)
          (λ r. Spent key old)
          (draw_with_recovery site account_id sess key w)
  unfolding draw_with_recovery post_draw ask
  draw-Gives account_id sess w h =
      handle-Gives Once (MaySpend key old) (λ r. Once) (λ r. Spent key old) _ _ _
        (keeps Once (post_draw site sess key w) (ap (λ l. key ∷ l) h))
        (λ why v o. draw_again-Gives account_id sess why v o) (λ r v o. inl o)

  remaining-Gives :
      (account_id : Text) (sess : Session) (remaining : Option ℤ) (w : World)
      → None w
      → ((n : ℤ) → remaining ≡ some n → Said site n)
      → Gives
          (MaySpend key old)
          (IsReported site key old)
          (draw_remaining site account_id sess key remaining w)
  unfolding draw_remaining
  remaining-Gives account_id sess none w h said = inl h
  remaining-Gives account_id sess (some remaining) w h said =
      let P = MaySpend key old in
      elim (Bool-cases (ltb_ℤ (pos 0) remaining)) [
        | inr q ↦ rw (q, draw_remaining) (said remaining refl, inl (refl, q, h))
        | inl q ↦
            rw (q, draw_remaining)
              (after-Gives P (λ r. Spent key old) (IsReported site key old) _ _
                (draw-Gives account_id sess w h)
                λ result v s.
                  let calm = delta-IsCalm site account_id result v in
                  let moved : Spent key old
                      (quota_delta_money_for_draw site account_id result v).1 =
                    elim s [ inl o ↦ inl (calm.draws ∙ o) | inr o ↦ inr (calm.draws ∙ o) ] in
                  after-Gives P (λ d. Spent key old) (IsReported site key old) _ _
                    (gives P (λ d. Spent key old) _ (inr moved) (λ d x. moved))
                    (λ d u t. (said remaining refl, inr (refl, q, t))))
      ]

-- DrawAvailable posts at most two draws, all under the idempotency key that it is given, also if it
-- fails. An outcome that it returns says how many draws remained, as a dashboard of the website has
-- said: it is skipped if that is none, and then nothing is posted; else one draw is, or two.
pub draw_available-IsReported :
    (site : Site) (account_id key : Text) (w : World)
    → Gives
        (MaySpend key w.draws)
        (IsReported site key w.draws)
        (draw_available site account_id key w)
unfolding draw_available after
draw_available-IsReported site account_id key w =
    let P = MaySpend key w.draws in
    let Q = IsReported site key w.draws in
    let Here = λ (v : World). v.draws ≡ w.draws in
    let stop = λ (why : Fault) (v : World) (h : Here v). inl h in
    elim (Bool-cases (is_empty (trim_space key))) [
      | inl q ↦ rw (q, draw_available, after) (inl refl)
      | inr q ↦
          rw (q, draw_available, after)
            (handle-Gives Here P (λ r. Here) Q _ _ _ (keeps Here _ refl) stop
              λ r v h.
                handle-Gives Here P (λ s. Here) Q _ _ _
                  (keeps Here _ ((acquire-IsCalm site account_id v).draws ∙ h)) stop
                  λ sess u h.
                    handle-Gives Here P (λ x. Here) Q _ _ _
                      (keeps Here _ ((client_for-IsCalm site sess u).draws ∙ h)) stop
                      λ x t h.
                        let same = (dashboard_step-IsCalm site account_id sess t).draws ∙ h in
                        handle-Gives Here P (λ d v. Here v × Shows site d.0) Q _ _ _
                          (gives Here (λ d v. Here v × Shows site d.0) _ same
                            (λ d q. (same, dashboard-Shows site account_id sess t d q)))
                          stop
                          (λ d s h.
                            remaining-Gives site key w.draws account_id d.1 _ s h.0
                              (λ n q. (d.0, h.1, q))))
    ]
