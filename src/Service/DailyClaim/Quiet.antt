-- ===== src/Service/DailyClaim/Quiet.antt =====
-- Steps of a call that post no claim.
use lottery.Prelude.{
  ℕ, sym, subst, ◌≡◌, refl, ◌∙◌, inl, inr, Option, none, some, arith, Option-cases, Bool-cases,
  ◌||◌,
}
use lottery.Prelude.Text.{Text}
use lottery.Prelude.Int.{ℤ}
use lottery.Prelude.Result.{Result, ok, err}
use lottery.State.Types.{Action, Store}
use lottery.State.Persist.{Env, encode, commit, on_ok}
use lottery.State.Persist.RoundTrip.{Transacts}
use lottery.State.Accounts.{set_auth_health}
use lottery.State.Accounts.Atomic.{set_auth_health-Transacts}
use lottery.Website.{Fault, Dashboard, ClaimResult, is_status, is_transient, remaining_draws}
use lottery.Service.{
  left_with, as_step, fetch_after, fetch_renewed, recover_dashboard, retry_dashboard, Session,
  Reply, reply, fault, Site, World, Step, handle, after, on_store, ask, noted_health, acquire,
  renew_lottery, renew_parent, client_for, ask_dashboard, dashboard_with_recovery, finish_action,
}
use lottery.Service.DailyClaim.{
  DailyClaimOutcome, acquire_lottery_for_action, finish_with, record_preflight_error, has_grown,
  reconcile_daily_claim, reconcile_after_post_error, dashboard_after, finish_claim,
}

-- The second world has the claims of the first.
abbrev pub IsQuiet : World → World → Type 0
IsQuiet v w = w.posts ≡ v.posts

-- Nor has it other orders, check-ins, draws or actions, and if memory was on file it still is.
pub record IsCalm (v w : World) : Type 0 where
  pub posts : w.posts ≡ v.posts
  pub orders : w.orders ≡ v.orders
  pub checkins : w.checkins ≡ v.checkins
  pub draws : w.draws ≡ v.draws
  pub actions : w.store.content.actions ≡ v.store.content.actions
  pub on_file : v.store.file ≡ encode v.store.content → w.store.file ≡ encode w.store.content

pub IsCalm-trans : (u v w : World) → IsCalm u v → IsCalm v w → IsCalm u w
IsCalm-trans u v w h k = record {
  posts = k.posts ∙ h.posts;
  orders = k.orders ∙ h.orders;
  checkins = k.checkins ∙ h.checkins;
  draws = k.draws ∙ h.draws;
  actions = k.actions ∙ h.actions;
  on_file = λ f. k.on_file (h.on_file f);
}

pub handle-IsQuiet :
    {A B : Type 0} (u : World) (r : Step A) (failed : Fault → World → Step B)
    (next : A → World → Step B)
    → IsQuiet u r.1
    → ((why : Fault) (v : World) → IsQuiet v (failed why v).1)
    → ((a : A) (v : World) → IsQuiet v (next a v).1)
    → IsQuiet u (handle r failed next).1
unfolding handle
handle-IsQuiet u (reply a, w) failed next h f n = n a w ∙ h
handle-IsQuiet u (fault why, w) failed next h f n = f why w ∙ h

pub after-IsQuiet :
    {A B : Type 0} (u : World) (r : Step A) (next : A → World → Step B)
    → IsQuiet u r.1
    → ((a : A) (v : World) → IsQuiet v (next a v).1)
    → IsQuiet u (after r next).1
unfolding after
after-IsQuiet u r next h n = handle-IsQuiet u r _ next h (λ why v. refl) n

pub handle-IsCalm :
    {A B : Type 0} (u : World) (r : Step A) (failed : Fault → World → Step B)
    (next : A → World → Step B)
    → IsCalm u r.1
    → ((why : Fault) (v : World) → IsCalm v (failed why v).1)
    → ((a : A) (v : World) → IsCalm v (next a v).1)
    → IsCalm u (handle r failed next).1
unfolding handle
handle-IsCalm u (reply a, w) failed next h f n = IsCalm-trans u w (next a w).1 h (n a w)
handle-IsCalm u (fault why, w) failed next h f n = IsCalm-trans u w (failed why w).1 h (f why w)

pub after-IsCalm :
    {A B : Type 0} (u : World) (r : Step A) (next : A → World → Step B)
    → IsCalm u r.1
    → ((a : A) (v : World) → IsCalm v (next a v).1)
    → IsCalm u (after r next).1
unfolding after handle
after-IsCalm u (reply a, w) next h n = IsCalm-trans u w (next a w).1 h (n a w)
after-IsCalm u (fault why, w) next h n = h

pub IsCalm-refl : (w : World) → IsCalm w w
IsCalm-refl w = record {
  posts = refl;
  orders = refl;
  checkins = refl;
  draws = refl;
  actions = refl;
  on_file = λ h. h;
}

set_auth_health-actions :
    (e : Env) (id health : Text) (s : Store)
    → (set_auth_health e id health s).1.content.actions ≡ s.content.actions
unfolding set_auth_health on_ok commit
set_auth_health-actions e id health s = ground arith

-- A transaction leaves memory on file.
pub Transacts-on_file {ℓ} :
    {A : Type ℓ} (s : Store) (r : Result A × Store)
    → Transacts s r
    → s.file ≡ encode s.content
    → r.1.file ≡ encode r.1.content
Transacts-on_file s (err why, t) same h = subst (λ x. x.file ≡ encode x.content) (sym same) h
Transacts-on_file s (ok a, t) (inl same) h = subst (λ x. x.file ≡ encode x.content) (sym same) h
Transacts-on_file s (ok a, t) (inr written) h = written

set_auth_health-on_file :
    (e : Env) (id health : Text) (s : Store)
    → s.file ≡ encode s.content
    → (set_auth_health e id health s).1.file ≡ encode (set_auth_health e id health s).1.content
set_auth_health-on_file e id health s h =
    Transacts-on_file s _ (set_auth_health-Transacts e id health s) h

pub ask-IsCalm : {A : Type 0} (question : ℕ → Reply A) (w : World) → IsCalm w (ask question w).1
unfolding ask
ask-IsCalm question w = record {
  posts = refl;
  orders = refl;
  checkins = refl;
  draws = refl;
  actions = refl;
  on_file = λ h. h;
}

noted_health-IsCalm :
    (site : Site) (account_id : Text) (w : World) → IsCalm w (noted_health site account_id w)
unfolding noted_health
noted_health-IsCalm site account_id w = elim (Option-cases (site.health w.asked)) [
  | inl q ↦ rw (q, noted_health) (IsCalm-refl w)
  | inr (health, q) ↦
      rw (q, noted_health)
        (record {
          posts = refl;
          orders = refl;
          checkins = refl;
          draws = refl;
          actions = set_auth_health-actions (site.env w.asked) account_id health w.store;
          on_file = set_auth_health-on_file (site.env w.asked) account_id health w.store;
        })
]

pub acquire-IsCalm :
    (site : Site) (account_id : Text) (w : World) → IsCalm w (acquire site account_id w).1
unfolding acquire
acquire-IsCalm site account_id w =
    IsCalm-trans w (noted_health site account_id w) _ (noted_health-IsCalm site account_id w)
      (ask-IsCalm _ (noted_health site account_id w))

pub renew_parent-IsCalm :
    (site : Site) (account_id token : Text) (w : World)
    → IsCalm w (renew_parent site account_id token w).1
unfolding renew_parent
renew_parent-IsCalm site account_id token w =
    IsCalm-trans w (noted_health site account_id w) _ (noted_health-IsCalm site account_id w)
      (ask-IsCalm _ (noted_health site account_id w))

pub renew_lottery-IsCalm :
    (site : Site) (account_id token : Text) (w : World)
    → IsCalm w (renew_lottery site account_id token w).1
unfolding renew_lottery
renew_lottery-IsCalm site account_id token w =
    IsCalm-trans w (noted_health site account_id w) _ (noted_health-IsCalm site account_id w)
      (ask-IsCalm _ (noted_health site account_id w))

pub client_for-IsCalm :
    (site : Site) (sess : Session) (w : World) → IsCalm w (client_for site sess w).1
unfolding client_for
client_for-IsCalm site sess w = ask-IsCalm _ w

pub acquire_lottery_for_action-IsCalm :
    (site : Site) (account_id : Text) (w : World)
    → IsCalm w (acquire_lottery_for_action site account_id w).1
unfolding acquire_lottery_for_action
acquire_lottery_for_action-IsCalm site account_id w =
    after-IsCalm w _ _ (acquire-IsCalm site account_id w)
      λ sess v. after-IsCalm v _ _ (client_for-IsCalm site sess v) (λ _ u. IsCalm-refl u)

fetch_after-IsCalm :
    (site : Site) (sess : Session) (u : World) (r : Step (Unit {0}))
    → IsCalm u r.1
    → IsCalm u (fetch_after site sess r).1
unfolding fetch_after left_with ask_dashboard
fetch_after-IsCalm site sess u (fault why, w) h = h
fetch_after-IsCalm site sess u (reply x, w) h = IsCalm-trans u w _ h (ask-IsCalm _ w)

fetch_renewed-IsCalm :
    (site : Site) (sess : Session) (u : World) (r : Step Session)
    → IsCalm u r.1
    → IsCalm u (fetch_renewed site sess r).1
unfolding fetch_renewed left_with
fetch_renewed-IsCalm site sess u (fault why, w) h = h
fetch_renewed-IsCalm site sess u (reply renewed, w) h =
    fetch_after-IsCalm site renewed u _ (IsCalm-trans u w _ h (client_for-IsCalm site renewed w))

retry_dashboard-IsCalm :
    (site : Site) (account_id : Text) (sess : Session) (why : Fault) (w : World)
    → IsCalm w (retry_dashboard site account_id sess why w).1
unfolding retry_dashboard left_with
retry_dashboard-IsCalm site account_id sess why w =
    elim (Bool-cases (is_status why 401 || is_status why 403)) [
      | inl q ↦
          rw (q, retry_dashboard)
            (fetch_renewed-IsCalm site sess w _ (renew_lottery-IsCalm site account_id sess.token w))
      | inr q ↦ elim (Bool-cases (is_transient why)) [
        | inr t ↦ rw (q, t, retry_dashboard) (IsCalm-refl w)
        | inl t ↦
            rw (q, t, retry_dashboard) (fetch_after-IsCalm site sess w _ (ask-IsCalm site.wait w))
      ]
    ]

recover_dashboard-IsCalm :
    (site : Site) (account_id : Text) (sess : Session) (u : World) (r : Step Dashboard)
    → IsCalm u r.1
    → IsCalm u (recover_dashboard site account_id sess r).1
unfolding recover_dashboard left_with
recover_dashboard-IsCalm site account_id sess u (reply d, w) h = h
recover_dashboard-IsCalm site account_id sess u (fault why, w) h =
    IsCalm-trans u w _ h (retry_dashboard-IsCalm site account_id sess why w)

pub dashboard_with_recovery-IsCalm :
    (site : Site) (account_id : Text) (sess : Session) (w : World)
    → IsCalm w (dashboard_with_recovery site account_id sess w).1
unfolding dashboard_with_recovery ask_dashboard
dashboard_with_recovery-IsCalm site account_id sess w =
    recover_dashboard-IsCalm site account_id sess w _ (ask-IsCalm _ w)

pub dashboard_step-IsCalm :
    (site : Site) (account_id : Text) (sess : Session) (w : World)
    → IsCalm w (as_step (dashboard_with_recovery site account_id sess w)).1
unfolding as_step
dashboard_step-IsCalm site account_id sess w = dashboard_with_recovery-IsCalm site account_id sess w

pub finish_with-IsQuiet :
    (site : Site) (action : Action) (change : Action → Action)
    (outcome : Action → DailyClaimOutcome) (w : World)
    → IsQuiet w (finish_with site action change outcome w).1
unfolding finish_with finish_action on_store
finish_with-IsQuiet site action change outcome w = after-IsQuiet w _ _ refl (λ a v. refl)

pub record_preflight_error-IsQuiet :
    (site : Site) (action : Action) (cause : Fault) (w : World)
    → IsQuiet w (record_preflight_error site action cause w).1
unfolding record_preflight_error
record_preflight_error-IsQuiet site action cause w = finish_with-IsQuiet site action _ _ w

-- Reconciling an action whose claim may have been posted posts nothing.
pub reconcile_daily_claim-IsQuiet :
    (site : Site) (account_id : Text) (action : Action) (w : World)
    → IsQuiet w (reconcile_daily_claim site account_id action w).1
unfolding reconcile_daily_claim
reconcile_daily_claim-IsQuiet site account_id action w =
    after-IsQuiet w _ _ (acquire_lottery_for_action-IsCalm site account_id w).posts λ sess v.
      after-IsQuiet v _ _ (dashboard_step-IsCalm site account_id sess v).posts λ d u.
        elim (Bool-cases (has_grown action.claim_before_remaining (remaining_draws d.0))) [
          | inl q ↦ rw q (finish_with-IsQuiet site action _ _ u)
          | inr q ↦ rw q (finish_with-IsQuiet site action _ _ u)
        ]

pub reconcile_after_post_error-IsQuiet :
    (site : Site) (account_id : Text) (sess : Session) (action : Action) (before : ℤ)
    (cause : Fault) (w : World)
    → IsQuiet w (reconcile_after_post_error site account_id sess action before cause w).1
unfolding reconcile_after_post_error
reconcile_after_post_error-IsQuiet site account_id sess action before cause w =
    handle-IsQuiet w _ _ _ (dashboard_step-IsCalm site account_id sess w).posts
      (λ why v. finish_with-IsQuiet site action _ _ v)
      λ d v. elim (Bool-cases (has_grown (some before) (remaining_draws d.0))) [
        | inl q ↦ rw q (finish_with-IsQuiet site action _ _ v)
        | inr q ↦ rw q (finish_with-IsQuiet site action _ _ v)
      ]

dashboard_after-IsQuiet :
    (site : Site) (account_id : Text) (sess : Session) (given : Option Dashboard) (w : World)
    → IsQuiet w (dashboard_after site account_id sess given w).1
unfolding dashboard_after left_with
dashboard_after-IsQuiet site account_id sess (some d) w = refl
dashboard_after-IsQuiet site account_id sess none w =
    (dashboard_with_recovery-IsCalm site account_id sess w).posts

pub finish_claim-IsQuiet :
    (site : Site) (account_id : Text) (sess : Session) (action : Action) (before : ℤ)
    (result : ClaimResult) (w : World)
    → IsQuiet w (finish_claim site account_id sess action before result w).1
unfolding finish_claim
finish_claim-IsQuiet site account_id sess action before result w =
    elim (Bool-cases result.success) [
      | inr q ↦ rw (q, finish_claim) (finish_with-IsQuiet site action _ _ w)
      | inl q ↦
          rw (q, finish_claim)
            (handle-IsQuiet w _ _ _
              (dashboard_after-IsQuiet site account_id sess result.dashboard w)
              (λ cause v.
                reconcile_after_post_error-IsQuiet site account_id _ action before cause v)
              λ d v. elim (Option-cases (remaining_draws d)) [
                | inl t ↦
                    rw t (reconcile_after_post_error-IsQuiet site account_id _ action before _ v)
                | inr (now, t) ↦ rw t (finish_with-IsQuiet site action _ _ v)
              ])
    ]
