-- ===== src/Service/DailyClaim/Few.antt =====
-- How often one call of ClaimDaily posts a claim.
use lottery.Prelude.{
  ℕ, ◌+◌, ◌≤◌, ◌≡◌, refl, sym, ◌∙◌, subst, inl, inr, List, arith, Option-cases, Bool-cases, length,
}
use lottery.Prelude.Text.{Text}
use lottery.Prelude.Int.{ℤ}
use lottery.State.Types.{Action, Store, action_daily_claim}
use lottery.State.Actions.{get_or_create_action, reset_retryable_action}
use lottery.Website.{Fault, ClaimResult, is_status, remaining_draws}
use lottery.Service.{
  Session, reply, fault, Site, World, Step, left_with, as_step, after, on_store, ask, post_claim,
  renew_lottery, client_for, claim_again, claim_renewed, recover_claim, claim_with_recovery,
  finish_action, start_action, dashboard_with_recovery,
}
use lottery.Service.DailyClaim.{
  acquire_lottery_for_action, record_preflight_error, prepared, claim_started, attempt_claim,
  resume_claim, claim_daily,
}
use lottery.Service.DailyClaim.Quiet.{
  acquire_lottery_for_action-IsCalm, dashboard_step-IsCalm, record_preflight_error-IsQuiet,
  reconcile_daily_claim-IsQuiet, reconcile_after_post_error-IsQuiet, finish_claim-IsQuiet,
  renew_lottery-IsCalm, client_for-IsCalm,
}
use lottery.Service.DailyClaim.Marked.{handle-keeps}

-- At most `n` claims were posted.
abbrev PostsAtMost : ℕ → World → Type 0
PostsAtMost n w = length w.posts ≤ n

abbrev HasPosts : List Store → World → Type 0
HasPosts posts w = w.posts ≡ posts

quiet-PostsAtMost :
    (n : ℕ) {before now : List Store} → now ≡ before → length before ≤ n → length now ≤ n
quiet-PostsAtMost n q h = subst (λ l. length l ≤ n) (sym q) h

claim_again-PostsAtMost :
    (site : Site) (n : ℕ) (sess : Session) (r : Step (Unit {0}))
    → PostsAtMost n r.1
    → PostsAtMost (n + 1) (claim_again site sess r).1
unfolding claim_again left_with post_claim ask
claim_again-PostsAtMost site n sess (fault why, w) h = omega (arith, h)
claim_again-PostsAtMost site n sess (reply x, w) h = omega (arith, h)

claim_renewed-PostsAtMost :
    (site : Site) (n : ℕ) (sess : Session) (r : Step Session)
    → PostsAtMost n r.1
    → PostsAtMost (n + 1) (claim_renewed site sess r).1
unfolding claim_renewed left_with
claim_renewed-PostsAtMost site n sess (fault why, w) h = omega (arith, h)
claim_renewed-PostsAtMost site n sess (reply renewed, w) h =
    claim_again-PostsAtMost site n renewed (client_for site renewed w)
      (quiet-PostsAtMost n (client_for-IsCalm site renewed w).posts h)

recover_claim-PostsAtMost :
    (site : Site) (n : ℕ) (account_id : Text) (sess : Session) (r : Step ClaimResult)
    → PostsAtMost n r.1
    → PostsAtMost (n + 1) (recover_claim site account_id sess r).1
unfolding recover_claim left_with
recover_claim-PostsAtMost site n account_id sess (reply result, w) h = omega (arith, h)
recover_claim-PostsAtMost site n account_id sess (fault why, w) h =
    elim (Bool-cases (is_status why 401)) [
      | inr q ↦ rw (q, recover_claim) (omega (arith, h))
      | inl q ↦
          rw (q, recover_claim)
            (claim_renewed-PostsAtMost site n sess (renew_lottery site account_id sess.token w)
              (quiet-PostsAtMost n (renew_lottery-IsCalm site account_id sess.token w).posts h))
    ]

claim_started-PostsAtMost :
    (site : Site) (account_id : Text) (sess : Session) (action : Action) (before : ℤ) (w : World)
    → PostsAtMost (length w.posts + 2) (claim_started site account_id sess action before w).1
unfolding claim_started claim_with_recovery post_claim ask
claim_started-PostsAtMost site account_id sess action before w =
    let n = length w.posts + 2 in
    let posted : PostsAtMost n (recover_claim site account_id sess (post_claim site sess w)).1 =
      omega (
        arith,
        recover_claim-PostsAtMost site (length w.posts + 1) account_id sess (post_claim site sess w)
            (omega arith),
      ) in
    handle-keeps (PostsAtMost n) (PostsAtMost n) _ _ _ posted
      (λ cause v g.
        quiet-PostsAtMost n
          (reconcile_after_post_error-IsQuiet site account_id _ action before cause v) g)
      (λ result q.
        quiet-PostsAtMost n (finish_claim-IsQuiet site account_id _ action before result _) posted)

within : (posts : List Store) (w : World) → HasPosts posts w → PostsAtMost (length posts + 2) w
within posts w h = quiet-PostsAtMost (length posts + 2) h (omega arith)

started-within :
    (site : Site) (posts : List Store) (account_id : Text) (sess : Session) (action : Action)
    (before : ℤ) (w : World)
    → HasPosts posts w
    → PostsAtMost (length posts + 2) (claim_started site account_id sess action before w).1
started-within site posts account_id sess action before w h =
    subst (λ l. PostsAtMost (length l + 2) (claim_started site account_id sess action before w).1) h
      (claim_started-PostsAtMost site account_id sess action before w)

refused-within :
    (site : Site) (posts : List Store) (action : Action) (why : Fault) (u : World)
    → HasPosts posts u
    → PostsAtMost (length posts + 2) (record_preflight_error site action why u).1
refused-within site posts action why u h =
    quiet-PostsAtMost (length posts + 2) (record_preflight_error-IsQuiet site action why u ∙ h)
      (omega arith)

prepared-within :
    (site : Site) (posts : List Store) (account_id : Text) (sess : Session) (action : Action)
    (before : ℤ) (w : World)
    → HasPosts posts w
    → PostsAtMost
        (length posts + 2)
        (after (finish_action site action (prepared before) w) λ action w.
          after
            (start_action site action w)
            λ action w. claim_started site account_id sess action before w).1
unfolding after finish_action start_action on_store
prepared-within site posts account_id sess action before w h =
    let v = (finish_action site action (prepared before) w).1 in
    handle-keeps (HasPosts posts) (PostsAtMost (length posts + 2)) _ _ _ h
      (λ why u g. within posts u g)
      λ a q.
        handle-keeps (HasPosts posts) (PostsAtMost (length posts + 2)) _ _ _ h
          (λ why u g. within posts u g)
          λ b r. started-within site posts account_id sess b before (start_action site a v).1 h

attempt_claim-within :
    (site : Site) (posts : List Store) (account_id : Text) (action : Action) (w : World)
    → HasPosts posts w
    → PostsAtMost (length posts + 2) (attempt_claim site account_id action w).1
unfolding attempt_claim
attempt_claim-within site posts account_id action w h =
    let v = (acquire_lottery_for_action site account_id w).1 in
    let at_v = (acquire_lottery_for_action-IsCalm site account_id w).posts ∙ h in
    let refused = refused-within site posts action in
    handle-keeps (HasPosts posts) (PostsAtMost (length posts + 2)) _ _ _ at_v refused λ sess q.
      let u = (as_step (dashboard_with_recovery site account_id sess v)).1 in
      let at_u = (dashboard_step-IsCalm site account_id sess v).posts ∙ at_v in
      handle-keeps (HasPosts posts) (PostsAtMost (length posts + 2)) _ _ _ at_u refused λ d r.
        elim (Option-cases (remaining_draws d.0)) [
          | inl t ↦ rw t (refused _ u at_u)
          | inr (before, t) ↦ rw t (prepared-within site posts account_id d.1 action before u at_u)
        ]

reset-within :
    (site : Site) (posts : List Store) (account_id : Text) (action : Action) (w : World)
    → HasPosts posts w
    → PostsAtMost
        (length posts + 2)
        (after
          (on_store (λ e. reset_retryable_action e action.key) site w)
          λ action w. attempt_claim site account_id action w).1
unfolding after on_store
reset-within site posts account_id action w h =
    handle-keeps (HasPosts posts) (PostsAtMost (length posts + 2)) _ _ _ h
      (λ why u g. within posts u g) λ a q. attempt_claim-within site posts account_id a _ h

resume_claim-within :
    (site : Site) (posts : List Store) (account_id : Text) (action : Action) (w : World)
    → HasPosts posts w
    → PostsAtMost (length posts + 2) (resume_claim site account_id action w).1
unfolding resume_claim
resume_claim-within site posts account_id action w h = ground (
  arith,
  within posts w h,
  reset-within site posts account_id action w h,
  attempt_claim-within site posts account_id action w h,
  quiet-PostsAtMost (length posts + 2) (reconcile_daily_claim-IsQuiet site account_id action w ∙ h)
      (omega arith),
)

-- One call posts at most two claims, whatever the site answers.
pub claim_daily-PostsAtMost :
    (site : Site) (account_id : Text) (w : World)
    → length (claim_daily site account_id w).1.posts ≤ length w.posts + 2
unfolding claim_daily after on_store
claim_daily-PostsAtMost site account_id w =
    handle-keeps (HasPosts w.posts) (PostsAtMost (length w.posts + 2)) _ _ _ refl
      (λ why u g. within w.posts u g)
      λ r q.
        handle-keeps (HasPosts w.posts) (PostsAtMost (length w.posts + 2)) _ _ _ refl
          (λ why u g. within w.posts u g)
          λ p t.
            let v =
              (on_store
                (λ e. get_or_create_action e account_id (site.today w.asked) action_daily_claim)
                site w).1 in
            elim (Bool-cases p.1) [
              | inl c ↦ rw c (attempt_claim-within site w.posts account_id p.0 v refl)
              | inr c ↦ rw c (resume_claim-within site w.posts account_id p.0 v refl)
            ]
