-- ===== src/Service/Checkin/Calm.antt =====
-- What a step gives, and the steps of a check-in that post nothing.
use lottery.Prelude.{◌≡◌, refl, inl, inr, Bool, true, false, Bool-cases, if◌then◌else◌, not}
use lottery.Prelude.Text.{Text}
use lottery.Website.{Fault, CheckinEligibility}
use lottery.Service.{
  Session, reply, fault, Site, World, Step, left_with, handle, after, renew_parent, client_for,
}
use lottery.Service.DailyClaim.Quiet.{
  IsCalm, IsCalm-refl, IsCalm-trans, handle-IsCalm, after-IsCalm, ask-IsCalm, acquire-IsCalm,
  renew_parent-IsCalm, client_for-IsCalm,
}
use lottery.Service.Checkin.{
  is_auth_error, acquire_parent_for_action, ask_eligibility, eligibility_again, eligibility_renewed,
  recover_eligibility, eligibility_with_recovery, ask_status, fetch_checkin_display_status,
}

-- What holds after a step: of the world if the step fails, else of its reply and the world.
abbrev pub Gives : {A : Type 0} → (World → Type 0) → (A → World → Type 0) → Step A → Type 0
Gives P Q (reply a, w) = Q a w
Gives P Q (fault why, w) = P w

pub handle-Gives :
    {A B : Type 0} (P R : World → Type 0) (Q : A → World → Type 0) (S : B → World → Type 0)
    (r : Step A) (failed : Fault → World → Step B) (next : A → World → Step B)
    → Gives P Q r
    → ((why : Fault) (v : World) → P v → Gives R S (failed why v))
    → ((a : A) (v : World) → Q a v → Gives R S (next a v))
    → Gives R S (handle r failed next)
unfolding handle
handle-Gives P R Q S (reply a, w) failed next h f n = n a w h
handle-Gives P R Q S (fault why, w) failed next h f n = f why w h

pub after-Gives :
    {A B : Type 0} (R : World → Type 0) (Q : A → World → Type 0) (S : B → World → Type 0)
    (r : Step A) (next : A → World → Step B)
    → Gives R Q r
    → ((a : A) (v : World) → Q a v → Gives R S (next a v))
    → Gives R S (after r next)
unfolding after
after-Gives R Q S r next h n = handle-Gives R R Q S r _ next h (λ why v k. k) n

pub gives :
    {A : Type 0} (P : World → Type 0) (Q : A → World → Type 0) (r : Step A)
    → P r.1
    → ((a : A) → r.0 ≡ reply a → Q a r.1)
    → Gives P Q r
gives P Q (reply a, w) p q = q a refl
gives P Q (fault why, w) p q = p

pub keeps : {A : Type 0} (P : World → Type 0) (r : Step A) → P r.1 → Gives P (λ a. P) r
keeps P r p = gives P (λ a. P) r p (λ a q. p)

pub at_end : {A : Type 0} (P : World → Type 0) (r : Step A) → Gives P (λ a. P) r → P r.1
at_end P (reply a, w) h = h
at_end P (fault why, w) h = h

pub choose-Gives :
    {A : Type 0} (P : World → Type 0) (Q : A → World → Type 0) (b : Bool) (r s : Step A)
    → Gives P Q r
    → Gives P Q s
    → Gives P Q (if b then r else s)
choose-Gives P Q true r s h k = h
choose-Gives P Q false r s h k = k

pub choose-IsCalm :
    {A : Type 0} (w : World) (b : Bool) (r s : Step A)
    → IsCalm w r.1
    → IsCalm w s.1
    → IsCalm w (if b then r else s).1
choose-IsCalm w true r s h k = h
choose-IsCalm w false r s h k = k

pub acquire_parent-IsCalm :
    (site : Site) (account_id : Text) (w : World)
    → IsCalm w (acquire_parent_for_action site account_id w).1
unfolding acquire_parent_for_action
acquire_parent-IsCalm site account_id w =
    after-IsCalm w _ _ (acquire-IsCalm site account_id w)
      λ sess v. after-IsCalm v _ _ (client_for-IsCalm site sess v) (λ x u. IsCalm-refl u)

pub fetch-IsCalm :
    (site : Site) (sess : Session) (w : World)
    → IsCalm w (fetch_checkin_display_status site sess w).1
unfolding fetch_checkin_display_status ask_status
fetch-IsCalm site sess w = after-IsCalm w _ _ (ask-IsCalm _ w) λ status v.
    handle-IsCalm v _ _ _ (ask-IsCalm _ v)
      (λ why u. choose-IsCalm u (not (is_auth_error why)) _ _ (IsCalm-refl u) (IsCalm-refl u))
      (λ settings u. IsCalm-refl u)

eligibility_again-IsCalm :
    (site : Site) (sess : Session) (r : Step (Unit {0}))
    → IsCalm r.1 (eligibility_again site sess r).1
unfolding eligibility_again left_with ask_eligibility
eligibility_again-IsCalm site sess (fault why, w) = IsCalm-refl w
eligibility_again-IsCalm site sess (reply x, w) = ask-IsCalm _ w

eligibility_renewed-IsCalm :
    (site : Site) (sess : Session) (r : Step Session)
    → IsCalm r.1 (eligibility_renewed site sess r).1
unfolding eligibility_renewed left_with
eligibility_renewed-IsCalm site sess (fault why, w) = IsCalm-refl w
eligibility_renewed-IsCalm site sess (reply renewed, w) =
    let r = client_for site renewed w in
    IsCalm-trans w r.1 _ (client_for-IsCalm site renewed w)
      (eligibility_again-IsCalm site renewed r)

recover_eligibility-IsCalm :
    (site : Site) (account_id : Text) (sess : Session) (r : Step CheckinEligibility)
    → IsCalm r.1 (recover_eligibility site account_id sess r).1
unfolding recover_eligibility left_with
recover_eligibility-IsCalm site account_id sess (reply e, w) = IsCalm-refl w
recover_eligibility-IsCalm site account_id sess (fault why, w) =
    let r = renew_parent site account_id sess.token w in
    elim (Bool-cases (not (is_auth_error why))) [
      | inl q ↦ rw (q, recover_eligibility) (IsCalm-refl w)
      | inr q ↦
          rw (q, recover_eligibility)
            (IsCalm-trans w r.1 _ (renew_parent-IsCalm site account_id sess.token w)
              (eligibility_renewed-IsCalm site sess r))
    ]

pub eligibility-IsCalm :
    (site : Site) (account_id : Text) (sess : Session) (w : World)
    → IsCalm w (eligibility_with_recovery site account_id sess w).1
unfolding eligibility_with_recovery ask_eligibility
eligibility-IsCalm site account_id sess w =
    let r = ask_eligibility site sess w in
    IsCalm-trans w r.1 _ (ask-IsCalm _ w) (recover_eligibility-IsCalm site account_id sess r)
