-- ===== src/Service/DailyClaim/Marked.antt =====
-- The posts of a claim whose action is marked as started.
use lottery.Prelude.{◌≡◌, refl, sym, subst, ◌∙◌, ap, inl, inr, true, some, List, Bool-cases, All}
use lottery.Prelude.Text.{Text}
use lottery.Prelude.Int.{ℤ}
use lottery.Prelude.Dict.{lookup}
use lottery.State.Types.{Action, Store}
use lottery.State.Persist.{encode}
use lottery.State.Actions.Lifecycle.{stored}
use lottery.Website.{Fault, ClaimResult, is_status}
use lottery.Service.{
  Session, reply, fault, Site, World, Step, left_with, handle, ask, post_claim, renew_lottery,
  client_for, claim_again, claim_renewed, recover_claim, claim_with_recovery,
}
use lottery.Service.DailyClaim.{claim_started}
use lottery.Service.DailyClaim.Quiet.{
  IsCalm, reconcile_after_post_error-IsQuiet, finish_claim-IsQuiet, renew_lottery-IsCalm,
  client_for-IsCalm,
}

-- The action under the key is marked as started, in memory and on file.
abbrev pub IsMarked : Text → Store → Type 0
IsMarked key s =
    (a : Action) × (stored key s ≡ some a)
    × (a.side_effect_started ≡ true)
    × (s.file ≡ encode s.content)

-- Whenever a claim was posted, the action was marked.
abbrev pub IsGuarded : Text → World → Type 0
IsGuarded key w = All (IsMarked key) w.posts

-- What is stored under the key has the key.
abbrev pub HasKey : Text → Store → Type 0
HasKey key s = (a : Action) → stored key s ≡ some a → a.key ≡ key

pub quiet-IsGuarded :
    (key : Text) {before now : List Store}
    → now ≡ before
    → All (IsMarked key) before
    → All (IsMarked key) now
quiet-IsGuarded key q h = subst (All (IsMarked key)) (sym q) h

pub calm-IsMarked :
    (key : Text) (v w : World) → IsCalm v w → IsMarked key v.store → IsMarked key w.store
calm-IsMarked key v w c (a, found, mark, file) =
    (a, ap (lookup key) c.actions ∙ found, mark, c.on_file file)

pub calm-HasKey : (key : Text) (v w : World) → IsCalm v w → HasKey key v.store → HasKey key w.store
calm-HasKey key v w c h a found = h a (ap (lookup key) (sym c.actions) ∙ found)

pub handle-keeps :
    {A B : Type 0} (P Q : World → Type 0) (r : Step A) (failed : Fault → World → Step B)
    (next : A → World → Step B)
    → P r.1
    → ((why : Fault) (v : World) → P v → Q (failed why v).1)
    → ((a : A) → r.0 ≡ reply a → Q (next a r.1).1)
    → Q (handle r failed next).1
unfolding handle
handle-keeps P Q (reply a, w) failed next h f n = n a refl
handle-keeps P Q (fault why, w) failed next h f n = f why w h

claim_again-IsGuarded :
    (site : Site) (key : Text) (sess : Session) (r : Step (Unit {0}))
    → IsMarked key r.1.store
    → IsGuarded key r.1
    → IsGuarded key (claim_again site sess r).1
unfolding claim_again left_with post_claim ask
claim_again-IsGuarded site key sess (fault why, w) mark h = h
claim_again-IsGuarded site key sess (reply x, w) mark h = (mark, h)

claim_renewed-IsGuarded :
    (site : Site) (key : Text) (sess : Session) (r : Step Session)
    → IsMarked key r.1.store
    → IsGuarded key r.1
    → IsGuarded key (claim_renewed site sess r).1
unfolding claim_renewed left_with
claim_renewed-IsGuarded site key sess (fault why, w) mark h = h
claim_renewed-IsGuarded site key sess (reply renewed, w) mark h =
    let r = client_for site renewed w in
    let calm = client_for-IsCalm site renewed w in
    claim_again-IsGuarded site key renewed r (calm-IsMarked key w r.1 calm mark)
      (quiet-IsGuarded key calm.posts h)

recover_claim-IsGuarded :
    (site : Site) (key account_id : Text) (sess : Session) (r : Step ClaimResult)
    → IsMarked key r.1.store
    → IsGuarded key r.1
    → IsGuarded key (recover_claim site account_id sess r).1
unfolding recover_claim left_with
recover_claim-IsGuarded site key account_id sess (reply result, w) mark h = h
recover_claim-IsGuarded site key account_id sess (fault why, w) mark h =
    elim (Bool-cases (is_status why 401)) [
      | inr q ↦ rw (q, recover_claim) h
      | inl q ↦
          let r = renew_lottery site account_id sess.token w in
          let calm = renew_lottery-IsCalm site account_id sess.token w in
          rw (q, recover_claim)
            (claim_renewed-IsGuarded site key sess r (calm-IsMarked key w r.1 calm mark)
              (quiet-IsGuarded key calm.posts h))
    ]

pub claim_started-IsGuarded :
    (site : Site) (key account_id : Text) (sess : Session) (action : Action) (before : ℤ)
    (w : World)
    → IsMarked key w.store
    → IsGuarded key w
    → IsGuarded key (claim_started site account_id sess action before w).1
unfolding claim_started claim_with_recovery post_claim ask
claim_started-IsGuarded site key account_id sess action before w mark h =
    let posted =
      recover_claim-IsGuarded site key account_id sess (post_claim site sess w) mark (mark, h) in
    handle-keeps (IsGuarded key) (IsGuarded key) _ _ _ posted
      (λ cause v g.
        quiet-IsGuarded key
          (reconcile_after_post_error-IsQuiet site account_id _ action before cause v) g)
      (λ result q.
        quiet-IsGuarded key (finish_claim-IsQuiet site account_id _ action before result _) posted)
