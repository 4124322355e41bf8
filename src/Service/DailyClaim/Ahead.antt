-- ===== src/Service/DailyClaim/Ahead.antt =====
-- What is in the store when ClaimDaily posts a claim.
use lottery.Prelude.{
  ◌+◌, ◌≡◌, refl, subst, inl, inr, Bool, true, false, some, arith, Option-cases, if◌then◌else◌,
}
use lottery.Prelude.Text.{Text, text_eq_refl, trim_space}
use lottery.Prelude.Int.{ℤ}
use lottery.Prelude.Dict.{lookup-insert}
use lottery.Prelude.Result.{ok, Result-cases}
use lottery.State.Types.{Action, Store, action_daily_claim}
use lottery.State.Persist.{Env, encode, commit, on_ok}
use lottery.State.Actions.{
  action_key, new_action, update_action, replace_action, get_or_create_action, reset,
  reset_retryable_action,
}
use lottery.State.Actions.Lifecycle.{stored, reset_retryable_action_lem}
use lottery.Website.{Fault, remaining_draws}
use lottery.Service.{
  Session, reply, Site, World, Step, as_step, after, of_result, on_store, finish_action, started,
  start_action, dashboard_with_recovery,
}
use lottery.Service.DailyClaim.{
  DailyClaimOutcome, acquire_lottery_for_action, record_preflight_error, prepared, claim_started,
  attempt_claim, resume_claim, claim_daily,
}
use lottery.Service.DailyClaim.Quiet.{
  acquire_lottery_for_action-IsCalm, dashboard_step-IsCalm, record_preflight_error-IsQuiet,
  reconcile_daily_claim-IsQuiet,
}
use lottery.Service.DailyClaim.Marked.{
  IsMarked, IsGuarded, HasKey, quiet-IsGuarded, calm-HasKey, handle-keeps, claim_started-IsGuarded,
}

-- An update that succeeds stores what it returns, in memory and on file, and keeps a key that the
-- change keeps.
pub update_action_lem :
    (e : Env) (key : Text) (change : Action → Action) (s : Store) (a : Action)
    → (update_action e key change s).0 ≡ ok a
    → (old : Action) × (stored key s ≡ some old)
      × (a ≡ record (change old) { updated_at = e.clock 0 })
      × (stored key (update_action e key change s).1 ≡ some a)
      × ((update_action e key change s).1.file ≡ encode (update_action e key change s).1.content)
unfolding update_action replace_action commit on_ok
update_action_lem e key change s a h = elim (Option-cases (stored key s)) [
  | inl q ↦ ground arith
  | inr (old, q) ↦ (
    old,
    q,
    ground arith,
    ground (arith, lookup-insert key key a s.content.actions, text_eq_refl key),
    ground arith,
  )
]

-- An action that is finished keeps its key if the change does.
pub finish_action-keeps_key :
    (site : Site) (key : Text) (action a : Action) (change : Action → Action) (w : World)
    → ((v : Action) → (change v).key ≡ v.key)
    → action.key ≡ key
    → HasKey key w.store
    → (finish_action site action change w).0 ≡ reply a
    → a.key ≡ key
unfolding finish_action on_store of_result
finish_action-keeps_key site key action a change w keeps same has h =
    let r = update_action (site.env w.asked) action.key change w.store in
    elim (Result-cases r.0) [
      | inr (why, q) ↦ absurd (ground arith)
      | inl (b, q) ↦
          let (old, found, made, now, file) =
            update_action_lem (site.env w.asked) action.key change w.store b q in
          ground (arith, has old, keeps old)
    ]

pub start_action-IsMarked :
    (site : Site) (key : Text) (action a : Action) (w : World)
    → action.key ≡ key
    → (start_action site action w).0 ≡ reply a
    → IsMarked key (start_action site action w).1.store
unfolding start_action finish_action on_store of_result started
start_action-IsMarked site key action a w same h =
    let r = update_action (site.env w.asked) action.key started w.store in
    elim (Result-cases r.0) [
      | inr (why, q) ↦ absurd (ground arith)
      | inl (b, q) ↦
          let (old, found, made, now, file) =
            update_action_lem (site.env w.asked) action.key started w.store b q in
          (b, subst (λ k. stored k r.1 ≡ some b) same now, ground arith, file)
    ]

prepared-key : (before : ℤ) (v : Action) → (prepared before v).key ≡ v.key
unfolding prepared
prepared-key before v = refl

attempt_prepared-IsGuarded :
    (site : Site) (key account_id : Text) (sess : Session) (action : Action) (before : ℤ)
    (w : World)
    → action.key ≡ key
    → HasKey key w.store
    → IsGuarded key w
    → IsGuarded key
        (after (finish_action site action (prepared before) w) λ action w.
          after
            (start_action site action w)
            λ action w. claim_started site account_id sess action before w).1
unfolding after finish_action start_action on_store
attempt_prepared-IsGuarded site key account_id sess action before w same has h =
    let v = (finish_action site action (prepared before) w).1 in
    handle-keeps (IsGuarded key) (IsGuarded key) _ _ _ h (λ why u g. g)
      λ a q.
        handle-keeps (IsGuarded key) (IsGuarded key) _ _ _ h (λ why u g. g)
          λ b r.
            claim_started-IsGuarded site key account_id sess b before (start_action site a v).1
              (start_action-IsMarked site key a b v
                (finish_action-keeps_key site key action a (prepared before) w (prepared-key before)
                  same has q)
                r)
              h

refused-IsGuarded :
    (site : Site) (key : Text) (action : Action) (why : Fault) (u : World)
    → IsGuarded key u
    → IsGuarded key (record_preflight_error site action why u).1
refused-IsGuarded site key action why u g =
    quiet-IsGuarded key (record_preflight_error-IsQuiet site action why u) g

attempt_claim-IsGuarded :
    (site : Site) (key account_id : Text) (action : Action) (w : World)
    → action.key ≡ key
    → HasKey key w.store
    → IsGuarded key w
    → IsGuarded key (attempt_claim site account_id action w).1
unfolding attempt_claim
attempt_claim-IsGuarded site key account_id action w same has h =
    let first = acquire_lottery_for_action-IsCalm site account_id w in
    let v = (acquire_lottery_for_action site account_id w).1 in
    let refused = refused-IsGuarded site key action in
    let at_v = quiet-IsGuarded key first.posts h in
    handle-keeps (IsGuarded key) (IsGuarded key) _ _ _ at_v refused λ sess q.
      let u = (as_step (dashboard_with_recovery site account_id sess v)).1 in
      let second = dashboard_step-IsCalm site account_id sess v in
      let at_u = quiet-IsGuarded key second.posts at_v in
      handle-keeps (IsGuarded key) (IsGuarded key) _ _ _ at_u refused λ d r.
        elim (Option-cases (remaining_draws d.0)) [
          | inl t ↦ rw t (refused _ u at_u)
          | inr (before, t) ↦ rw t (
              attempt_prepared-IsGuarded site key account_id d.1 action before u same
                (calm-HasKey key v u second (calm-HasKey key w v first has)) at_u)
        ]

reset-IsGuarded :
    (site : Site) (key account_id : Text) (action : Action) (w : World)
    → action.key ≡ key
    → HasKey key w.store
    → IsGuarded key w
    → IsGuarded key
        (after
          (on_store (λ e. reset_retryable_action e action.key) site w)
          λ action w. attempt_claim site account_id action w).1
unfolding after on_store of_result reset
reset-IsGuarded site key account_id action w same has h =
    let e = site.env w.asked in
    handle-keeps (IsGuarded key) (IsGuarded key) _ _ _ h (λ why u g. g)
      λ a q. elim (Result-cases (reset_retryable_action e action.key w.store).0) [
        | inr (why, t) ↦ absurd (ground arith)
        | inl (b, t) ↦
            let (old, found, retryable, idle, made, id, now) =
              reset_retryable_action_lem e action.key w.store b t in
            attempt_claim-IsGuarded site key account_id a _ (ground (arith, has old))
              (λ c at. ground (arith, has old)) h
      ]

resume_claim-IsGuarded :
    (site : Site) (key account_id : Text) (action : Action) (w : World)
    → action.key ≡ key
    → HasKey key w.store
    → IsGuarded key w
    → IsGuarded key (resume_claim site account_id action w).1
unfolding resume_claim
resume_claim-IsGuarded site key account_id action w same has h = ground (
  arith,
  reset-IsGuarded site key account_id action w same has h,
  attempt_claim-IsGuarded site key account_id action w same has h,
  quiet-IsGuarded key (reconcile_daily_claim-IsQuiet site account_id action w) h,
)

-- ClaimDaily once it has the action.
abbrev proceed : Site → Text → Action × Bool → World → Step DailyClaimOutcome
proceed site account_id p w =
    if p.1 then attempt_claim site account_id p.0 w else resume_claim site account_id p.0 w

proceed-IsGuarded :
    (site : Site) (key account_id : Text) (action : Action) (created : Bool) (w : World)
    → action.key ≡ key
    → HasKey key w.store
    → IsGuarded key w
    → IsGuarded key (proceed site account_id (action, created) w).1
proceed-IsGuarded site key account_id action true w =
    attempt_claim-IsGuarded site key account_id action w
proceed-IsGuarded site key account_id action false w =
    resume_claim-IsGuarded site key account_id action w

-- What GetOrCreateAction returns is stored under its key.
pub get_or_create_action-stored :
    (e : Env) (account_id date kind : Text) (s : Store) (a : Action) (created : Bool)
    → HasKey (action_key (trim_space account_id) (trim_space date) kind) s
    → (get_or_create_action e account_id date kind s).0 ≡ ok (a, created)
    → (a.key ≡ action_key (trim_space account_id) (trim_space date) kind)
      × HasKey
          (action_key (trim_space account_id) (trim_space date) kind)
          (get_or_create_action e account_id date kind s).1
unfolding get_or_create_action commit on_ok new_action
get_or_create_action-stored e account_id date kind s a created has h =
    let key = action_key (trim_space account_id) (trim_space date) kind in
    (
      ground (arith, has a),
      λ b at.
          ground (arith, has a, has b, lookup-insert key key a s.content.actions, text_eq_refl key),
    )

-- A claim is posted only while the action of that account and day is marked as started, in memory
-- and on file, at that time; the retry after a rejected token is no exception. The stored action is
-- taken to carry its own key.
pub claim_daily-IsGuarded :
    (site : Site) (account_id : Text) (w : World)
    → HasKey
        (action_key (trim_space account_id) (trim_space (site.today w.asked)) action_daily_claim)
        w.store
    → IsGuarded
        (action_key (trim_space account_id) (trim_space (site.today w.asked)) action_daily_claim)
        w
    → IsGuarded
        (action_key (trim_space account_id) (trim_space (site.today w.asked)) action_daily_claim)
        (claim_daily site account_id w).1
unfolding claim_daily after on_store of_result
claim_daily-IsGuarded site account_id w has h =
    let date = site.today w.asked in
    let key = action_key (trim_space account_id) (trim_space date) action_daily_claim in
    handle-keeps (IsGuarded key) (IsGuarded key) _ _ _ h (λ why u g. g)
      λ r q.
        handle-keeps (IsGuarded key) (IsGuarded key) _ _ _ h (λ why u g. g)
          λ p t.
            elim (Result-cases
              (get_or_create_action (site.env w.asked) account_id date action_daily_claim
                w.store).0) [
                  | inr (why, g) ↦ absurd (ground arith)
                  | inl ((a, created), g) ↦
                      let facts =
                        get_or_create_action-stored (site.env w.asked) account_id date
                          action_daily_claim w.store a created has g in
                      let same : (a, created) ≡ p = ground arith in
                      let v = record w {
                        store =
                            (get_or_create_action (site.env w.asked) account_id date
                              action_daily_claim w.store).1;
                        asked = w.asked + 1;
                      } in
                      subst (λ p. IsGuarded key (proceed site account_id p v).1) same
                        (proceed-IsGuarded site key account_id a created v facts.0 facts.1 h)
                ]
