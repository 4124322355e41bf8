-- ===== src/Service/Checkin.antt =====
-- The check-in of internal/service/runner.go. It takes no lock on its action: once it has looked the
-- action up, other calls may change the store before each of its own changes of the action, and
-- before each request that checks in.
pub mod Calm
pub mod Posted
pub mod Reconciled
pub mod Recorded
pub mod Resumed
use lottery.Prelude.{
  ◌+◌, Bool, true, false, ◌&&◌, ◌||◌, not, Option, none, some, List, [], ◌∷◌, ◌++◌, if◌then◌else◌,
}
use lottery.Prelude.Text.{Text, codes, text_eq}
use lottery.Prelude.Int.{ℤ, pos, ltb_ℤ}
use lottery.Prelude.Time.{Time}
use lottery.Prelude.Float.{finite, value_of}
use lottery.Quota.Money.{Money, state_confirmed}
use lottery.State.Types.{
  Action, Store, action_checkin, action_pending, action_completed, action_failed, action_unknown,
}
use lottery.State.Persist.{Env}
use lottery.State.Actions.{get_or_create_action, update_action, reset_retryable_action}
use lottery.Website.{
  Fault, api, reauth_required, auth_unavailable, canceled, timed_out, other, from_store, is_status,
  is_transient, CheckinResult, CheckinStatus, CheckinEligibility, StatusSettings,
}
use lottery.Service.{
  Session, Reply, reply, fault, Site, World, Step, handle, after, on_store, ask, acquire,
  renew_parent, client_for, Recovered, left_with, enabled_account, finish_action, start_action,
  auth_retryable, safe_error, first_non_empty, ActionOutcome,
}
use lottery.Service.Quota.{quota_money}

-- subscriptionAuthError
unfoldable pub is_auth_error : Fault → Bool
is_auth_error why = is_status why 401 || is_status why 403

-- errors.Is with ErrReauthRequired or ErrAuthUnavailable
unfoldable pub is_broker_error : Fault → Bool
is_broker_error (reauth_required text) = true
is_broker_error (auth_unavailable text) = true
is_broker_error (api status text) = false
is_broker_error (canceled text) = false
is_broker_error (timed_out text) = false
is_broker_error (other text) = false
is_broker_error (from_store why) = false

-- errors.Is with context.DeadlineExceeded or context.Canceled
unfoldable pub is_context_error : Fault → Bool
is_context_error (canceled text) = true
is_context_error (timed_out text) = true
is_context_error (api status text) = false
is_context_error (reauth_required text) = false
is_context_error (auth_unavailable text) = false
is_context_error (other text) = false
is_context_error (from_store why) = false

-- isUnknown
unfoldable pub is_unknown : Fault → Bool
is_unknown why = is_transient why || is_context_error why

-- The world after what other calls do.
abbrev pub let_others : Site → World → World
let_others site w = record w { store = site.others w.asked w.store }

abbrev pub outcome_of : Bool → Action → ActionOutcome
outcome_of recorded action = record { action = action; already_recorded = recorded }

-- The change of recordActionError.
unfoldable pub with_error : Fault → Bool → Bool → Action → Action
with_error cause unknown retryable value = record value {
  last_error = safe_error cause;
  message = safe_error cause;
  retryable = retryable;
  status = if retryable then action_failed else if unknown then action_unknown else action_failed;
}

-- Runner.recordActionError
unfoldable pub record_action_error :
    Site → Action → Fault → Bool → Bool → World → Step ActionOutcome
record_action_error site action cause unknown retryable w =
    after (finish_action site action (with_error cause unknown retryable) (let_others site w))
      λ updated w. (reply (outcome_of false updated), w)

-- Runner.acquireParentForAction
unfoldable pub acquire_parent_for_action : Site → Text → World → Step Session
acquire_parent_for_action site account_id w =
    after (acquire site account_id w)
      λ sess w. after (client_for site sess w) λ _ w. (reply sess, w)

unfoldable pub ask_eligibility : Site → Session → World → Step CheckinEligibility
ask_eligibility site sess w = ask (λ n. site.eligibility n sess.token sess.user_id) w

unfoldable pub eligibility_again :
    Site → Session → Step (Unit {0}) → Recovered CheckinEligibility × World
eligibility_again site renewed (fault why, w) = left_with renewed (fault why, w)
eligibility_again site renewed (reply _, w) = left_with renewed (ask_eligibility site renewed w)

unfoldable pub eligibility_renewed :
    Site → Session → Step Session → Recovered CheckinEligibility × World
eligibility_renewed site sess (fault why, w) = left_with sess (fault why, w)
eligibility_renewed site sess (reply renewed, w) =
    eligibility_again site renewed (client_for site renewed w)

unfoldable pub recover_eligibility :
    Site → Text → Session → Step CheckinEligibility → Recovered CheckinEligibility × World
recover_eligibility site account_id sess (reply e, w) = left_with sess (reply e, w)
recover_eligibility site account_id sess (fault why, w) =
    if not (is_auth_error why)
    then left_with sess (fault why, w)
    else eligibility_renewed site sess (renew_parent site account_id sess.token w)

-- Runner.checkinEligibilityWithRecovery
unfoldable pub eligibility_with_recovery :
    Site → Text → Session → World → Recovered CheckinEligibility × World
eligibility_with_recovery site account_id sess w =
    recover_eligibility site account_id sess (ask_eligibility site sess w)

unfoldable pub ask_status : Site → Session → World → Step StatusSettings
ask_status site sess w = ask (λ n. site.status n sess.token) w

abbrev pub no_settings : StatusSettings
no_settings = record { quota_per_unit = finite (pos 0) }

-- fetchCheckinDisplayStatus
unfoldable pub fetch_checkin_display_status :
    Site → Session → World → Step (CheckinStatus × StatusSettings)
fetch_checkin_display_status site sess w =
    after (ask (λ n. site.checkin_status n sess.token) w) λ status w.
      handle (ask_status site sess w)
        (λ why w.
          if not (is_auth_error why) then (reply (status, no_settings), w) else (fault why, w))
        (λ settings w. (reply (status, settings), w))

-- The request that checks in; what the store holds at that time is noted.
unfoldable pub post_checkin : Site → Session → World → Step CheckinResult
post_checkin site sess w =
    let w = let_others site w in
    ask (λ n. site.checkin n sess.token) (record w { checkins = w.store ∷ w.checkins })

unfoldable pub checkin_refused : CheckinResult → Action → Action
checkin_refused result value = record value {
  status = action_failed;
  retryable = true;
  side_effect_started = false;
  message = first_non_empty result.message (codes "签到未成功");
  last_error = first_non_empty result.message (codes "签到未成功");
}

unfoldable pub checkin_made : CheckinResult → Action → Action
checkin_made result value = record value {
  status = action_completed;
  retryable = false;
  last_error = [];
  message = first_non_empty result.message (codes "签到成功");
  checkin_quota_awarded = some result.quota_awarded;
}

-- Checkin after the website has answered.
unfoldable pub settle_checkin : Site → Action → CheckinResult → World → Step ActionOutcome
settle_checkin site action result w =
    after
      (finish_action site action
        (if result.success then checkin_made result else checkin_refused result)
        (let_others site w))
      λ updated w. (reply (outcome_of false updated), w)

-- Checkin after a fault that is not recovered from.
unfoldable pub checkin_failed : Site → Action → Fault → World → Step ActionOutcome
checkin_failed site action why w = record_action_error site action why (is_unknown why) false w

-- The check-in with another session after a rejected token.
unfoldable pub checkin_again : Site → Text → Session → Action → World → Step ActionOutcome
checkin_again site account_id sess action w =
    handle (renew_parent site account_id sess.token w) (checkin_failed site action) λ renewed w.
      handle (client_for site renewed w) (checkin_failed site action) λ _ w.
        handle (post_checkin site renewed w) (checkin_failed site action)
          (settle_checkin site action)

-- Checkin once the action is marked as started.
unfoldable pub checkin_started : Site → Text → Session → Action → World → Step ActionOutcome
checkin_started site account_id sess action w =
    handle (post_checkin site sess w)
      (λ why w.
        if is_auth_error why
        then checkin_again site account_id sess action w
        else checkin_failed site action why w)
      (settle_checkin site action)

unfoldable pub run_checkin : Site → Text → Session → Action → World → Step ActionOutcome
run_checkin site account_id sess action w =
    after (start_action site action (let_others site w))
      λ action w. checkin_started site account_id sess action w

-- The message of a check-in for which the account has not spent enough.
unfoldable pub spend_message : Time → CheckinEligibility → StatusSettings → Text
spend_message now e settings =
    let missing = quota_money now e.remaining settings (codes "checkin.required_spend") now in
    if text_eq missing.state state_confirmed
    then codes "今日活跃度不足，距离签到还需消耗 " ++ missing.display
    else codes "今日活跃度不足，暂时无法换算签到所需额度"

-- Checkin of an account that may not check in yet.
unfoldable pub refuse_checkin :
    Site → Session → Action → CheckinEligibility → World → Step ActionOutcome
refuse_checkin site sess action e w =
    let refuse = λ (message : Text) (w : World).
      record_action_error site action (other message) false true w in
    handle (ask_status site sess w) (λ _ w. refuse (codes "今日活跃度不足，暂时无法换算签到所需额度") w)
      λ settings w. refuse (spend_message (site.now w.asked) e settings) w

-- Checkin once the account is known to have a user.
unfoldable pub check_eligibility : Site → Text → Session → Action → World → Step ActionOutcome
check_eligibility site account_id sess action w =
    let asked = eligibility_with_recovery site account_id sess w in
    handle (asked.0.answer, asked.1)
      (λ why w.
        if is_auth_error why || is_broker_error why
        then record_action_error site action why false (auth_retryable why) w
        else run_checkin site account_id sess action w)
      (λ e w.
        if not e.can_checkin
        then refuse_checkin site sess action e w
        else run_checkin site account_id asked.0.session action w)

-- Checkin from the session on.
unfoldable pub attempt_checkin : Site → Text → Action → World → Step ActionOutcome
attempt_checkin site account_id action w =
    handle (acquire_parent_for_action site account_id w)
      (λ why w. record_action_error site action why false (auth_retryable why) w)
      (λ sess w.
        if ltb_ℤ (pos 0) sess.user_id
        then check_eligibility site account_id sess action w
        else run_checkin site account_id sess action w)

-- The change of a check-in that the website knows of.
unfoldable pub found_checked_in : Time → CheckinStatus → StatusSettings → Action → Action
found_checked_in now status settings value = elim status.today_quota_awarded [
  | none ↦ record value {
    status = action_completed;
    retryable = false;
    last_error = [];
    message = codes "今日已签到";
  }
  | some awarded ↦
      let reward =
        quota_money now (value_of awarded) settings (codes "checkin.quota_awarded") now in
      let confirmed = text_eq reward.state state_confirmed in
      record value {
        status = action_completed;
        retryable = false;
        last_error = [];
        message = if confirmed then codes "今日已签到，获得额度：" ++ reward.display else codes "今日已签到";
        checkin_quota_awarded = some awarded;
        checkin_quota_awarded_usd =
            if confirmed then some reward else value.checkin_quota_awarded_usd;
      }
]

-- The change of resetFailedCheckinAction.
unfoldable pub reopened : Action → Action
reopened value = record value {
  status = action_pending;
  side_effect_started = false;
  retryable = false;
  checkin_quota_awarded = none;
  checkin_quota_awarded_usd = none;
  message = [];
  last_error = [];
}

-- Runner.resetFailedCheckinAction
unfoldable pub reset_failed_checkin_action : Site → Action → World → Step Action
reset_failed_checkin_action site action w =
    on_store (λ e. update_action e action.key reopened) site (let_others site w)

-- reconcileFailedCheckin once the website has told its state: the action with an outcome, or the
-- reopened action.
unfoldable pub reconcile_with :
    Site → Action → CheckinStatus × StatusSettings → World → Step (Action × Option ActionOutcome)
reconcile_with site action (status, settings) w =
    if status.checked_in_today
    then (after
        (finish_action site action (found_checked_in (site.now w.asked) status settings)
          (let_others site w))
        λ updated w. (reply (action, some (outcome_of true updated)), w))
    else (after (reset_failed_checkin_action site action w) λ reset w. (reply (reset, none), w))

-- reconcileFailedCheckin where the website has told nothing.
abbrev pub unchanged : Action → Fault → World → Step (Action × Option ActionOutcome)
unchanged action why w = (reply (action, none), w)

unfoldable pub reconcile_again :
    Site → Text → Session → Action → World → Step (Action × Option ActionOutcome)
reconcile_again site account_id sess action w =
    handle (renew_parent site account_id sess.token w) (unchanged action) λ renewed w.
      handle (client_for site renewed w) (unchanged action) λ _ w.
        handle (fetch_checkin_display_status site renewed w) (unchanged action)
          (reconcile_with site action)

-- Runner.reconcileFailedCheckin
unfoldable pub reconcile_failed_checkin :
    Site → Text → Action → World → Step (Action × Option ActionOutcome)
reconcile_failed_checkin site account_id action w =
    handle (acquire site account_id w) (unchanged action) λ sess w.
      handle (client_for site sess w) (unchanged action) λ _ w.
        handle (fetch_checkin_display_status site sess w)
          (λ why w.
            if is_auth_error why
            then reconcile_again site account_id sess action w
            else (reply (action, none), w))
          (reconcile_with site action)

-- Checkin on a failed action, after the reconciliation.
unfoldable pub retry_checkin :
    Site → Text → Action → Action × Option ActionOutcome → World → Step ActionOutcome
retry_checkin site account_id action (found, some outcome) w = (reply outcome, w)
retry_checkin site account_id action (found, none) w =
    if text_eq found.status action_pending && not found.side_effect_started
    then attempt_checkin site account_id found w
    else if action.retryable && not action.side_effect_started
    then (after (on_store (λ e. reset_retryable_action e action.key) site (let_others site w))
        λ reset w. attempt_checkin site account_id reset w)
    else (reply (outcome_of true action), w)

-- What Checkin does with an action that exists.
unfoldable pub resume_checkin : Site → Text → Action → World → Step ActionOutcome
resume_checkin site account_id action w =
    if text_eq action.status action_completed || text_eq action.status action_unknown
    then (reply (outcome_of true action), w)
    else if text_eq action.status action_failed
    then (after (reconcile_failed_checkin site account_id action w)
        λ found w. retry_checkin site account_id action found w)
    else (reply (outcome_of true action), w)

-- Checkin once it has the action.
unfoldable pub proceed_checkin : Site → Text → Action × Bool → World → Step ActionOutcome
proceed_checkin site account_id (action, created) w =
    if created
    then attempt_checkin site account_id action w
    else resume_checkin site account_id action w

-- Runner.Checkin; the intent is part of what the broker answers to.
unfoldable pub checkin : Site → Text → World → Step ActionOutcome
checkin site account_id w =
    after (enabled_account account_id w.store, w)
      λ r w.
        after
          (on_store (λ e. get_or_create_action e r.id (site.today w.asked) action_checkin) site w)
          λ p w. proceed_checkin site r.id p w
