-- ===== src/Service/Queries.antt =====
-- The queries Dashboard and CheckinStatus of internal/service/runner.go, and draw_count.go.
use lottery.Prelude.{Bool, false, not, Option, none, some, inl, inr, Option-cases, if◌then◌else◌}
use lottery.Prelude.Text.{Text, codes, text_eq, is_empty, trim_space}
use lottery.Prelude.Int.{ℤ, pos}
use lottery.Prelude.Time.{Time}
use lottery.Prelude.Float.{value_of}
use lottery.Quota.Money.{Money, state_confirmed}
use lottery.Website.{
  other, Dashboard, DrawLimit, CheckinStatus, StatusSettings, effective_draw_limit,
}
use lottery.Service.{
  Session, reply, fault, Site, World, Step, handle, after, acquire, renew_parent, client_for,
  as_step, dashboard_with_recovery, enabled_account,
}
use lottery.Service.Activity.{default}
use lottery.Service.Quota.{quota_money}
use lottery.Service.Checkin.{is_auth_error, fetch_checkin_display_status}
use lottery.Service.Checkin.Calm.{fetch-IsCalm, choose-IsCalm}
use lottery.Service.DailyClaim.Quiet.{
  IsCalm, IsCalm-refl, after-IsCalm, handle-IsCalm, acquire-IsCalm, renew_parent-IsCalm,
  client_for-IsCalm, dashboard_step-IsCalm,
}

-- Runner.Dashboard
unfoldable pub query_dashboard : Site → Text → World → Step Dashboard
query_dashboard site account_id w =
    after (enabled_account account_id w.store, w)
      λ r w. after (acquire site account_id w) λ sess w. after (client_for site sess w) λ _ w.
        after (as_step (dashboard_with_recovery site account_id sess w))
          λ found w. (reply found.0, w)

-- checkinDisplayStatusWithRecovery; the session that it leaves is not used.
unfoldable pub display_status_with_recovery :
    Site → Text → Session → World → Step (CheckinStatus × StatusSettings)
display_status_with_recovery site account_id sess w =
    handle (fetch_checkin_display_status site sess w)
      (λ why w.
        if not (is_auth_error why)
        then (fault why, w)
        else (after (renew_parent site account_id sess.token w) λ renewed w.
            after (client_for site renewed w) λ _ w. fetch_checkin_display_status site renewed w))
      λ known w. (reply known, w)

pub record CheckinStatusReport : Type 0 where
  pub checked_in_today : Bool
  pub today_quota_awarded_usd : Option Money

-- The report of CheckinStatus; an amount is shown if it is confirmed.
unfoldable pub status_report : Time → CheckinStatus × StatusSettings → CheckinStatusReport
status_report now (status, settings) = record {
  checked_in_today = status.checked_in_today;
  today_quota_awarded_usd = elim status.today_quota_awarded [
    | none ↦ none
    | some awarded ↦
        let reward =
          quota_money now (value_of awarded) settings (codes "checkin.quota_awarded") now in
        if text_eq reward.state state_confirmed then some reward else none
  ];
}

-- Runner.CheckinStatus
unfoldable pub query_checkin_status : Site → Text → World → Step CheckinStatusReport
query_checkin_status site account_id w =
    after (enabled_account account_id w.store, w)
      λ r w. after (acquire site account_id w) λ sess w. after (client_for site sess w) λ _ w.
        after (display_status_with_recovery site account_id sess w)
          λ known w. (reply (status_report (site.now w.asked) known), w)

pub record DrawCountReport : Type 0 where
  pub account_id : Text
  pub remaining : ℤ
  pub locked_remaining : ℤ
  pub earned_remaining : ℤ
  pub purchased_remaining : ℤ
  pub daily_used : ℤ
  pub free_limit : ℤ
  pub unlocked : Bool
  pub status : Text
  pub day_key : Text
  pub queried_at : Time

abbrev pub default_daily_free_draw_limit : ℤ
default_daily_free_draw_limit = pos 3

-- The status that the website gives, or one by what it says of the lock.
unfoldable pub count_status : DrawLimit → Text
count_status limit =
    if not (is_empty (trim_space limit.status))
    then trim_space limit.status
    else if default limit.unlocked false
    then codes "unlocked"
    else codes "unknown"

unfoldable pub count_report : Site → Text → DrawLimit → World → Step DrawCountReport
unfolding count_status
count_report site account_id limit w = elim limit.remaining [
  | none ↦ (fault (other (codes "dashboard did not contain a current draw count")), w)
  | some remaining ↦ (
    reply (record {
      account_id = account_id;
      remaining = remaining;
      locked_remaining = default limit.locked_remaining (pos 0);
      earned_remaining = default limit.earned_remaining (pos 0);
      purchased_remaining = default limit.purchased_remaining (pos 0);
      daily_used = default limit.daily_used (pos 0);
      free_limit = default limit.free_limit default_daily_free_draw_limit;
      unlocked = default limit.unlocked false;
      status = count_status limit;
      day_key =
          if is_empty (trim_space limit.day_key)
          then site.today w.asked
          else trim_space limit.day_key;
      queried_at = site.now w.asked;
    }),
    w,
  )
]

-- Runner.QueryDrawCount
unfoldable pub query_draw_count : Site → Text → World → Step DrawCountReport
query_draw_count site account_id w =
    after (enabled_account account_id w.store, w)
      λ r w.
        after (query_dashboard site r.id w)
          λ dashboard w. count_report site r.id (effective_draw_limit dashboard) w

query_dashboard-IsCalm :
    (site : Site) (account_id : Text) (w : World) → IsCalm w (query_dashboard site account_id w).1
unfolding query_dashboard
query_dashboard-IsCalm site account_id w = after-IsCalm w _ _ (IsCalm-refl w) λ r v.
    after-IsCalm v _ _ (acquire-IsCalm site account_id v) λ sess u.
      after-IsCalm u _ _ (client_for-IsCalm site sess u) λ x t.
        after-IsCalm t _ _ (dashboard_step-IsCalm site account_id sess t) (λ d s. IsCalm-refl s)

display_status-IsCalm :
    (site : Site) (account_id : Text) (sess : Session) (w : World)
    → IsCalm w (display_status_with_recovery site account_id sess w).1
unfolding display_status_with_recovery
display_status-IsCalm site account_id sess w =
    handle-IsCalm w _ _ _ (fetch-IsCalm site sess w)
      (λ why v. choose-IsCalm v (not (is_auth_error why)) _ _ (IsCalm-refl v) (
        after-IsCalm v _ _ (renew_parent-IsCalm site account_id sess.token v) λ renewed u.
          after-IsCalm u _ _ (client_for-IsCalm site renewed u)
            (λ x t. fetch-IsCalm site renewed t)))
      (λ known v. IsCalm-refl v)

query_checkin_status-IsCalm :
    (site : Site) (account_id : Text) (w : World)
    → IsCalm w (query_checkin_status site account_id w).1
unfolding query_checkin_status
query_checkin_status-IsCalm site account_id w = after-IsCalm w _ _ (IsCalm-refl w) λ r v.
    after-IsCalm v _ _ (acquire-IsCalm site account_id v) λ sess u.
      after-IsCalm u _ _ (client_for-IsCalm site sess u) λ x t.
        after-IsCalm t _ _ (display_status-IsCalm site account_id sess t) (λ d s. IsCalm-refl s)

count_report-IsCalm :
    (site : Site) (account_id : Text) (limit : DrawLimit) (w : World)
    → IsCalm w (count_report site account_id limit w).1
unfolding count_report
count_report-IsCalm site account_id limit w = elim (Option-cases limit.remaining) [
  | inl q ↦ rw (q, count_report) (IsCalm-refl w)
  | inr (remaining, q) ↦ rw (q, count_report) (IsCalm-refl w)
]

-- The queries Dashboard, CheckinStatus and QueryDrawCount claim, order, check in and draw nothing and
-- leave all actions as they are, also when they renew a rejected session.
pub queries-IsCalm :
    (site : Site) (account_id : Text) (w : World)
    → IsCalm w (query_dashboard site account_id w).1
      × IsCalm w (query_checkin_status site account_id w).1
      × IsCalm w (query_draw_count site account_id w).1
unfolding query_draw_count
queries-IsCalm site account_id w = (
  query_dashboard-IsCalm site account_id w,
  query_checkin_status-IsCalm site account_id w,
  after-IsCalm w _ _ (IsCalm-refl w) λ r v.
      after-IsCalm v _ _ (query_dashboard-IsCalm site r.id v)
        (λ d u. count_report-IsCalm site r.id (effective_draw_limit d) u),
)
