-- ===== src/Service/ManualDraw.antt =====
-- The manual draw of internal/service/manual_draw.go.
pub mod Kept
use lottery.Prelude.{
  ◌+◌, Bool, true, false, ◌||◌, not, Option, none, some, List, [], ◌∷◌, if◌then◌else◌,
}
use lottery.Prelude.Text.{Text, codes, is_empty, trim_space}
use lottery.Prelude.Int.{ℤ, pos, ltb_ℤ}
use lottery.Prelude.Time.{Time}
use lottery.Prelude.Float.{Real, finite, less_real}
use lottery.Quota.Money.{Money}
use lottery.Quota.Policy.{usd_money, unavailable_usd}
use lottery.Website.{
  Fault, other, is_status, is_transient, DrawResult, StatusSettings, remaining_draws,
}
use lottery.Service.{
  Session, Reply, reply, fault, Site, World, Step, handle, after, ask, acquire, renew_lottery,
  renew_parent, client_for, as_step, dashboard_with_recovery, enabled_account,
}
use lottery.Service.Quota.{is_positive, quota_money}
use lottery.Service.Checkin.{is_auth_error, ask_status}
use lottery.Service.AutoDraw.Execute.{Prize, DrawAvailableOutcome}

-- The amount of a prize, its source, and whether it is in dollars already.
pub record Won : Type 0 where
  pub amount : Real
  pub source : Text
  pub already_usd : Bool

-- drawResultQuotaAmount
unfoldable pub draw_result_quota_amount : DrawResult → Option Won
draw_result_quota_amount result =
    if is_positive result.quota_amount
    then some (record {
      amount = result.quota_amount;
      source = codes "draw.prize.quota_amount";
      already_usd = true;
    })
    else if is_positive result.quota_delta
    then some (record {
      amount = result.quota_delta;
      source = codes "draw.effect.quota_delta";
      already_usd = false;
    })
    else none

-- The amount that is won, by the website's settings.
unfoldable pub delta_with : Site → Won → Time → StatusSettings → World → Step Money
delta_with site won seen settings w = (
  reply (
      if won.already_usd
      then usd_money (site.now w.asked) won.amount won.source seen
      else quota_money (site.now w.asked) won.amount settings won.source seen),
  w,
)

-- The amount of Runner.quotaDeltaMoneyForDraw; a fault stands for an amount that is unavailable.
unfoldable pub quota_delta : Site → Text → Won → Time → World → Step Money
quota_delta site account_id won seen w = after (acquire site account_id w) λ sess w.
    handle (ask_status site sess w)
      (λ why w.
        if not (is_auth_error why)
        then (fault why, w)
        else (after (renew_parent site account_id sess.token w) λ renewed w.
            after (client_for site renewed w) λ _ w.
              after (ask_status site renewed w) λ settings w. delta_with site won seen settings w))
      λ settings w. delta_with site won seen settings w

-- Runner.quotaDeltaMoneyForDraw
unfoldable pub quota_delta_money_for_draw : Site → Text → DrawResult → World → Step (Option Money)
quota_delta_money_for_draw site account_id result w =
    let seen = site.now w.asked in
    elim (draw_result_quota_amount result) [
      | none ↦ (reply none, w)
      | some won ↦
          handle (quota_delta site account_id won seen w)
            (λ _ w. (reply (some (unavailable_usd won.source seen)), w))
            (λ money w. (reply (some money), w))
    ]

-- The request that draws; its idempotency key is noted.
unfoldable pub post_draw : Site → Session → Text → World → Step DrawResult
post_draw site sess key w =
    ask (λ n. site.draw n sess.token key) (record w { draws = key ∷ w.draws })

-- The draw of DrawAvailable after a first attempt that failed.
unfoldable pub draw_again : Site → Text → Session → Text → Fault → World → Step DrawResult
draw_again site account_id sess key why w =
    if is_status why 401 || is_status why 403
    then (after (renew_lottery site account_id sess.token w)
        λ renewed w. after (client_for site renewed w) λ _ w. post_draw site renewed key w)
    else if is_transient why
    then (after (ask site.wait w) λ _ w. post_draw site sess key w)
    else (fault why, w)

unfoldable pub draw_with_recovery : Site → Text → Session → Text → World → Step DrawResult
draw_with_recovery site account_id sess key w =
    handle (post_draw site sess key w) (λ why w. draw_again site account_id sess key why w)
      (λ result w. (reply result, w))

abbrev pub drawn : ℤ → DrawResult → Option Money → DrawAvailableOutcome
drawn remaining result delta = record {
  skipped = false;
  remaining_before = remaining;
  result = some (record { label = result.label; short_label = result.short_label });
  quota_delta_usd = delta;
  message = codes "手动抽奖成功";
}

abbrev pub draw_skipped : ℤ → DrawAvailableOutcome
draw_skipped remaining = record {
  skipped = true;
  remaining_before = remaining;
  result = none;
  quota_delta_usd = none;
  message = codes "当前没有可用抽奖次数，已跳过手动抽奖";
}

-- DrawAvailable once the draws that remain are known.
unfoldable pub draw_remaining :
    Site → Text → Session → Text → Option ℤ → World → Step DrawAvailableOutcome
draw_remaining site account_id sess key none w = (fault (other (codes "抽奖次数接口没有返回 remaining")), w)
draw_remaining site account_id sess key (some remaining) w =
    if not (ltb_ℤ (pos 0) remaining)
    then (reply (draw_skipped remaining), w)
    else (after (draw_with_recovery site account_id sess key w) λ result w.
        after (quota_delta_money_for_draw site account_id result w)
          λ delta w. (reply (drawn remaining result delta), w))

-- Runner.DrawAvailable; the intent is part of what the broker answers to.
unfoldable pub draw_available : Site → Text → Text → World → Step DrawAvailableOutcome
draw_available site account_id key w =
    if is_empty (trim_space key)
    then (fault (other (codes "手动抽奖幂等键不能为空")), w)
    else (after (enabled_account account_id w.store, w)
        λ r w. after (acquire site account_id w) λ sess w. after (client_for site sess w) λ _ w.
          after (as_step (dashboard_with_recovery site account_id sess w)) λ (dashboard, sess) w.
            draw_remaining site account_id sess key (remaining_draws dashboard) w)
