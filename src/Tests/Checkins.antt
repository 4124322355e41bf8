-- ===== src/Tests/Checkins.antt =====
-- Runs of the check-in and of the manual draw.
use lottery.Prelude.{◌≡◌, refl, sym, ap, inl, true, none, some, List, [], ◌∷◌, length, arith}
use lottery.Prelude.Text.{Text, codes, trim_space}
use lottery.Prelude.Dict.{lookup}
use lottery.State.Types.{Action, action_checkin, action_failed}
use lottery.State.Persist.{fresh}
use lottery.State.Actions.{new_action}
use lottery.Website.{CheckinStatus}
use lottery.Service.{Reply, fault, reply, Site, World, enabled_account}
use lottery.Service.DailyClaim.Marked.{HasKey}
use lottery.Service.DailyClaim.Quiet.{IsCalm}
use lottery.Service.Queries.{
  query_dashboard, query_checkin_status, query_draw_count, queries-IsCalm,
}
use lottery.Service.Checkin.{checkin}
use lottery.Service.Checkin.Calm.{Gives}
use lottery.Service.Checkin.Posted.{Posted}
use lottery.Service.Checkin.Recorded.{checkin-Posted, checkin_key}
use lottery.Service.Checkin.Resumed.{checkin-PostsNothing}
use lottery.Service.ManualDraw.{draw_available}
use lottery.Service.ManualDraw.Kept.{draw_available-IsReported, MaySpend, IsReported}
use lottery.Tests.Claims.{site, start, home}
use lottery.Tests.Data.{calm, new_store, first_account, day}

abbrev key : Text
key = checkin_key site first_account start

start-enabled : enabled_account first_account start.store ≡ reply home
unfolding enabled_account lottery.State.Accounts.get_account lookup lottery.Prelude.Text.text_eq
    trim_space
start-enabled = refl

start-HasKey : HasKey key start.store
unfolding lookup
start-HasKey a h = absurd (ground arith)

checkin-Posted_example : Posted key [] (checkin site first_account start).1.checkins
checkin-Posted_example =
    checkin-Posted site first_account start home start-enabled start-HasKey
      (record { marks = λ n s m. m; keys = λ n s h. h })

abbrev failed_checkin : Action
failed_checkin = record (new_action calm key first_account day action_checkin (codes "k")) {
  status = action_failed;
  side_effect_started = true;
}

abbrev restarted : World
restarted = record start {
  store = record new_store {
    content = record fresh {
      accounts = (first_account, home) ∷ [];
      actions = (key, failed_checkin) ∷ [];
    };
  };
}

told :
    (status : CheckinStatus)
    → site.checkin_status 0 [] ≡ reply status
    → status.checked_in_today ≡ true
told status q =
    ap
      (λ (r : Reply CheckinStatus). elim r [
        | reply known ↦ known.checked_in_today
        | fault why ↦ true
      ])
      (sym q)

checkin-PostsNothing_example : (checkin site first_account restarted).1.checkins ≡ []
unfolding enabled_account lottery.State.Accounts.get_account lookup lottery.Prelude.Text.text_eq
    trim_space lottery.State.Actions.action_key
checkin-PostsNothing_example =
    checkin-PostsNothing site first_account restarted home failed_checkin refl refl (λ q. inl refl)
      (λ n token status failed q. told status q)

draw_available-IsReported_example :
    Gives
      (MaySpend (codes "k") [])
      (IsReported site (codes "k") [])
      (draw_available site first_account (codes "k") start)
draw_available-IsReported_example = draw_available-IsReported site first_account (codes "k") start

-- The token is rejected twice: both check-ins of the first run are posted.
checked_in_twice : length (checkin site first_account start).1.checkins ≡ 2
unfolding checkin lottery.Prelude.Dict.erase lottery.Prelude.Dict.insert lookup
    lottery.Prelude.Text.is_space lottery.Prelude.Text.rune_len lottery.Prelude.Text.text_eq
    lottery.Prelude.Text.trim_left lottery.Prelude.Text.trim_right lottery.Service.acquire
    lottery.Service.after lottery.Service.ask lottery.Service.client_for lottery.Service.cut_bytes
    enabled_account lottery.Service.error_text lottery.Service.finish_action lottery.Service.handle
    lottery.Service.left_with lottery.Service.noted_health lottery.Service.of_result
    lottery.Service.on_store lottery.Service.safe_error lottery.Service.start_action
    lottery.Service.started lottery.State.Accounts.get_account
    lottery.State.Accounts.set_auth_health lottery.State.Actions.action_key
    lottery.State.Actions.get_or_create_action lottery.State.Actions.replace_action
    lottery.State.Actions.update_action lottery.State.Persist.commit lottery.State.Persist.encode
    lottery.State.Persist.new_id lottery.State.Persist.new_idempotency_key
    lottery.State.Persist.on_ok lottery.Website.is_status new_action trim_space
    lottery.Service.renew_parent lottery.Website.is_transient
    lottery.Service.Checkin.proceed_checkin lottery.Service.Checkin.attempt_checkin
    lottery.Service.Checkin.acquire_parent_for_action lottery.Service.Checkin.check_eligibility
    lottery.Service.Checkin.eligibility_with_recovery lottery.Service.Checkin.ask_eligibility
    lottery.Service.Checkin.recover_eligibility lottery.Service.Checkin.run_checkin
    lottery.Service.Checkin.checkin_started lottery.Service.Checkin.post_checkin
    lottery.Service.Checkin.is_auth_error lottery.Service.Checkin.checkin_again
    lottery.Service.Checkin.checkin_failed lottery.Service.Checkin.is_unknown
    lottery.Service.Checkin.is_context_error lottery.Service.Checkin.record_action_error
    lottery.Service.Checkin.with_error
checked_in_twice = refl

-- Nor is the second draw accepted.
drawn_twice :
    (draw_available (site) first_account (codes "k") start).1.draws ≡ codes "k" ∷ codes "k" ∷ []
unfolding draw_available lottery.Prelude.Dict.erase lottery.Prelude.Dict.insert lookup
    lottery.Prelude.Text.is_space lottery.Prelude.Text.text_eq lottery.Prelude.Text.trim_left
    lottery.Prelude.Text.trim_right lottery.Service.acquire lottery.Service.after
    lottery.Service.as_step lottery.Service.ask lottery.Service.ask_dashboard
    lottery.Service.client_for lottery.Service.dashboard_with_recovery enabled_account
    lottery.Service.handle lottery.Service.left_with lottery.Service.map_reply
    lottery.Service.noted_health lottery.Service.recover_dashboard lottery.Service.renew_lottery
    lottery.State.Accounts.get_account lottery.State.Accounts.set_auth_health
    lottery.State.Persist.commit lottery.State.Persist.encode lottery.State.Persist.on_ok
    lottery.Website.effective_draw_limit lottery.Website.given_text lottery.Website.is_status
    lottery.Website.merge_draw_limit lottery.Website.remaining_draws trim_space
    lottery.Service.ManualDraw.draw_remaining lottery.Service.ManualDraw.draw_with_recovery
    lottery.Service.ManualDraw.post_draw lottery.Service.ManualDraw.draw_again
drawn_twice = refl

queries-IsCalm_example :
    IsCalm start (query_dashboard site first_account start).1
    × IsCalm start (query_checkin_status site first_account start).1
    × IsCalm start (query_draw_count site first_account start).1
queries-IsCalm_example = queries-IsCalm site first_account start
