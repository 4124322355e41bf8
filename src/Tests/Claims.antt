-- ===== src/Tests/Claims.antt =====
-- Runs of the daily claim.
use lottery.Prelude.{
  ◌≤◌, ◌≡◌, refl, ◌+◌, inl, inr, true, false, none, some, List, [], ◌∷◌, length, arith,
}
use lottery.Prelude.Text.{Text, codes, trim_space}
use lottery.Prelude.Int.{pos}
use lottery.Prelude.Float.{finite}
use lottery.Prelude.Dict.{lookup}
use lottery.Account.{Record, status_enabled}
use lottery.State.Types.{Action, action_daily_claim}
use lottery.State.Persist.{Env, fresh}
use lottery.State.Actions.{action_key, new_action}
use lottery.Website.{DrawLimit, Dashboard, api}
use lottery.Service.{Session, Reply, reply, fault, Site, World}
use lottery.Service.DailyClaim.{claim_daily}
use lottery.Service.DailyClaim.Guarded.{claim_daily-IsQuiet}
use lottery.Service.DailyClaim.Quiet.{IsQuiet}
use lottery.Service.DailyClaim.Ahead.{claim_daily-IsGuarded}
use lottery.Service.DailyClaim.Few.{claim_daily-PostsAtMost}
use lottery.Service.DailyClaim.Marked.{HasKey, IsGuarded}
use lottery.Tests.Data.{calm, new_store, first_account, day, person}

abbrev pub sess : Session
sess = record { token = codes "t"; cookies = []; user_id = pos 7 }

abbrev no_limit : DrawLimit
no_limit = record {
  free_limit = none;
  unlocked = none;
  free_used = none;
  daily_used = none;
  earned_remaining = none;
  purchased_remaining = none;
  remaining = some (pos 1);
  locked_remaining = none;
  unlock_cost = none;
  status = [];
  day_key = [];
}

abbrev pub board : Dashboard
board = record {
  eligibility = record {
    remaining = none;
    spend_bonus_draws = none;
    today_spend = none;
    daily_used = none;
    draw_limit = no_limit;
  };
  bonus_draws = none;
  spend_tiers = [];
  lucky = [];
  purchase = [];
  draw_limit = no_limit;
}

-- The token is rejected once: the claim is posted twice.
abbrev pub site : Site
site = record {
  today = λ n. day;
  env = λ n. calm;
  acquire = λ n. reply sess;
  renew_lottery = λ n token. reply sess;
  health = λ n. some (codes "healthy");
  client_for = λ n s. reply tt;
  wait = λ n. reply tt;
  dashboard = λ n token. reply board;
  claim = λ n token. fault (api 401 (codes "expired"));
  now = λ n. 500 + n;
  purchase = λ n token key. reply (record { status = [] });
  unlock = λ n token key. reply (record { status = [] });
  marshal = λ report. codes "{}";
  renew_parent = λ n token. reply sess;
  others = λ n s. s;
  checkin = λ n token. fault (api 401 (codes "expired"));
  checkin_status =
      λ n token. reply (record { checked_in_today = true; today_quota_awarded = none });
  eligibility = λ n token user.
      reply (record { can_checkin = true; remaining = finite (pos 0); required = finite (pos 0) });
  status = λ n token. reply (record { quota_per_unit = finite (pos 0) });
  draw = λ n token key. fault (api 401 (codes "expired"));
}

abbrev pub home : Record
home = record person { id = first_account; status = status_enabled }

abbrev pub start : World
start = record {
  store = record new_store { content = record fresh { accounts = (first_account, home) ∷ [] } };
  asked = 0;
  posts = [];
  orders = [];
  checkins = [];
  draws = [];
}

abbrev key : Text
key = action_key (trim_space first_account) (trim_space day) action_daily_claim

start-HasKey : HasKey key start.store
unfolding lookup
start-HasKey a h = absurd (ground arith)

claim_daily-IsGuarded_example : IsGuarded key (claim_daily site first_account start).1
claim_daily-IsGuarded_example = claim_daily-IsGuarded site first_account start start-HasKey tt

abbrev pending_claim : Action
pending_claim = record (new_action calm key first_account day action_daily_claim (codes "k")) {
  side_effect_started = true;
}

abbrev restarted : World
restarted = record start {
  store = record new_store {
    content = record fresh {
      accounts = (first_account, home) ∷ [];
      actions = (key, pending_claim) ∷ [];
    };
  };
}

claim_daily-IsQuiet_example : IsQuiet restarted (claim_daily site first_account restarted).1
unfolding lookup lottery.Prelude.Text.text_eq action_key trim_space
claim_daily-IsQuiet_example =
    claim_daily-IsQuiet site first_account restarted pending_claim refl (inr refl)

claim_daily-PostsAtMost_example : length (claim_daily site first_account start).1.posts ≤ 0 + 2
claim_daily-PostsAtMost_example = claim_daily-PostsAtMost site first_account start

-- Both posts of the first run are made.
posted_twice : length (claim_daily site first_account start).1.posts ≡ 2
unfolding claim_daily lottery.Service.after lottery.Service.handle lottery.Service.enabled_account
    lottery.State.Accounts.get_account lookup lottery.Prelude.Text.text_eq trim_space
    lottery.Prelude.Text.trim_left lottery.Prelude.Text.trim_right lottery.Prelude.Text.is_space
    lottery.Service.on_store lottery.Service.of_result lottery.State.Actions.get_or_create_action
    lottery.State.Persist.on_ok lottery.State.Persist.new_idempotency_key
    lottery.State.Persist.new_id lottery.State.Persist.commit lottery.State.Persist.encode
    lottery.Service.DailyClaim.attempt_claim lottery.Service.DailyClaim.acquire_lottery_for_action
    lottery.Service.acquire lottery.Service.noted_health lottery.State.Accounts.set_auth_health
    lottery.Prelude.Dict.insert lottery.Prelude.Dict.erase lottery.Service.ask
    lottery.Service.client_for lottery.Service.as_step lottery.Service.map_reply
    lottery.Service.dashboard_with_recovery lottery.Service.recover_dashboard
    lottery.Service.ask_dashboard lottery.Service.left_with lottery.Website.remaining_draws
    lottery.Website.effective_draw_limit lottery.Website.merge_draw_limit lottery.Website.given_text
    lottery.Service.finish_action lottery.State.Actions.update_action
    lottery.State.Actions.replace_action lottery.Service.DailyClaim.prepared
    lottery.Service.start_action lottery.Service.started lottery.Service.DailyClaim.claim_started
    lottery.Service.claim_with_recovery lottery.Service.recover_claim lottery.Service.post_claim
    lottery.Website.is_status lottery.Service.claim_renewed lottery.Service.claim_again
    lottery.Service.renew_lottery lottery.Service.DailyClaim.reconcile_after_post_error
    lottery.Service.DailyClaim.has_grown lottery.Service.DailyClaim.finish_with
    lottery.Service.DailyClaim.unknown_after new_action action_key lottery.Service.safe_error
    lottery.Service.cut_bytes lottery.Service.error_text
posted_twice = refl
