-- ===== src/Tests/Purchases.antt =====
-- Runs of the purchases.
use lottery.Prelude.{◌≡◌, refl, inl, inr, true, none, some, List, [], ◌∷◌, length, arith}
use lottery.Prelude.Text.{Text, codes, trim_space}
use lottery.Prelude.Dict.{lookup}
use lottery.State.Types.{Action, action_draw_purchase}
use lottery.State.Persist.{fresh}
use lottery.State.Actions.{action_key, new_action}
use lottery.Website.{api}
use lottery.Service.{fault, Site, World}
use lottery.Service.DailyClaim.Marked.{HasKey}
use lottery.Service.Purchase.{draw_purchase}
use lottery.Service.Purchase.Backed.{Sent}
use lottery.Service.Purchase.Calm.{SendsNothing}
use lottery.Service.Purchase.Draw.{purchase_draw}
use lottery.Service.Purchase.Sent.{call-Sent}
use lottery.Service.Purchase.Resumed.{call-SendsNothing}
use lottery.Tests.Claims.{site, start, home}
use lottery.Tests.Data.{calm, new_store, first_account, day}

-- The token is rejected twice.
abbrev shop : Site
shop = record site { purchase = λ n token key. fault (api 403 (codes "expired")) }

abbrev key : Text
key = action_key (trim_space first_account) (trim_space day) action_draw_purchase

start-HasKey : HasKey key start.store
unfolding lookup
start-HasKey a h = absurd (ground arith)

call-Sent_example : Sent key [] (purchase_draw shop first_account start).1.orders
call-Sent_example = call-Sent draw_purchase shop first_account start start-HasKey

abbrev sent_order : Action
sent_order = record (new_action calm key first_account day action_draw_purchase (codes "k")) {
  side_effect_started = true;
}

abbrev restarted : World
restarted = record start {
  store = record new_store {
    content = record fresh {
      accounts = (first_account, home) ∷ [];
      actions = (key, sent_order) ∷ [];
    };
  };
}

call-SendsNothing_example : SendsNothing restarted (purchase_draw shop first_account restarted).1
unfolding lookup lottery.Prelude.Text.text_eq action_key trim_space
call-SendsNothing_example =
    call-SendsNothing draw_purchase shop first_account restarted sent_order refl (inr refl)

-- Both orders of the first run are sent.
sent_twice : length (purchase_draw shop first_account start).1.orders ≡ 2
unfolding lottery.Service.after lottery.Service.handle lottery.Service.enabled_account
    lottery.State.Accounts.get_account lookup lottery.Prelude.Text.text_eq trim_space
    lottery.Prelude.Text.trim_left lottery.Prelude.Text.trim_right lottery.Prelude.Text.is_space
    lottery.Service.on_store lottery.Service.of_result lottery.State.Actions.get_or_create_action
    lottery.State.Persist.on_ok lottery.State.Persist.new_idempotency_key
    lottery.State.Persist.new_id lottery.State.Persist.commit lottery.State.Persist.encode
    lottery.Service.acquire lottery.Service.noted_health lottery.State.Accounts.set_auth_health
    lottery.Prelude.Dict.insert lottery.Prelude.Dict.erase lottery.Service.ask
    lottery.Service.client_for lottery.Service.as_step lottery.Service.map_reply
    lottery.Service.dashboard_with_recovery lottery.Service.recover_dashboard
    lottery.Service.ask_dashboard lottery.Service.left_with lottery.Website.remaining_draws
    lottery.Website.effective_draw_limit lottery.Website.merge_draw_limit lottery.Website.given_text
    lottery.Service.finish_action lottery.State.Actions.update_action
    lottery.State.Actions.replace_action lottery.Service.start_action lottery.Service.started
    lottery.Website.is_status lottery.Service.renew_lottery lottery.Service.safe_error
    lottery.Service.cut_bytes lottery.Service.error_text purchase_draw action_key new_action
    lottery.Service.DailyClaim.acquire_lottery_for_action
    lottery.Service.Purchase.Draw.proceed_purchase lottery.Service.Purchase.Draw.attempt_purchase
    lottery.Service.Purchase.Draw.order_draw lottery.Service.Purchase.purchase_price
    lottery.Service.Purchase.Draw.purchase_prepared lottery.Service.Purchase.purchased_today
    lottery.Service.Purchase.purchased_remaining lottery.Service.Purchase.place_order
    lottery.Service.Purchase.order_with_recovery lottery.Service.Purchase.recover_order
    lottery.Service.Purchase.post_order lottery.Service.Purchase.order_renewed
    lottery.Service.Purchase.order_again lottery.Service.Purchase.is_explicit_insufficient
    lottery.Service.Purchase.finish_purchase lottery.Service.Purchase.refused
    lottery.Service.Purchase.Draw.reconcile_purchase_after_post_error
    lottery.Service.Purchase.proves_purchase lottery.Service.Purchase.finish_purchase_without_proof
    lottery.Service.Purchase.without_proof lottery.Service.Purchase.is_operation_pending
    lottery.Service.Purchase.purchase_outcome lottery.Service.Activity.first_map_int
    lottery.Service.Activity.first_map_float lottery.Service.first_non_empty
    lottery.Prelude.Text.to_lower lottery.Prelude.Text.contains lottery.Prelude.Text.has_prefix
    lottery.Prelude.Text.rune_len
sent_twice = refl
