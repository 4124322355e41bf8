-- ===== src/Tests/Planning.antt =====
-- Runs of the planning of automatic tasks.
use lottery.Prelude.{
  ℕ, ◌+◌, ◌*◌, ◌≤◌, ◌<◌, ◌≡◌, refl, true, false, Option, none, some, List, [], ◌∷◌, ◌++◌, All,
}
use lottery.Prelude.Text.{Text, codes, text_eq}
use lottery.Prelude.Time.{Time}
use lottery.Prelude.Sort.{Pairwise}
use lottery.Account.{Record, status_enabled}
use lottery.State.Types.{AutoDrawSchedule, Store}
use lottery.State.Persist.{fresh}
use lottery.State.Plans.{auto_draw_plans}
use lottery.State.Schedules.{kind_random, clock_minutes}
use lottery.Service.AutoDraw.{
  second, day_start, at, later_of, schedule_time, plan_of, missing_today, has_plan, window_key,
}
use lottery.Service.AutoDraw.Window.{schedule_time_lem}
use lottery.Service.AutoDraw.Claims.{AreSeparate, missing_today-AreSeparate}
use lottery.Tests.Data.{new_store, first_account, day, person}

abbrev home : Record
home = record person { id = first_account; status = status_enabled }

abbrev noon_claim : AutoDrawSchedule
noon_claim = record {
  id = codes "noon";
  kind = codes "fixed";
  start = codes "12:00";
  until = [];
  task_type = codes "claim";
  enabled = true;
  enabled_set = true;
}

abbrev evening : AutoDrawSchedule
evening = record noon_claim {
  id = codes "eve";
  kind = codes "random";
  start = codes "20:00";
  until = codes "20:30";
}

abbrev with_schedules : Store
with_schedules = record new_store {
  content = record fresh {
    accounts = (first_account, home) ∷ [];
    draw_schedules = (first_account, noon_claim ∷ evening ∷ []) ∷ [];
  };
}

abbrev midnight : Time
midnight = 63913161600 * second

abbrev noon : Time
noon = midnight + 12 * 3600 * second

schedule_time_lem_example :
    (d : Time) × (start : ℕ) × (day_start day ≡ some d)
    × (clock_minutes evening.start ≡ some start)
    × (d + start * 60 * second ≤ midnight + 20 * 3600 * second + 7 * second)
    × (noon ≤ midnight + 20 * 3600 * second + 7 * second)
    × (text_eq evening.kind kind_random ≡ true
        → (until : ℕ) × (clock_minutes evening.until ≡ some until)
          × (midnight + 20 * 3600 * second + 7 * second < d + until * 60 * second)
          × (midnight + 20 * 3600 * second + 7 * second
              < later_of (d + start * 60 * second) noon + 3600 * second))
unfolding schedule_time day_start lottery.State.Display.is_date lottery.Service.AutoDraw.slot_from
    clock_minutes lottery.State.Schedules.minutes_of_parts lottery.Prelude.Numeral.split text_eq
    lottery.Service.AutoDraw.random_slot later_of lottery.Service.AutoDraw.midnight_of
    lottery.Service.AutoDraw.midnight lottery.State.Schedules.number_or_zero
    lottery.Prelude.Numeral.atoi lottery.Service.AutoDraw.offset_from
    lottery.Service.AutoDraw.random_second_offset lottery.Service.AutoDraw.window_seconds
    lottery.Prelude.Numeral.add_to_first lottery.Prelude.Numeral.all_digits
    lottery.Prelude.Numeral.digits_value lottery.Prelude.Numeral.negate
    lottery.Prelude.Numeral.parse_digits lottery.Prelude.Numeral.signed
    lottery.Service.AutoDraw.fixed_slot
schedule_time_lem_example =
    schedule_time_lem (some 1807) day evening noon (midnight + 20 * 3600 * second + 7 * second) refl

-- The second claim of the day is left out.
missing_today-AreSeparate_example :
    Pairwise AreSeparate
      (auto_draw_plans day with_schedules ++ plan_of day first_account noon_claim noon ∷ [])
    × All
        (λ p.
          has_plan (window_key p.account_id p.window_id) (auto_draw_plans day with_schedules)
          ≡ false)
        (plan_of day first_account noon_claim noon ∷ [])
unfolding missing_today lottery.Service.AutoDraw.missing_plans lottery.Service.AutoDraw.entries_of
    lottery.State.Accounts.list_enabled lottery.State.Accounts.list_accounts
    lottery.Prelude.Sort.sort_by lottery.State.Accounts.record_values text_eq
    lottery.Prelude.Text.trim_space lottery.Service.AutoDraw.for_account
    lottery.State.Schedules.draw_schedules lottery.State.Persist.Restores.schedules_at
    lottery.Prelude.Dict.lookup lottery.Service.AutoDraw.is_left_out
    lottery.Service.AutoDraw.is_claim lottery.State.Display.normalize_task_type
    lottery.Prelude.Text.to_lower lottery.Prelude.Numeral.add_to_first
    lottery.Prelude.Numeral.all_digits lottery.Prelude.Numeral.atoi
    lottery.Prelude.Numeral.digits_value lottery.Prelude.Numeral.negate
    lottery.Prelude.Numeral.parse_digits lottery.Prelude.Numeral.signed
    lottery.Prelude.Numeral.split lottery.Prelude.Sort.insert_sorted lottery.Prelude.Text.is_space
    lottery.Prelude.Text.lower_rune lottery.Prelude.Text.text_lt lottery.Prelude.Text.trim_left
    lottery.Prelude.Text.trim_right lottery.Service.AutoDraw.add_claim
    lottery.Service.AutoDraw.claimed day_start lottery.Service.AutoDraw.fixed_slot has_plan later_of
    lottery.Service.AutoDraw.midnight lottery.Service.AutoDraw.midnight_of
    lottery.Service.AutoDraw.offset_from plan_of lottery.Service.AutoDraw.random_second_offset
    lottery.Service.AutoDraw.random_slot schedule_time lottery.Service.AutoDraw.slot_from window_key
    lottery.Service.AutoDraw.window_seconds lottery.State.Accounts.record_before
    lottery.State.Display.is_date auto_draw_plans lottery.State.Plans.plan_before
    lottery.State.Plans.plan_values clock_minutes lottery.State.Schedules.is_used
    lottery.State.Schedules.minutes_of_parts lottery.State.Schedules.number_or_zero
missing_today-AreSeparate_example =
    missing_today-AreSeparate (λ n. some n) day 0 with_schedules
      (plan_of day first_account noon_claim noon ∷ []) refl tt
