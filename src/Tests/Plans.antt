-- ===== src/Tests/Plans.antt =====
-- Runs of the plan operations, and of what shows texts, logs and schedules.
use lottery.Prelude.{
  ◌≡◌, refl, ◌≤◌, ◌+◌, ◌*◌, ℕ, length, All, Bool, true, false, none, some, List, [], ◌∷◌, ◌++◌,
  arith,
}
use lottery.Prelude.Text.{Text, codes, trim_space, byte_len}
use lottery.Prelude.Dict.{lookup}
use lottery.Prelude.Result.{ok}
use lottery.State.Types.{Store, AutoDrawPlan, AutoDrawSchedule, RuntimeLog}
use lottery.State.Persist.{Env, fresh, commit, on_ok}
use lottery.State.Display.{
  contains_sensitive, is_terminal_status, normalize_display_text, normalize_finished_status,
}
use lottery.State.Display.Safety.{normalize_display_text_safe, normalize_finished_status-terminal}
use lottery.State.Plans.{
  ensure_auto_draw_plans, begin_auto_draw_plan, finish_auto_draw_plan, postpone_auto_draw_plan,
}
use lottery.State.Plans.Lifecycle.{
  stored, Call, ensure, begin, postpone, perform_all, begin_after_finish, SameTask,
  perform_all-SameTask,
}
use lottery.State.Plans.Ensured.{ensure_auto_draw_plans_lem, empty-IsKeyed}
use lottery.State.Plans.Ended.{perform_all-keeps_ended}
use lottery.State.Plans.Shape.{AreShaped, empty-AreShaped, perform_all-AreShaped}
use lottery.State.Schedules.{
  normalize_clock, print_clock, clock_minutes, set_draw_schedules, draw_schedules,
}
use lottery.State.Schedules.Clock.{normalize_clock_lem}
use lottery.State.Schedules.Normal.{AreNormal, set_draw_schedules_lem}
use lottery.Account.{Record, status_enabled}
use lottery.Tests.Data.{calm, later, broken, new_store, first_account, person, morning, log_entry}

abbrev key : Text
key = codes "2026-05-01:w1:account-a1"

-- The plan of the morning, as it is stored.
abbrev planned : AutoDrawPlan
planned = record morning {
  key = key;
  idempotency_key = codes "draw:auto:ab12";
  status = codes "pending";
  created_at = 100;
  updated_at = 100;
}

abbrev with_plan : AutoDrawPlan → Store
with_plan p = record new_store { content = record fresh { plans = (key, p) ∷ [] } }

abbrev done : AutoDrawPlan
done = record planned {
  status = codes "completed";
  message = codes "won";
  executed_at = 200;
  updated_at = 201;
}

abbrev calls : List (Env × Call)
calls = (calm, begin key) ∷ (broken, postpone key 900 []) ∷ (later, ensure (morning ∷ [])) ∷ []

begin_after_finish_example :
    begin_auto_draw_plan calm key
      (finish_auto_draw_plan later key
        (codes "completed")
        (codes "won")
        []
        none
        0
        (with_plan planned)).1
    ≡ (
      ok (done, false),
      (finish_auto_draw_plan later key
          (codes "completed")
          (codes "won")
          []
          none
          0
          (with_plan planned)).1,
    )
unfolding finish_auto_draw_plan on_ok lottery.State.Plans.finishing lookup
    lottery.Prelude.Text.text_eq trim_space normalize_finished_status
    lottery.State.Display.normalize_status lottery.State.Display.is_plan_status is_terminal_status
    normalize_display_text byte_len lottery.Prelude.Text.join_words contains_sensitive
    lottery.State.Display.contains_any lottery.Prelude.Text.contains lottery.Prelude.Text.to_lower
    lottery.Prelude.Dict.insert lottery.Prelude.Text.has_prefix lottery.Prelude.Text.is_space
    lottery.Prelude.Text.lower_rune lottery.Prelude.Text.rune_len lottery.Prelude.Text.trim_left
    lottery.Prelude.Text.trim_right commit lottery.State.Persist.encode
    lottery.State.Plans.replace_plan
begin_after_finish_example =
    begin_after_finish later calm key (codes "completed") (codes "won") [] none 0
      (with_plan planned) done refl

perform_all-keeps_ended_example : stored key (perform_all calls (with_plan done)) ≡ some done
unfolding lookup lottery.Prelude.Text.text_eq is_terminal_status
perform_all-keeps_ended_example =
    perform_all-keeps_ended calls key (with_plan done) done (tt, (tt, (tt, tt))) refl refl

perform_all-SameTask_example : SameTask planned (stored key (perform_all calls (with_plan planned)))
unfolding lookup lottery.Prelude.Text.text_eq
perform_all-SameTask_example = perform_all-SameTask calls key (with_plan planned) planned refl

perform_all-AreShaped_example : AreShaped (perform_all calls new_store).content.plans
perform_all-AreShaped_example = perform_all-AreShaped calls new_store empty-AreShaped

ensure_auto_draw_plans_lem_example :
    (length (planned ∷ planned ∷ []) ≡ 2)
    × All
        (λ p.
          lookup p.key
            (ensure_auto_draw_plans calm (morning ∷ morning ∷ []) new_store).1.content.plans
          ≡ some p)
        (planned ∷ planned ∷ [])
unfolding ensure_auto_draw_plans on_ok lottery.State.Plans.ensure_loop
    lottery.State.Plans.normalize_plan lottery.State.Display.is_date trim_space
    lottery.State.Display.normalize_status normalize_display_text byte_len
    lottery.Prelude.Text.join_words contains_sensitive lottery.State.Display.contains_any
    lottery.Prelude.Text.contains lottery.Prelude.Text.to_lower
    lottery.State.Plans.plan_idempotency_key lottery.State.Persist.new_auto_draw_idempotency_key
    lottery.State.Persist.new_id lottery.Prelude.Dict.erase lottery.Prelude.Dict.insert lookup
    lottery.Prelude.Text.has_prefix lottery.Prelude.Text.is_space lottery.Prelude.Text.lower_rune
    lottery.Prelude.Text.rune_len lottery.Prelude.Text.text_eq lottery.Prelude.Text.trim_left
    lottery.Prelude.Text.trim_right lottery.State.Display.is_plan_status is_terminal_status
    lottery.State.Display.normalize_task_type commit lottery.State.Persist.encode
    lottery.State.Plans.clear_unfinished lottery.State.Plans.erase_all
    lottery.State.Plans.insert_all lottery.State.Plans.place_plan lottery.State.Plans.plan_key
ensure_auto_draw_plans_lem_example =
    ensure_auto_draw_plans_lem calm (morning ∷ morning ∷ []) (planned ∷ planned ∷ []) new_store
      empty-IsKeyed refl

normalize_display_text_safe_example :
    (contains_sensitive (codes "a b") ≡ false) × (byte_len (codes "a b") ≤ 512)
unfolding normalize_display_text byte_len lottery.Prelude.Text.join_words trim_space
    contains_sensitive lottery.State.Display.contains_any lottery.Prelude.Text.contains
    lottery.Prelude.Text.to_lower
normalize_display_text_safe_example =
    normalize_display_text_safe (codes " a  b ") 512 (codes "a b") (omega arith) refl

normalize_finished_status-terminal_example : is_terminal_status (codes "failed") ≡ true
unfolding normalize_finished_status lottery.State.Display.normalize_status trim_space
    lottery.State.Display.is_plan_status lottery.Prelude.Text.text_eq is_terminal_status
normalize_finished_status-terminal_example =
    normalize_finished_status-terminal (codes " failed ") (codes "failed") refl

normalize_clock_lem_example :
    (h : ℕ) × (m : ℕ) × (h ≤ 23)
    × (m ≤ 59)
    × (codes "09:05" ≡ print_clock h m)
    × (normalize_clock (codes "09:05") ≡ ok (codes "09:05"))
    × (clock_minutes (codes "09:05") ≡ some (h * 60 + m))
unfolding normalize_clock lottery.State.Schedules.clock_of_parts lottery.Prelude.Numeral.split
    trim_space lottery.State.Schedules.in_range lottery.Prelude.Numeral.atoi print_clock
    lottery.Prelude.Numeral.two_digits
normalize_clock_lem_example = normalize_clock_lem (codes " 9:+5") (codes "09:05") refl

abbrev noon : AutoDrawSchedule
noon = record {
  id = codes "noon";
  kind = codes "fixed";
  start = codes "12:00";
  until = [];
  task_type = codes "draw";
  enabled = true;
  enabled_set = true;
}

abbrev home : Record
home = record person { id = first_account; status = status_enabled }

abbrev with_account : Store
with_account = record new_store { content = record fresh { accounts = (first_account, home) ∷ [] } }

set_draw_schedules_lem_example : AreNormal 1 (noon ∷ [])
unfolding set_draw_schedules on_ok lottery.State.Schedules.scheduling trim_space lookup
    lottery.Prelude.Text.text_eq lottery.State.Schedules.normalize_schedules
    lottery.State.Schedules.normalize_schedule lottery.State.Schedules.is_task_type
    lottery.Prelude.Text.to_lower normalize_clock lottery.State.Schedules.clock_of_parts
    lottery.Prelude.Numeral.split lottery.State.Schedules.in_range lottery.Prelude.Numeral.atoi
    lottery.State.Schedules.normalize_until lottery.State.Schedules.schedule_id
    lottery.Prelude.Dict.insert lottery.Prelude.Numeral.add_to_first
    lottery.Prelude.Numeral.all_digits lottery.Prelude.Numeral.digits_value
    lottery.Prelude.Numeral.negate lottery.Prelude.Numeral.parse_digits
    lottery.Prelude.Numeral.signed lottery.Prelude.Numeral.two_digits
    lottery.Prelude.Sort.insert_sorted lottery.Prelude.Sort.sort_by lottery.Prelude.Text.is_space
    lottery.Prelude.Text.lower_rune lottery.Prelude.Text.text_lt lottery.Prelude.Text.trim_left
    lottery.Prelude.Text.trim_right lottery.State.Persist.Restores.schedules_at commit
    lottery.State.Persist.encode lottery.State.Persist.new_id clock_minutes
    lottery.State.Schedules.is_earlier lottery.State.Schedules.is_used
    lottery.State.Schedules.minutes_of_parts lottery.State.Schedules.number_or_zero print_clock
    lottery.State.Schedules.schedule_before
set_draw_schedules_lem_example =
    (set_draw_schedules_lem calm first_account (noon ∷ []) (noon ∷ []) with_account refl).2

abbrev shown : RuntimeLog
shown = record log_entry { message = codes "hello"; task_type = codes "draw" }
