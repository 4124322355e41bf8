-- ===== src/Service/AutoDraw.antt =====
-- The planning of automatic tasks of internal/service/auto_draw.go.
pub mod Window
pub mod Claims
pub mod Checkin
pub mod Execute
pub mod Tick
use lottery.Prelude.{
  ℕ, ◌+◌, ◌-◌, ◌*◌, ◌/◌, ◌%◌, Bool, true, false, ◌&&◌, ◌||◌, not, Option, none, some, List, [], ◌∷◌,
  ◌++◌, ltb, leb, ◌==◌, if◌then◌else◌, ◌≡◌, refl, ◌⊎◌, inl, inr,
}
use lottery.Prelude.Text.{Text, codes, text_eq, is_empty, trim_space}
use lottery.Prelude.Time.{Time, before, zero_time}
use lottery.Prelude.Result.{Result, ok, err}
use lottery.Account.{Record}
use lottery.State.Types.{AutoDrawPlan, AutoDrawSchedule, Store, plan_pending}
use lottery.State.Persist.{Env}
use lottery.State.Display.{is_date, normalize_task_type, task_claim}
use lottery.State.Accounts.{list_enabled}
use lottery.State.Schedules.{kind_random, clock_minutes, draw_schedules, is_used}
use lottery.State.Plans.{auto_draw_plans, ensure_auto_draw_plans}

-- An instant counts nanoseconds.
abbrev pub second : Time
second = 1000000000

abbrev digit : ℕ → ℕ
digit c = c - b'0'

abbrev is_leap : ℕ → Bool
is_leap y = y % 4 == 0 && (not (y % 100 == 0) || y % 400 == 0)

-- The days of a year before its m-th month.
abbrev days_before : ℕ → ℕ → ℕ
days_before y m =
    (if ltb 1 m then 31 else 0)
    + (if ltb 2 m then (if is_leap y then 29 else 28) else 0)
    + (if ltb 3 m then 31 else 0)
    + (if ltb 4 m then 30 else 0)
    + (if ltb 5 m then 31 else 0)
    + (if ltb 6 m then 30 else 0)
    + (if ltb 7 m then 31 else 0)
    + (if ltb 8 m then 31 else 0)
    + (if ltb 9 m then 30 else 0)
    + (if ltb 10 m then 31 else 0)
    + (if ltb 11 m then 30 else 0)

-- Midnight in Shanghai of a day of the Gregorian calendar, eight hours before that of UTC, as it has
-- been since 1991.
unfoldable pub midnight : ℕ → ℕ → ℕ → Time
midnight y m d =
    ((365 * (y - 1) + (y - 1) / 4 - (y - 1) / 100 + (y - 1) / 400 + days_before y m + (d - 1))
        * 86400
      - 28800)
    * second

unfoldable pub midnight_of : Text → Time
midnight_of (y1 ∷ y2 ∷ y3 ∷ y4 ∷ a ∷ m1 ∷ m2 ∷ b ∷ d1 ∷ d2 ∷ []) =
    midnight (digit y1 * 1000 + digit y2 * 100 + digit y3 * 10 + digit y4)
      (digit m1 * 10 + digit m2) (digit d1 * 10 + digit d2)
midnight_of _ = zero_time

-- time.ParseInLocation("2006-01-02", date, shanghaiLocation)
unfoldable pub day_start : Text → Option Time
day_start date = if is_date date then some (midnight_of date) else none

-- When a task is to run: at a time, not today any more, or a panic on a clock time without a colon.
pub data Slot : Type 0 where
  at : Time → Slot
  over panics : Slot

pub Slot-cases : (s : Slot) → ((t : Time) × (s ≡ at t)) ⊎ ((s ≡ over) ⊎ (s ≡ panics))
Slot-cases (at t) = inl (t, refl)
Slot-cases over = inr (inl refl)
Slot-cases panics = inr (inr refl)

-- randomSecondOffset, where `raw` is what the random numbers come from: rand.Int gives a number below
-- its limit, and every such number is the remainder of some `raw`. `none` is a failed draw.
unfoldable pub random_second_offset : Option ℕ → ℕ → Option ℕ
random_second_offset none limit = none
random_second_offset (some raw) limit = if limit == 0 then none else some (raw % limit)

-- The whole seconds of a window that is left, and an hour at most.
unfoldable pub window_seconds : Time → Time → ℕ
window_seconds from until =
    let seconds = (until - from) / second in if ltb 3600 seconds then 3600 else seconds

unfoldable pub later_of : Time → Time → Time
later_of start now = if before start now then now else start

unfoldable pub offset_from : Time → Option ℕ → Slot
offset_from from none = over
offset_from from (some offset) = at (from + offset * second)

-- A random time in a window of the day.
unfoldable pub random_slot : Option ℕ → Time → Time → Time → Slot
random_slot raw start until now =
    let from = later_of start now in
    if not (before from until)
    then over
    else offset_from from (random_second_offset raw (window_seconds from until))

unfoldable pub fixed_slot : Time → Time → Slot
fixed_slot start now = if before now start then at start else over

unfoldable pub slot_from : Option ℕ → Time → AutoDrawSchedule → Time → Option ℕ → Option ℕ → Slot
slot_from raw day entry now none _ = panics
slot_from raw day entry now (some start) until =
    if not (text_eq entry.kind kind_random)
    then fixed_slot (day + start * 60 * second) now
    else elim until [
      | none ↦ panics
      | some until ↦ random_slot raw (day + start * 60 * second) (day + until * 60 * second) now
    ]

-- AutoDrawScheduler.scheduleTime
unfoldable pub schedule_time : Option ℕ → Text → AutoDrawSchedule → Time → Slot
schedule_time raw date entry now = elim (day_start date) [
  | none ↦ over
  | some day ↦ slot_from raw day entry now (clock_minutes entry.start) (clock_minutes entry.until)
]

-- The schedule entries of the accounts with the IDs, in the order of the two loops of ensurePlans.
unfoldable pub for_account : Text → List AutoDrawSchedule → List (Text × AutoDrawSchedule)
for_account id [] = []
for_account id (entry ∷ entries) = (id, entry) ∷ for_account id entries

unfoldable pub entries_of : List Record → Store → List (Text × AutoDrawSchedule)
entries_of [] s = []
entries_of (r ∷ records) s =
    let id = trim_space r.id in
    if is_empty id
    then entries_of records s
    else for_account id (draw_schedules r.id s) ++ entries_of records s

unfoldable pub is_claim : Text → Bool
is_claim task_type = text_eq (normalize_task_type task_type) task_claim

-- The key of the map of existing plans, with a zero byte between its parts.
unfoldable pub window_key : Text → Text → Text
window_key account_id window_id = account_id ++ 0 ∷ window_id

unfoldable pub has_plan : Text → List AutoDrawPlan → Bool
has_plan key [] = false
has_plan key (plan ∷ plans) =
    text_eq (window_key plan.account_id plan.window_id) key || has_plan key plans

-- The accounts with a claim among the plans.
unfoldable pub claimed : List AutoDrawPlan → List Text
claimed [] = []
claimed (plan ∷ plans) =
    if is_claim plan.task_type then plan.account_id ∷ claimed plans else claimed plans

unfoldable pub plan_of : Text → Text → AutoDrawSchedule → Time → AutoDrawPlan
plan_of date account_id entry planned_at = record {
  key = [];
  date = date;
  account_id = account_id;
  window_id = entry.id;
  task_type = entry.task_type;
  planned_at = planned_at;
  idempotency_key = [];
  status = plan_pending;
  executed_at = zero_time;
  message = [];
  prize_label = [];
  quota_delta_usd = none;
  note = [];
  created_at = zero_time;
  updated_at = zero_time;
}

-- The entry is left out: disabled, a second claim of the account, or planned already.
unfoldable pub is_left_out : List AutoDrawPlan → List Text → Text → AutoDrawSchedule → Bool
is_left_out existing scheduled id entry =
    not entry.enabled
    || (is_claim entry.task_type && is_used id scheduled)
    || has_plan (window_key id entry.id) existing

unfoldable pub add_claim : Text → AutoDrawSchedule → List Text → List Text
add_claim id entry scheduled = if is_claim entry.task_type then id ∷ scheduled else scheduled

-- The loops of ensurePlans: `raw` gives the random numbers, and `scheduled` holds the accounts with a
-- claim. `none` is a panic.
unfoldable pub missing_plans :
    (ℕ → Option ℕ)
    → ℕ
    → Text
    → Time
    → List AutoDrawPlan
    → List Text
    → List (Text × AutoDrawSchedule)
    → Option (List AutoDrawPlan)
missing_plans raw n date now existing scheduled [] = some []
missing_plans raw n date now existing scheduled ((id, entry) ∷ entries) =
    let skipped = missing_plans raw (n + 1) date now existing scheduled entries in
    let taken =
      missing_plans raw (n + 1) date now existing (add_claim id entry scheduled) entries in
    if is_left_out existing scheduled id entry
    then skipped
    else elim (schedule_time (raw n) date entry now) [
      | panics ↦ none
      | over ↦ skipped
      | at t ↦ elim taken [ none ↦ none | some plans ↦ some (plan_of date id entry t ∷ plans) ]
    ]

-- The plans of ensurePlans that are not there yet.
unfoldable pub missing_today : (ℕ → Option ℕ) → Text → Time → Store → Option (List AutoDrawPlan)
missing_today raw date now s =
    let existing = auto_draw_plans date s in
    missing_plans raw 0 date now existing (claimed existing) (entries_of (list_enabled s) s)

unfoldable pub plans_after :
    Text → Result (List AutoDrawPlan) × Store → Result (List AutoDrawPlan) × Store
plans_after date (err why, s) = (err why, s)
plans_after date (ok plans, s) = (ok (auto_draw_plans date s), s)

-- AutoDrawScheduler.ensurePlans; `none` is a panic.
unfoldable pub ensure_plans :
    (ℕ → Option ℕ) → Env → Text → Time → Store → Option (Result (List AutoDrawPlan) × Store)
ensure_plans raw e date now s = elim (missing_today raw date now s) [
  | none ↦ none
  | some [] ↦ some (ok (auto_draw_plans date s), s)
  | some (plan ∷ plans) ↦ some (plans_after date (ensure_auto_draw_plans e (plan ∷ plans) s))
]

new_year : day_start (codes "2026-01-01") ≡ some (63902793600 * second)
unfolding day_start midnight_of midnight is_date
new_year = refl
