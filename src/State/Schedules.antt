-- ===== src/State/Schedules.antt =====
-- The schedules of internal/state/schedules.go: when an account's tasks run.
pub mod Clock
pub mod Normal
use lottery.Prelude.{
  ℕ, ◌+◌, ◌*◌, Bool, true, false, ◌&&◌, ◌||◌, not, Option, none, some, List, [], ◌∷◌, ◌++◌, ltb,
  leb, ◌==◌, if◌then◌else◌, length, is_some, ◌≡◌, refl,
}
use lottery.Prelude.Text.{Text, codes, text_eq, text_lt, is_empty, trim_space, to_lower}
use lottery.Prelude.Int.{ℤ, pos, negsuc}
use lottery.Prelude.Dict.{Dict, lookup, insert}
use lottery.Prelude.Sort.{sort_by}
use lottery.Prelude.Numeral.{atoi, split, two_digits}
use lottery.Prelude.Result.{
  Result, ok, err, ◌>>=◌, ◌>>◌, reject_if, or_fail, required, not_found, too_many_schedules,
  invalid_task_type, invalid_kind, invalid_clock, end_given, window_order, duplicate_schedule_id,
}
use lottery.State.Types.{AutoDrawSchedule, Store, DiskState}
use lottery.State.Persist.{Env, new_id, commit, on_ok}
use lottery.State.Persist.Restores.{schedules_at}
use lottery.State.Display.{task_draw, task_claim, task_checkin}

abbrev pub kind_fixed : Text
kind_fixed = codes "fixed"

abbrev pub kind_random : Text
kind_random = codes "random"

abbrev pub max_draw_schedules_per_account : ℕ
max_draw_schedules_per_account = 12

abbrev pub draw_schedule_id_prefix : Text
draw_schedule_id_prefix = codes "sched-"

-- A number from 0 to `top`.
unfoldable pub in_range : ℕ → Option ℤ → Option ℕ
in_range top none = none
in_range top (some (negsuc n)) = none
in_range top (some (pos n)) = if ltb top n then none else some n

unfoldable pub print_clock : ℕ → ℕ → Text
print_clock hour minute = two_digits hour ++ b':' ∷ two_digits minute

unfoldable pub clock_of_parts : List Text → Result Text
clock_of_parts (h ∷ m ∷ []) = do
  hour ← or_fail (in_range 23 (atoi h)) invalid_clock
  minute ← or_fail (in_range 59 (atoi m)) invalid_clock
  ok (print_clock hour minute)
clock_of_parts _ = err invalid_clock

-- normalizeClock
unfoldable pub normalize_clock : Text → Result Text
normalize_clock value = clock_of_parts (split b':' (trim_space value))

-- strconv.Atoi with its error ignored. A negative number, which no normalized clock has, counts as 0.
unfoldable pub number_or_zero : Option ℤ → ℕ
number_or_zero (some (pos n)) = n
number_or_zero (some (negsuc n)) = 0
number_or_zero none = 0

unfoldable pub minutes_of_parts : List Text → Option ℕ
minutes_of_parts (h ∷ m ∷ rest) = some (number_or_zero (atoi h) * 60 + number_or_zero (atoi m))
minutes_of_parts _ = none

-- clockMinutes; `none` is the panic on a text without a colon.
unfoldable pub clock_minutes : Text → Option ℕ
clock_minutes value = minutes_of_parts (split b':' value)

unfoldable pub is_earlier : Option ℕ → Option ℕ → Bool
is_earlier (some a) (some b) = ltb a b
is_earlier none _ = false
is_earlier (some a) none = false

-- The end of an entry: none for a fixed time, and after the start for a random one.
unfoldable pub normalize_until : Text → Text → Text → Result Text
normalize_until kind start until =
    if text_eq kind kind_fixed
    then (do reject_if (not (is_empty (trim_space until))) end_given; ok [])
    else do
      until ← normalize_clock until
      reject_if (not (is_earlier (clock_minutes start) (clock_minutes until))) window_order
      ok until

unfoldable pub is_task_type : Text → Bool
is_task_type task_type =
    text_eq task_type task_draw || text_eq task_type task_claim || text_eq task_type task_checkin

unfoldable pub is_used : Text → List Text → Bool
is_used id [] = false
is_used id (used ∷ rest) = text_eq used id || is_used id rest

unfoldable pub schedule_id : Env → ℕ → Text → Result Text
schedule_id e n given = if is_empty given then new_id e n draw_schedule_id_prefix else ok given

-- normalizeDrawSchedule, for the n-th entry of a call; the caller adds the ID to those in use.
unfoldable pub normalize_schedule : Env → ℕ → AutoDrawSchedule → List Text → Result AutoDrawSchedule
normalize_schedule e n entry used = do
  let task_type = to_lower (trim_space entry.task_type)
  let task_type = if is_empty task_type then task_draw else task_type
  reject_if (not (is_task_type task_type)) invalid_task_type
  let kind = to_lower (trim_space entry.kind)
  reject_if (not (text_eq kind kind_fixed) && not (text_eq kind kind_random)) invalid_kind
  start ← normalize_clock entry.start
  let enabled = if not entry.enabled_set && is_empty entry.task_type then true else entry.enabled
  until ← normalize_until kind start entry.until
  id ← schedule_id e n (trim_space entry.id)
  reject_if (is_used id used) duplicate_schedule_id
  ok (record {
    id = id;
    kind = kind;
    start = start;
    until = until;
    task_type = task_type;
    enabled = enabled;
    enabled_set = true;
  })

-- The loop of SetDrawSchedules, with the IDs in use.
unfoldable pub normalize_schedules :
    Env → ℕ → List AutoDrawSchedule → List Text → Result (List AutoDrawSchedule)
normalize_schedules e n [] used = ok []
normalize_schedules e n (entry ∷ entries) used = do
  normalized ← normalize_schedule e n entry used
  rest ← normalize_schedules e (n + 1) entries (normalized.id ∷ used)
  ok (normalized ∷ rest)

unfoldable pub schedule_before : AutoDrawSchedule → AutoDrawSchedule → Bool
schedule_before p q =
    if not (text_eq p.start q.start) then text_lt p.start q.start else text_lt p.id q.id

-- Store.DrawSchedules
unfoldable pub draw_schedules : Text → Store → List AutoDrawSchedule
draw_schedules account_id s = schedules_at (trim_space account_id) s.content.draw_schedules

abbrev pub with_schedules : Store → Dict (List AutoDrawSchedule) → DiskState
with_schedules s schedules = record (s.content) { draw_schedules = schedules }

-- What SetDrawSchedules checks before it writes: the entries that it stores.
unfoldable pub scheduling :
    Env → Text → List AutoDrawSchedule → Store → Result (List AutoDrawSchedule)
scheduling e id entries s = do
  reject_if (is_empty id) required
  reject_if (not (is_some (lookup id s.content.accounts))) not_found
  reject_if (ltb max_draw_schedules_per_account (length entries)) too_many_schedules
  normalized ← normalize_schedules e 0 entries []
  ok (sort_by schedule_before normalized)

-- Store.SetDrawSchedules. The rollback writes the previous list back, as the empty list if there was
-- none.
unfoldable pub set_draw_schedules :
    Env → Text → List AutoDrawSchedule → Store → Result (List AutoDrawSchedule) × Store
set_draw_schedules e account_id entries s =
    let id = trim_space account_id in
    on_ok (scheduling e id entries s) s λ normalized.
      let written = insert id normalized s.content.draw_schedules in
      commit e (with_schedules s written)
        (with_schedules s (insert id (schedules_at id s.content.draw_schedules) written)) normalized
        s

odd_clock : normalize_clock (codes " +9:-0 ") ≡ ok (codes "09:00")
unfolding normalize_clock clock_of_parts in_range print_clock atoi split trim_space two_digits
odd_clock = refl
