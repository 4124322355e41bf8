-- ===== src/Service/AutoDraw/Window.antt =====
-- The times of scheduleTime.
use lottery.Prelude.{
  ℕ, zero, suc, ◌+◌, ◌-◌, ◌*◌, ◌≤◌, ◌<◌, ◌≡◌, inl, inr, true, Option, none, some, arith,
  Option-cases, Bool-cases,
}
use native.Mathlib.Nat.{mod-lt}
use lottery.Prelude.Text.{Text, text_eq}
use lottery.Prelude.Time.{Time, before}
use lottery.State.Types.{AutoDrawSchedule}
use lottery.State.Schedules.{kind_random, clock_minutes}
use lottery.Service.AutoDraw.{
  second, day_start, at, random_second_offset, window_seconds, later_of, offset_from, random_slot,
  fixed_slot, slot_from, schedule_time,
}

window_seconds-fit :
    (from until : Time)
    → (window_seconds from until ≤ 3600) × (window_seconds from until * second ≤ until - from)
unfolding window_seconds
window_seconds-fit from until = ground arith

random_second_offset-lt :
    (raw : Option ℕ) (limit offset : ℕ)
    → random_second_offset raw limit ≡ some offset
    → offset < limit
unfolding random_second_offset
random_second_offset-lt none limit offset h = absurd (ground arith)
random_second_offset-lt (some raw) zero offset h = absurd (ground arith)
random_second_offset-lt (some raw) (suc limit) offset h =
    ground (arith, mod-lt raw {m = suc limit} (omega arith))

random_slot_at :
    (start until now t offset : ℕ)
    → before (later_of start now) until ≡ true
    → later_of start now + offset * second ≡ t
    → offset < window_seconds (later_of start now) until
    → (start ≤ t) × (now ≤ t) × (t < until) × (t < later_of start now + 3600 * second)
unfolding later_of
random_slot_at start until now t offset fits same lt =
    ground (arith, window_seconds-fit (later_of start now) until)

-- A random time is drawn from what is left of the window, and from its first hour.
random_slot_lem :
    (raw : Option ℕ) (start until now t : Time)
    → random_slot raw start until now ≡ at t
    → (start ≤ t) × (now ≤ t) × (t < until) × (t < later_of start now + 3600 * second)
unfolding random_slot offset_from
random_slot_lem raw start until now t h =
    let from = later_of start now in
    elim (Option-cases (random_second_offset raw (window_seconds from until))) [
      | inl q ↦ absurd (ground arith)
      | inr (offset, q) ↦
          let lt = random_second_offset-lt raw (window_seconds from until) offset q in
          random_slot_at start until now t offset (ground arith) (ground arith) lt
    ]

-- A task is planned only if its day is a date and its start a clock time. It runs neither before the
-- start nor before now, a random one before the end of its window and within an hour of the later of
-- start and now.
pub schedule_time_lem :
    (raw : Option ℕ) (date : Text) (entry : AutoDrawSchedule) (now t : Time)
    → schedule_time raw date entry now ≡ at t
    → (day : Time) × (start : ℕ) × (day_start date ≡ some day)
      × (clock_minutes entry.start ≡ some start)
      × (day + start * 60 * second ≤ t)
      × (now ≤ t)
      × (text_eq entry.kind kind_random ≡ true
          → (until : ℕ) × (clock_minutes entry.until ≡ some until)
            × (t < day + until * 60 * second)
            × (t < later_of (day + start * 60 * second) now + 3600 * second))
unfolding schedule_time slot_from fixed_slot
schedule_time_lem raw date entry now t h = elim (Option-cases (day_start date)) [
  | inl q ↦ absurd (ground arith)
  | inr (day, q) ↦ elim (Option-cases (clock_minutes entry.start)) [
    | inl r ↦ absurd (ground arith)
    | inr (start, r) ↦ elim (Bool-cases (text_eq entry.kind kind_random)) [
      | inr k ↦ (day, start, q, r, ground arith, ground arith, λ k'. absurd (ground arith))
      | inl k ↦ elim (Option-cases (clock_minutes entry.until)) [
        | inl u ↦ absurd (ground arith)
        | inr (until, u) ↦
            let facts =
              random_slot_lem raw (day + start * 60 * second) (day + until * 60 * second) now t
                (ground arith) in
            (day, start, q, r, facts.0, facts.1, λ _. (until, u, facts.2, facts.3))
      ]
    ]
  ]
]
