-- ===== src/State/Schedules/Normal.antt =====
-- What SetDrawSchedules stores.
use lottery.Prelude.{
  ℕ, suc, ◌+◌, ◌≤◌, ◌≡◌, refl, ◌∙◌, ap, subst, ◌⊎◌, inl, inr, true, false, List, [], ◌∷◌, arith,
  Bool-cases, length, All, is_some,
}
use lottery.Prelude.Text.{Text, text_eq, text_eq_iff, text_eq_refl, trim_space, to_lower}
use lottery.Prelude.Dict.{Dict, lookup, insert, lookup-insert}
use lottery.Prelude.Sort.{Pairwise, sort_by, sort_by-All, sort_by-Pairwise, length-sort_by}
use lottery.Prelude.Result.{ok, Result-cases}
use lottery.State.Types.{AutoDrawSchedule, Store}
use lottery.State.Persist.{Env, commit, on_ok}
use lottery.State.Persist.Restores.{
  Restores, schedules_at, Same-draw_schedules, commit-Restores, on_ok-Restores,
}
use lottery.State.Schedules.{
  kind_fixed, kind_random, normalize_clock, clock_minutes, is_earlier, normalize_until,
  is_task_type, is_used, normalize_schedule, normalize_schedules, schedule_before, draw_schedules,
  scheduling, set_draw_schedules,
}
use lottery.State.Schedules.Clock.{normalize_clock_lem}

-- A fixed entry has no end. A random one has an end that is a clock time after its start.
abbrev pub HasUntil : AutoDrawSchedule → Type 0
HasUntil entry =
    ((entry.kind ≡ kind_fixed) × (entry.until ≡ []))
    ⊎ ((entry.kind ≡ kind_random)
        × (normalize_clock entry.until ≡ ok entry.until)
        × (is_earlier (clock_minutes entry.start) (clock_minutes entry.until) ≡ true))

pub record IsNormal (entry : AutoDrawSchedule) : Type 0 where
  pub start : normalize_clock entry.start ≡ ok entry.start
  pub until : HasUntil entry
  pub task : is_task_type entry.task_type ≡ true
  pub set : entry.enabled_set ≡ true

normalize_until_lem :
    (kind start given until : Text)
    → (text_eq kind kind_fixed ≡ true) ⊎ (text_eq kind kind_random ≡ true)
    → normalize_until kind start given ≡ ok until
    → ((kind ≡ kind_fixed) × (until ≡ []))
      ⊎ ((kind ≡ kind_random)
          × (normalize_clock until ≡ ok until)
          × (is_earlier (clock_minutes start) (clock_minutes until) ≡ true))
unfolding normalize_until
normalize_until_lem kind start given until known h = elim (Bool-cases (text_eq kind kind_fixed)) [
  | inl e ↦ inl ((text_eq_iff kind kind_fixed).0 e, ground arith)
  | inr e ↦ elim (Result-cases (normalize_clock given)) [
    | inr (why, q) ↦ absurd (ground arith)
    | inl (c, q) ↦ inr (
      ground (arith, text_eq_iff kind kind_random),
      ground (arith, (normalize_clock_lem given c q).5),
      ground arith,
    )
  ]
]

normalize_schedule-IsNormal :
    (e : Env) (n : ℕ) (entry normalized : AutoDrawSchedule) (used : List Text)
    → normalize_schedule e n entry used ≡ ok normalized
    → IsNormal normalized
unfolding normalize_schedule
normalize_schedule-IsNormal e n entry normalized used h =
    elim (Result-cases (normalize_clock entry.start)) [
      | inr (why, q) ↦ absurd (ground arith)
      | inl (c, q) ↦
          let canonical = (normalize_clock_lem entry.start c q).5 in
          elim (Result-cases (normalize_until (to_lower (trim_space entry.kind)) c entry.until)) [
            | inr (why, u) ↦ absurd (ground arith)
            | inl (until, u) ↦ ground (
              arith,
              canonical,
              normalize_until_lem (to_lower (trim_space entry.kind)) c entry.until until,
            )
          ]
    ]

normalize_schedule-unused :
    (e : Env) (n : ℕ) (entry normalized : AutoDrawSchedule) (used : List Text)
    → normalize_schedule e n entry used ≡ ok normalized
    → is_used normalized.id used ≡ false
unfolding normalize_schedule
normalize_schedule-unused e n entry normalized used h = ground arith

abbrev pub DifferentIds : AutoDrawSchedule → AutoDrawSchedule → Type 0
DifferentIds p q = text_eq p.id q.id ≡ false

DifferentIds-sym : (p q : AutoDrawSchedule) → DifferentIds p q → DifferentIds q p
DifferentIds-sym p q h = ground (arith, text_eq_iff p.id q.id, text_eq_iff q.id p.id)

-- An ID among those in use is not among those of the rest.
Unused-mono :
    (id other : Text) (used : List Text)
    → is_used id (other ∷ used) ≡ false
    → is_used id used ≡ false
unfolding is_used
Unused-mono id other used h = ground arith

All-Unused_mono :
    (other : Text) (used : List Text) (rest : List AutoDrawSchedule)
    → All (λ t. is_used t.id (other ∷ used) ≡ false) rest
    → All (λ t. is_used t.id used ≡ false) rest
All-Unused_mono other used [] h = tt
All-Unused_mono other used (t ∷ rest) h =
    (Unused-mono t.id other used h.0, All-Unused_mono other used rest h.1)

normalize_schedules-unused :
    (e : Env) (n : ℕ) (entries normalized : List AutoDrawSchedule) (used : List Text)
    → normalize_schedules e n entries used ≡ ok normalized
    → All (λ p. is_used p.id used ≡ false) normalized
unfolding normalize_schedules
normalize_schedules-unused e n [] normalized used h = ground arith
normalize_schedules-unused e n (entry ∷ entries) normalized used h =
    elim (Result-cases (normalize_schedule e n entry used)) [
      | inr (why, q) ↦ absurd (ground arith)
      | inl (p, q) ↦ elim (Result-cases (normalize_schedules e (n + 1) entries (p.id ∷ used))) [
        | inr (why, r) ↦ absurd (ground arith)
        | inl (rest, r) ↦
            let same : p ∷ rest ≡ normalized = ground arith in
            subst (All (λ t. is_used t.id used ≡ false)) same (
              normalize_schedule-unused e n entry p used q,
              All-Unused_mono p.id used rest
                  (normalize_schedules-unused e (n + 1) entries rest (p.id ∷ used) r),
            )
      ]
    ]

All-DifferentIds :
    (p : AutoDrawSchedule) (used : List Text) (rest : List AutoDrawSchedule)
    → All (λ t. is_used t.id (p.id ∷ used) ≡ false) rest
    → All (DifferentIds p) rest
unfolding is_used
All-DifferentIds p used [] h = tt
All-DifferentIds p used (t ∷ rest) h = (ground arith, All-DifferentIds p used rest h.1)

normalize_schedules_lem :
    (e : Env) (n : ℕ) (entries normalized : List AutoDrawSchedule) (used : List Text)
    → normalize_schedules e n entries used ≡ ok normalized
    → All IsNormal normalized
      × Pairwise DifferentIds normalized
      × (length normalized ≡ length entries)
unfolding normalize_schedules
normalize_schedules_lem e n [] normalized used h =
    let same : [] ≡ normalized = ground arith in
    subst (λ l. All IsNormal l × Pairwise DifferentIds l × (length l ≡ 0)) same (tt, tt, refl)
normalize_schedules_lem e n (entry ∷ entries) normalized used h =
    elim (Result-cases (normalize_schedule e n entry used)) [
      | inr (why, q) ↦ absurd (ground arith)
      | inl (p, q) ↦ elim (Result-cases (normalize_schedules e (n + 1) entries (p.id ∷ used))) [
        | inr (why, r) ↦ absurd (ground arith)
        | inl (rest, r) ↦
            let same : p ∷ rest ≡ normalized = ground arith in
            let tail = normalize_schedules_lem e (n + 1) entries rest (p.id ∷ used) r in
            let unused = normalize_schedules-unused e (n + 1) entries rest (p.id ∷ used) r in
            subst
              (λ l. All IsNormal l × Pairwise DifferentIds l × (length l ≡ suc (length entries)))
              same
              (
                (normalize_schedule-IsNormal e n entry p used q, tail.0),
                (All-DifferentIds p used rest unused, tail.1),
                ap suc tail.2,
              )
      ]
    ]

-- The entries that SetDrawSchedules stores and returns are as many as were given, at most twelve, all
-- normal and under different IDs.
pub record AreNormal (count : ℕ) (entries : List AutoDrawSchedule) : Type 0 where
  pub normal : All IsNormal entries
  pub distinct : Pairwise DifferentIds entries
  pub all_of : length entries ≡ count
  pub few : count ≤ 12

pub scheduling-AreNormal :
    (e : Env) (id : Text) (entries normalized : List AutoDrawSchedule) (s : Store)
    → scheduling e id entries s ≡ ok normalized
    → AreNormal (length entries) normalized
unfolding scheduling
scheduling-AreNormal e id entries normalized s h =
    elim (Result-cases (normalize_schedules e 0 entries [])) [
      | inr (why, q) ↦ absurd (ground arith)
      | inl (l, q) ↦
          let facts = normalize_schedules_lem e 0 entries l [] q in
          let same : sort_by schedule_before l ≡ normalized = ground arith in
          subst (AreNormal (length entries)) same (record {
            normal = sort_by-All schedule_before IsNormal l facts.0;
            distinct = sort_by-Pairwise schedule_before DifferentIds l DifferentIds-sym facts.1;
            all_of = length-sort_by schedule_before l ∙ facts.2;
            few = ground arith;
          })
    ]

-- A call that succeeds stores what it returns, for an account that exists: as many entries as were
-- given, at most twelve, under different IDs, each with canonical times and a supported task, a
-- fixed one without an end and a random one that ends after it starts.
pub set_draw_schedules_lem :
    (e : Env) (account_id : Text) (entries stored : List AutoDrawSchedule) (s : Store)
    → (set_draw_schedules e account_id entries s).0 ≡ ok stored
    → (draw_schedules account_id (set_draw_schedules e account_id entries s).1 ≡ stored)
      × (is_some (lookup (trim_space account_id) s.content.accounts) ≡ true)
      × AreNormal (length entries) stored
unfolding set_draw_schedules draw_schedules schedules_at commit on_ok
set_draw_schedules_lem e account_id entries stored s h =
    let id = trim_space account_id in
    elim (Result-cases (scheduling e id entries s)) [
      | inr (why, q) ↦ absurd (ground arith)
      | inl (l, q) ↦
          let same : l ≡ stored = ground arith in
          (
            ground (arith, lookup-insert id id l s.content.draw_schedules, text_eq_refl id),
            (unfold scheduling in ground arith),
            subst (AreNormal (length entries)) same (scheduling-AreNormal e id entries l s q),
          )
    ]

put_back :
    (id k : Text) (l : List AutoDrawSchedule) (m : Dict (List AutoDrawSchedule))
    → schedules_at k (insert id (schedules_at id m) (insert id l m)) ≡ schedules_at k m
unfolding schedules_at
put_back id k l m = ground (
  arith,
  lookup-insert id k (schedules_at id m) (insert id l m),
  lookup-insert id k l m,
  text_eq_iff id k,
)

-- SetDrawSchedules restores the previous list if the write fails; a missing list is restored as an
-- empty one, which reads the same.
pub set_draw_schedules-Restores :
    (e : Env) (account_id : Text) (entries : List AutoDrawSchedule) (s : Store)
    → Restores s (set_draw_schedules e account_id entries s)
unfolding set_draw_schedules
set_draw_schedules-Restores e account_id entries s = on_ok-Restores _ s _ λ l h.
    commit-Restores e _ _ l s (
      Same-draw_schedules s.content _
        λ k. put_back (trim_space account_id) k l s.content.draw_schedules)
