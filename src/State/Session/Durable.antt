-- ===== src/State/Session/Durable.antt =====
-- The data in memory against what a restart would read.
pub mod Set
pub mod Kept
pub mod Run
use lottery.Prelude.{
  ◌≡◌, refl, sym, ◌∙◌, subst, ◌⊎◌, inl, inr, Bool, true, false, Option, none, some, List, [], ◌∷◌,
  arith, map, ltb, ap, Option-cases,
}
use lottery.Prelude.Text.{Text}
use lottery.Prelude.Result.{Result, ok, err, Result-cases}
use lottery.State.Types.{
  DiskState, Store, Payload, absent, malformed, unreadable, v3, v4, AutoDrawSchedule,
}
use lottery.State.Json.{valid_text, outside, compact}
use lottery.State.Json.Same.{written_data-compact}
use lottery.State.Written.{
  written_record, written_auth, written_schedule, written_action, written_snapshot, written_plan,
  written_log, map_values, as_written, lookup-map_values,
}
use lottery.Prelude.Dict.{Dict, lookup}
use lottery.State.Persist.{Env, fresh, encode, decode_schedule, decode_schedules, load, open_store}
use lottery.State.Persist.RoundTrip.{AllSet, SchedulesSet, load-encode}
use lottery.State.Persist.Restores.{Same, Same-refl, Same-trans, Restores, schedules_at}

-- Data of version 4 whose schedules all record that `enabled` was given.
abbrev pub IsCurrent : Store → Type 0
IsCurrent s = (s.content.version ≡ 4) × SchedulesSet s.content.draw_schedules

-- The data are those of memory, as far as any read can tell, or what the encoding leaves of them.
abbrev pub IsReread : DiskState → DiskState → Type 0
IsReread d content = Same d content ⊎ Same d (as_written content)

-- What a restart would read is what memory holds.
abbrev pub IsDurable : Store → Type 0
IsDurable s = (d : DiskState) × (load s.file ≡ ok d) × IsReread d s.content

-- The raw message of a snapshot, up to white space and escapes.
abbrev pub json_at : Text → DiskState → Option Text
json_at k d = elim (lookup k d.snapshots) [
  | none ↦ none
  | some snapshot ↦ some (compact outside snapshot.content)
]

-- The encoding leaves the JSON of every snapshot.
json_at-written : (k : Text) (d : DiskState) → json_at k (as_written d) ≡ json_at k d
unfolding as_written
json_at-written k d = elim (Option-cases (lookup k d.snapshots)) [
  | inl q ↦ ground (arith, lookup-map_values written_snapshot k d.snapshots)
  | inr (p, q) ↦
      ground
        (arith, lookup-map_values written_snapshot k d.snapshots, written_data-compact p.content)
]

pub json_at-reread :
    (d content : DiskState) (k : Text) → IsReread d content → json_at k d ≡ json_at k content
json_at-reread d content k (inl h) = ap (λ m. json_at k (record d { snapshots = m })) h.snapshots
json_at-reread d content k (inr h) =
    ap (λ m. json_at k (record d { snapshots = m })) h.snapshots ∙ json_at-written k content

schedules_at-written :
    (k : Text) (m : Dict (List AutoDrawSchedule))
    → schedules_at k (map_values (map written_schedule) m) ≡ map written_schedule (schedules_at k m)
unfolding schedules_at
schedules_at-written k m = elim (Option-cases (lookup k m)) [
  | inl q ↦ ground (arith, lookup-map_values (map written_schedule) k m)
  | inr (entries, q) ↦ ground (arith, lookup-map_values (map written_schedule) k m)
]

-- What no read tells apart is written alike.
as_written-Same : (c d : DiskState) → Same c d → Same (as_written c) (as_written d)
unfolding as_written
as_written-Same c d h = record {
  version = h.version;
  accounts = λ k.
      lookup-map_values written_record k c.accounts
      ∙ ap (λ found. elim found [ none ↦ none | some r ↦ some (written_record r) ]) (h.accounts k)
      ∙ sym (lookup-map_values written_record k d.accounts);
  auth_health = ap (map_values valid_text) h.auth_health;
  legacy_auth = ap (map_values written_auth) h.legacy_auth;
  draw_schedules = λ k.
      schedules_at-written k c.draw_schedules
      ∙ ap (map written_schedule) (h.draw_schedules k)
      ∙ sym (schedules_at-written k d.draw_schedules);
  account_id_seq = ap valid_text h.account_id_seq;
  actions = ap (map_values written_action) h.actions;
  snapshots = ap (map_values written_snapshot) h.snapshots;
  plans = ap (map_values written_plan) h.plans;
  logs = ap (map written_log) h.logs;
}

IsReread-Same : (b c d : DiskState) → Same c d → IsReread b c → IsReread b d
IsReread-Same b c d same (inl h) = inl (Same-trans b c d h same)
IsReread-Same b c d same (inr h) =
    inr (Same-trans b (as_written c) (as_written d) h (as_written-Same c d same))

Same-sym : (c d : DiskState) → Same c d → Same d c
Same-sym c d h = record {
  version = sym h.version;
  accounts = λ k. sym (h.accounts k);
  auth_health = sym h.auth_health;
  legacy_auth = sym h.legacy_auth;
  draw_schedules = λ k. sym (h.draw_schedules k);
  account_id_seq = sym h.account_id_seq;
  actions = sym h.actions;
  snapshots = sym h.snapshots;
  plans = sym h.plans;
  logs = sym h.logs;
}

written-IsDurable : (s : Store) → IsCurrent s → s.file ≡ encode s.content → IsDurable s
written-IsDurable s current h =
    let d = as_written s.content in
    (d, rw h (load-encode s.content current.0 current.1), inr (Same-refl d))

-- An operation that restores on failure keeps a store durable.
pub Restores-IsDurable {ℓ} :
    {A : Type ℓ} (s : Store) (r : Result A × Store)
    → Restores s r
    → IsCurrent r.1
    → IsDurable s
    → IsDurable r.1
Restores-IsDurable s (err why, after) h current (d, loads, same) = (
  d,
  rw h.0 loads,
  IsReread-Same d s.content after.content (Same-sym after.content s.content h.1) same,
)
Restores-IsDurable s (ok a, after) (inl unchanged) current durable =
    subst IsDurable (sym unchanged) durable
Restores-IsDurable s (ok a, after) (inr written) current durable =
    written-IsDurable after current written

map-AllSet : (entries : List AutoDrawSchedule) → AllSet (map decode_schedule entries)
unfolding decode_schedule
map-AllSet [] = tt
map-AllSet (entry ∷ rest) = (refl, map-AllSet rest)

pub decode_schedules-SchedulesSet :
    (m : List (Text × List AutoDrawSchedule)) → SchedulesSet (decode_schedules m)
unfolding decode_schedules
decode_schedules-SchedulesSet [] = tt
decode_schedules-SchedulesSet ((id, entries) ∷ rest) =
    (map-AllSet entries, decode_schedules-SchedulesSet rest)

load-SchedulesSet : (p : Payload) (d : DiskState) → load p ≡ ok d → SchedulesSet d.draw_schedules
unfolding load
load-SchedulesSet absent d h =
    let same : fresh ≡ d = ground arith in subst (λ c. SchedulesSet c.draw_schedules) same tt
load-SchedulesSet malformed d h = absurd (ground arith)
load-SchedulesSet (unreadable why) d h = absurd (ground arith)
load-SchedulesSet (v3 old) d h =
    let same : [] ≡ d.draw_schedules = ground arith in subst SchedulesSet same tt
load-SchedulesSet (v4 c) d h =
    let same : decode_schedules c.draw_schedules ≡ d.draw_schedules = ground arith in
    subst SchedulesSet same (decode_schedules-SchedulesSet c.draw_schedules)

-- A store that has just been opened is durable, and current if its data is of version 4.
pub open_store-IsDurable :
    (p : Payload) (s : Store)
    → open_store p ≡ ok s
    → s.content.version ≡ 4
    → IsCurrent s × IsDurable s
unfolding open_store
open_store-IsDurable p s h v = elim (Result-cases (load p)) [
  | inr (why, q) ↦ absurd (ground arith)
  | inl (d, q) ↦
      let same : record { content = d; file = p } ≡ s = ground arith in
      let set = load-SchedulesSet p d q in
      (
        (v, subst (λ t. SchedulesSet t.content.draw_schedules) same set),
        subst IsDurable same (d, q, inl (Same-refl d)),
      )
]
