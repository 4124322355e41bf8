-- ===== src/State/Persist/RoundTrip.antt =====
-- What a write of the state file does, and what a later read gives.
use lottery.Prelude.{Option-cases, ◌≡◌, refl, ◌⊎◌, inl, inr, true, List, [], ◌∷◌, arith, map}
use lottery.Prelude.Text.{Text}
use lottery.Prelude.Result.{Result, ok, err}
use lottery.State.Types.{DiskState, Store, AutoDrawSchedule}
use lottery.State.Json.{valid_text}
use lottery.State.Written.{written_schedule, map_values, as_written}
use lottery.State.Persist.{
  Env, fresh, encode, decode_schedule, decode_schedules, load, commit, on_ok,
}

-- An operation that fails leaves memory and file alone. One that succeeds changes nothing, or has
-- written what memory holds.
abbrev pub Transacts {ℓ} : {A : Type ℓ} → Store → Result A × Store → Type 0
Transacts s (err _, after) = after ≡ s
Transacts s (ok _, after) = (after ≡ s) ⊎ (after.file ≡ encode after.content)

pub commit-Transacts {ℓ} :
    {A : Type ℓ} (e : Env) (changed restored : DiskState) (a : A) (s : Store)
    → restored ≡ s.content
    → Transacts s (commit e changed restored a s)
unfolding commit
commit-Transacts e changed restored a s h = ground arith

pub on_ok-Transacts {ℓ κ} :
    {X : Type ℓ} {A : Type κ} (r : Result X) (s : Store) (rest : X → Result A × Store)
    → ((x : X) → r ≡ ok x → Transacts s (rest x))
    → Transacts s (on_ok r s rest)
unfolding on_ok
on_ok-Transacts (ok x) s rest h = h x refl
on_ok-Transacts (err e) s rest h = refl

-- What holds before, and after the rest of the operation if its checks pass, holds after it all.
pub on_ok-after {ℓ κ ρ} :
    {X : Type ℓ} {A : Type κ} (P : Store → Type ρ) (r : Result X) (s : Store)
    (rest : X → Result A × Store)
    → P s
    → ((x : X) → r ≡ ok x → P (rest x).1)
    → P (on_ok r s rest).1
unfolding on_ok
on_ok-after P (ok x) s rest before after = after x refl
on_ok-after P (err e) s rest before after = before

pub commit-after {ℓ ρ} :
    {A : Type ℓ} (P : Store → Type ρ) (e : Env) (changed restored : DiskState) (a : A) (s : Store)
    → P (record { content = changed; file = encode changed })
    → P (record s { content = restored })
    → P (commit e changed restored a s).1
unfolding commit
commit-after P e changed restored a s written failed = elim (Option-cases e.write) [
  | inl q ↦ rw (q, commit) written
  | inr (why, q) ↦ rw (q, commit) failed
]

-- Every schedule records that `enabled` was given, as SetDrawSchedules and a read from the file
-- leave it.
abbrev pub AllSet : List AutoDrawSchedule → Type 0
AllSet [] = Unit
AllSet (entry ∷ rest) = (entry.enabled_set ≡ true) × AllSet rest

abbrev pub SchedulesSet : List (Text × List AutoDrawSchedule) → Type 0
SchedulesSet [] = Unit
SchedulesSet ((id, entries) ∷ rest) = AllSet entries × SchedulesSet rest

map-decode_schedule :
    (entries : List AutoDrawSchedule) → AllSet entries → map decode_schedule entries ≡ entries
unfolding decode_schedule
map-decode_schedule [] h = refl
map-decode_schedule (entry ∷ rest) h = ground (arith, map-decode_schedule rest h.1)

decode_schedules_lem :
    (m : List (Text × List AutoDrawSchedule)) → SchedulesSet m → decode_schedules m ≡ m
unfolding decode_schedules
decode_schedules_lem [] h = refl
decode_schedules_lem ((id, entries) ∷ rest) h =
    ground (arith, map-decode_schedule entries h.0, decode_schedules_lem rest h.1)

AllSet-written :
    (entries : List AutoDrawSchedule) → AllSet entries → AllSet (map written_schedule entries)
AllSet-written [] h = tt
AllSet-written (entry ∷ rest) h = (h.0, AllSet-written rest h.1)

SchedulesSet-written :
    (m : List (Text × List AutoDrawSchedule))
    → SchedulesSet m
    → SchedulesSet (map_values (map written_schedule) m)
unfolding map_values
SchedulesSet-written [] h = tt
SchedulesSet-written ((id, entries) ∷ rest) h =
    (AllSet-written entries h.0, SchedulesSet-written rest h.1)

-- A version-4 file is read back, up to what the encoding does to texts and raw messages.
pub load-encode :
    (d : DiskState)
    → d.version ≡ 4
    → SchedulesSet d.draw_schedules
    → load (encode d) ≡ ok (as_written d)
unfolding load encode as_written
load-encode d v h =
    let m = map_values (map written_schedule) d.draw_schedules in
    ground (arith, decode_schedules_lem m (SchedulesSet-written d.draw_schedules h))

-- The part of the data that the version-3 shape has room for.
abbrev pub legacy_part : DiskState → DiskState
legacy_part d = record fresh {
  version = 3;
  legacy_auth = d.legacy_auth;
  actions = d.actions;
  snapshots = d.snapshots;
  plans = d.plans;
  logs = d.logs;
}

-- A store opened on a version-3 file reads back its legacy part only: the accounts, their health,
-- the schedules and the sequence of account codes of such a store do not survive a restart. What the
-- encoding does to texts and raw messages is as for any store.
pub load-encode_legacy :
    (d : DiskState) → d.version ≡ 3 → load (encode d) ≡ ok (as_written (legacy_part d))
unfolding load encode as_written map_values valid_text
load-encode_legacy d v = ground arith
