-- ===== src/State/Persist.antt =====
-- Reading and writing the state file (Store.load, Store.persistLocked), identifiers, and what an
-- operation takes from outside.
pub mod RoundTrip
pub mod Restores
use lottery.Prelude.{
  ℕ, Bool, true, false, Option, none, some, List, [], ◌∷◌, ◌++◌, ltb, leb, if◌then◌else◌, map,
}
use lottery.Prelude.Text.{Text, codes, trim_space}
use lottery.Prelude.Time.{Time}
use lottery.Prelude.Result.{Error, Result, ok, err, io, newer_version, undecodable}
use lottery.State.Types.{
  Payload, absent, malformed, unreadable, v3, v4, DiskState, DiskStateV3, Store, AutoDrawSchedule,
  supported_version,
}
use lottery.State.Written.{as_written}

-- One call of an operation: the readings of time.Now in their order, the draws of rand.Read as
-- hexadecimal text (`none` is a failed draw), and whether all of persistLocked succeeds (`none`) or
-- what it reports: json.MarshalIndent, which refuses a snapshot whose raw message is no JSON, the
-- write of the temporary file, and its rename.
pub record Env : Type 0 where
  pub clock : ℕ → Time
  pub random : ℕ → Option Text
  pub write : Option Text

-- newID; `n` counts the draws of the call.
unfoldable pub new_id : Env → ℕ → Text → Result Text
new_id e n prefix = elim (e.random n) [
  | none ↦ err (io (codes "generate idempotency key"))
  | some hex ↦ ok (trim_space prefix ++ (b':' ∷ hex))
]

unfoldable pub new_idempotency_key : Env → ℕ → Result Text
new_idempotency_key e n = new_id e n (codes "draw")

unfoldable pub new_auto_draw_idempotency_key : Env → ℕ → Result Text
new_auto_draw_idempotency_key e n = new_id e n (codes "draw:auto")

-- The data of a new store.
abbrev pub fresh : DiskState
fresh = record {
  version = supported_version;
  accounts = [];
  auth_health = [];
  legacy_auth = [];
  draw_schedules = [];
  account_id_seq = [];
  actions = [];
  snapshots = [];
  plans = [];
  logs = [];
}

-- What persistLocked writes, given as the data that stand in the file for a reader: the version-3
-- shape for data of version 3 and below, with what the encoding does to texts and raw messages.
unfoldable pub encode : DiskState → Payload
encode d =
    let w = as_written d in
    if leb d.version 3
    then v3 (record {
      version = 3;
      accounts = w.legacy_auth;
      actions = w.actions;
      snapshots = w.snapshots;
      plans = w.plans;
      logs = w.logs;
    })
    else v4 w

-- AutoDrawSchedule.UnmarshalJSON on what the package writes, where `enabled` is always present.
unfoldable pub decode_schedule : AutoDrawSchedule → AutoDrawSchedule
decode_schedule entry = record entry { enabled_set = true }

unfoldable pub decode_schedules :
    List (Text × List AutoDrawSchedule) → List (Text × List AutoDrawSchedule)
decode_schedules [] = []
decode_schedules ((id, entries) ∷ rest) = (id, map decode_schedule entries) ∷ decode_schedules rest

-- Store.load
unfoldable pub load : Payload → Result DiskState
load absent = ok fresh
load malformed = err undecodable
load (unreadable why) = err (io why)
load (v3 d) = ok (record fresh {
  version = 3;
  legacy_auth = d.accounts;
  actions = d.actions;
  snapshots = d.snapshots;
  plans = d.plans;
  logs = d.logs;
})
load (v4 d) =
    if ltb supported_version d.version
    then err newer_version
    else ok (record d { draw_schedules = decode_schedules d.draw_schedules })

-- Open, once the lock file is held.
unfoldable pub open_store : Payload → Result Store
open_store p = elim (load p) [ ok d ↦ ok (record { content = d; file = p }) | err e ↦ err e ]

-- persistLocked at the end of an operation, with the rollback that follows a failed write. The file
-- is replaced by a rename, so a failure leaves the old one.
unfoldable pub commit {ℓ} :
    {A : Type ℓ} → Env → DiskState → DiskState → A → Store → Result A × Store
commit e changed restored a s = elim e.write [
  | none ↦ (ok a, record { content = changed; file = encode changed })
  | some why ↦ (err (io why), record s { content = restored })
]

-- `if err != nil { return err }`: the rest of an operation runs on the value of the checks before
-- it, which change nothing.
unfoldable pub on_ok {ℓ κ} :
    {X : Type ℓ} {A : Type κ} → Result X → Store → (X → Result A × Store) → Result A × Store
on_ok (ok x) s rest = rest x
on_ok (err e) s rest = (err e, s)
