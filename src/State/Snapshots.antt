-- ===== src/State/Snapshots.antt =====
-- Snapshots and version-3 authentication of internal/state/store.go.
pub mod Atomic
use lottery.Prelude.{
  Bool, true, false, ◌&&◌, ◌||◌, not, Option, none, some, List, [], ◌∷◌, ◌++◌, if◌then◌else◌,
  keep_if,
}
use lottery.Prelude.Text.{Text, text_eq, is_empty, trim_space}
use lottery.Prelude.Int.{pos}
use lottery.Prelude.Dict.{Dict, lookup, insert, erase}
use lottery.Prelude.Time.{is_zero, before, zero_time}
use lottery.Prelude.Sort.{sort_by}
use lottery.Prelude.Result.{Result, ok, err, reject_if, required}
use lottery.State.Types.{Snapshot, AuthState, DiskState, Store}
use lottery.State.Persist.{Env, commit, on_ok}

unfoldable pub snapshot_key : Text → Text → Text
snapshot_key account_id kind = trim_space account_id ++ (b':' ∷ trim_space kind)

abbrev pub with_snapshots : Store → Dict Snapshot → DiskState
with_snapshots s snapshots = record (s.content) { snapshots = snapshots }

-- Store.PutSnapshot
unfoldable pub put_snapshot : Env → Snapshot → Store → Result (Unit {0}) × Store
put_snapshot e given s =
    let account_id = trim_space given.account_id in
    let kind = trim_space given.kind in
    on_ok (reject_if (is_empty account_id || is_empty kind) required) s λ _.
      let snapshot = record given {
        account_id = account_id;
        kind = kind;
        queried_at = if is_zero given.queried_at then e.clock 0 else given.queried_at;
      } in
      let key = snapshot_key account_id kind in
      let written = insert key snapshot s.content.snapshots in
      elim (lookup key s.content.snapshots) [
        | some previous ↦
            commit e (with_snapshots s written) (with_snapshots s (insert key previous written)) tt
              s
        | none ↦ commit e (with_snapshots s written) (with_snapshots s (erase key written)) tt s
      ]

-- Store.Snapshot
unfoldable pub snapshot_at : Text → Text → Store → Option Snapshot
snapshot_at account_id kind s = lookup (snapshot_key account_id kind) s.content.snapshots

unfoldable pub snapshot_values : Dict Snapshot → List Snapshot
snapshot_values [] = []
snapshot_values ((key, snapshot) ∷ snapshots) = snapshot ∷ snapshot_values snapshots

-- Store.Snapshots: those of one account, or all, the latest first.
unfoldable pub snapshots_of : Text → Store → List Snapshot
snapshots_of account_id s =
    let account_id = trim_space account_id in
    sort_by (λ p q. before q.queried_at p.queried_at)
      (keep_if (λ p. is_empty account_id || text_eq p.account_id account_id)
        (snapshot_values s.content.snapshots))

abbrev pub with_legacy_auth : Store → Dict AuthState → DiskState
with_legacy_auth s auth = record (s.content) { legacy_auth = auth }

abbrev pub no_auth : AuthState
no_auth = record {
  user_id = pos 0;
  parent_access_token = [];
  parent_access_expires_at = zero_time;
  lottery_access_token = [];
  lottery_access_expires_at = zero_time;
  cookies = [];
  updated_at = zero_time;
}

-- Store.Auth
unfoldable pub auth_of : Text → Store → AuthState
auth_of account_id s = elim (lookup account_id s.content.legacy_auth) [
  | some auth ↦ auth
  | none ↦ no_auth
]

-- Store.PutAuth
unfoldable pub put_auth : Env → Text → AuthState → Store → Result (Unit {0}) × Store
put_auth e account_id given s =
    let auth = record given { updated_at = e.clock 0 } in
    let written = insert account_id auth s.content.legacy_auth in
    elim (lookup account_id s.content.legacy_auth) [
      | some previous ↦
          commit e (with_legacy_auth s written)
            (with_legacy_auth s (insert account_id previous written)) tt s
      | none ↦
          commit e (with_legacy_auth s written) (with_legacy_auth s (erase account_id written)) tt s
    ]
