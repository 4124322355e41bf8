-- ===== src/State/Snapshots/Atomic.antt =====
-- The writes of snapshots and of version-3 authentication.
use lottery.Prelude.{ap, inl, inr, Option-cases}
use lottery.Prelude.Text.{Text, trim_space}
use lottery.Prelude.Dict.{lookup, insert_back, erase_back}
use lottery.State.Types.{Snapshot, AuthState, Store}
use lottery.State.Persist.{Env}
use lottery.State.Persist.RoundTrip.{Transacts, commit-Transacts, on_ok-Transacts}
use lottery.State.Snapshots.{snapshot_key, with_snapshots, put_snapshot, with_legacy_auth, put_auth}

-- PutSnapshot is a transaction.
pub put_snapshot-Transacts :
    (e : Env) (given : Snapshot) (s : Store) → Transacts s (put_snapshot e given s)
unfolding put_snapshot
put_snapshot-Transacts e given s =
    let key = snapshot_key (trim_space given.account_id) (trim_space given.kind) in
    on_ok-Transacts _ s _ λ _ _. elim (Option-cases (lookup key s.content.snapshots)) [
      | inl h ↦ rw h (
          commit-Transacts e _ _ tt s
            (ap (with_snapshots s) (erase_back key _ s.content.snapshots h)))
      | inr (old, h) ↦ rw h (
          commit-Transacts e _ _ tt s
            (ap (with_snapshots s) (insert_back key _ old s.content.snapshots h)))
    ]

-- PutAuth is a transaction.
pub put_auth-Transacts :
    (e : Env) (id : Text) (given : AuthState) (s : Store) → Transacts s (put_auth e id given s)
unfolding put_auth
put_auth-Transacts e id given s = elim (Option-cases (lookup id s.content.legacy_auth)) [
  | inl h ↦
      rw (h, put_auth)
        (commit-Transacts e _ _ tt s
          (ap (with_legacy_auth s) (erase_back id _ s.content.legacy_auth h)))
  | inr (old, h) ↦
      rw (h, put_auth)
        (commit-Transacts e _ _ tt s
          (ap (with_legacy_auth s) (insert_back id _ old s.content.legacy_auth h)))
]
