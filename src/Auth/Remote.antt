-- ===== src/Auth/Remote.antt =====
-- The cleaning of remote sessions of internal/auth/remote_sessions.go.
pub mod Expendable
use lottery.Prelude.{
  ℕ, zero, suc, ◌+◌, ◌-◌, Bool, true, false, ◌&&◌, ◌||◌, not, Option, none, some, List, [], ◌∷◌,
  ◌++◌, ltb, if◌then◌else◌,
}
use lottery.Prelude.Text.{Text, codes, text_eq, is_empty, trim_space}
use lottery.Prelude.Int.{ℤ, pos, ltb_ℤ}
use lottery.Prelude.Dict.{Dict, lookup, insert, erase, keep_entries}
use lottery.Prelude.Sort.{sort_by}
use lottery.Prelude.Time.{Time, before}
use lottery.State.Types.{Cookie}
use lottery.Website.{Fault, other}
use lottery.Service.{Reply, reply, fault, error_text, cut_bytes}
use lottery.Auth.Ledger.{Bundle, ManagedSession, session_origin_workbench, seen_later}

-- SessionInfo without what is only shown: the login method, the address, the device and the times of
-- its creation and end.
pub record SessionInfo : Type 0 where
  pub sid : Text
  pub current : Bool
  pub last_active : Time

-- What the outside answers to the n-th step: the vault, where `none` is a missing secret, and the
-- platform. A revocation tells whether it was the current session.
pub record Remote : Type 0 where
  pub load : ℕ → Text → Reply (Option Bundle)
  pub save : ℕ → Text → Bundle → Option Fault
  pub new_client : ℕ → List Cookie → Option Fault
  pub sessions : ℕ → Text → Reply (List SessionInfo)
  pub revoke : ℕ → Text → Text → Reply Bool
  pub revoke_others : ℕ → Text → Reply ℤ
  pub session_id : Text → Text

pub record CleanupResult : Type 0 where
  pub revoked : List Text
  pub failed : List (Text × Text)

-- The steps taken so far, the sessions whose revocation was asked for, and the bundles that were
-- saved; the latest first.
pub record Sweep : Type 0 where
  pub asked : ℕ
  pub requests : List Text
  pub saved : List Bundle

abbrev pub is_owned : ManagedSession → Bool
is_owned item =
    text_eq item.origin session_origin_workbench && not (is_empty (trim_space item.remote_id))

-- The ledger of the sessions that the workbench has created, by their IDs.
unfoldable pub ledger_from : List ManagedSession → Dict ManagedSession → Dict ManagedSession
ledger_from [] ledger = ledger
ledger_from (item ∷ items) ledger =
    if is_owned item
    then ledger_from items (insert item.remote_id item ledger)
    else ledger_from items ledger

unfoldable pub live_from : List SessionInfo → Dict SessionInfo → Dict SessionInfo
live_from [] live = live
live_from (x ∷ xs) live = live_from xs (insert x.sid x live)

-- Whether the platform lists the session as another than the current one.
unfoldable pub is_other : Text → Dict SessionInfo → Text → Bool
is_other current live sid = elim (lookup sid live) [
  | none ↦ false
  | some session ↦ not session.current && not (text_eq sid current)
]

unfoldable pub is_live : Dict SessionInfo → Text → Bool
is_live live sid = elim (lookup sid live) [ none ↦ false | some session ↦ true ]

-- The sessions that may be revoked.
unfoldable pub candidate_pool : Text → Dict SessionInfo → Dict ManagedSession → List ManagedSession
unfolding is_other
candidate_pool current live [] = []
candidate_pool current live ((sid, entry) ∷ ledger) =
    let rest = candidate_pool current live ledger in
    if is_other current live sid && not entry.pinned then entry ∷ rest else rest

-- What is left of the ledger once the sessions that are gone are dropped.
unfoldable pub still_live : Dict SessionInfo → Dict ManagedSession → Dict ManagedSession
unfolding is_live
still_live live ledger = keep_entries (λ sid entry. is_live live sid) ledger

unfoldable pub drop_first : ℕ → List ManagedSession → List ManagedSession
drop_first zero xs = xs
drop_first (suc n) [] = []
drop_first (suc n) (x ∷ xs) = drop_first n xs

-- The excess over the sessions that are kept as spares, the most recent ones.
unfoldable pub to_revoke : ℕ → List ManagedSession → List ManagedSession
unfolding drop_first
to_revoke durable_limit pool = drop_first durable_limit (sort_by seen_later pool)

-- safeReason
unfoldable pub safe_reason : Fault → Text
safe_reason why = cut_bytes 120 (trim_space (error_text why))

-- The loop that revokes; the result, what is left of the ledger, and the sweep.
unfoldable pub revoke_all :
    Remote
    → Text
    → List ManagedSession
    → CleanupResult
    → Dict ManagedSession
    → Sweep
    → CleanupResult × Dict ManagedSession × Sweep
revoke_all r token [] result ledger w = (result, ledger, w)
revoke_all r token (entry ∷ entries) result ledger w =
    let next = record w { asked = w.asked + 1; requests = entry.remote_id ∷ w.requests } in
    elim (r.revoke w.asked token entry.remote_id) [
      | fault why ↦
          revoke_all r token entries
            (record result { failed = result.failed ++ (entry.remote_id, safe_reason why) ∷ [] })
            ledger next
      | reply current ↦
          revoke_all r token entries
            (record result { revoked = result.revoked ++ entry.remote_id ∷ [] })
            (erase entry.remote_id ledger) next
    ]

-- The sessions that stay in the bundle.
unfoldable pub kept_sessions : Dict ManagedSession → List ManagedSession → List ManagedSession
kept_sessions ledger [] = []
kept_sessions ledger (item ∷ items) =
    let rest = kept_sessions ledger items in
    elim (lookup item.remote_id ledger) [
      | some entry ↦ item ∷ rest
      | none ↦ if text_eq item.origin session_origin_workbench then rest else item ∷ rest
    ]

-- The end of Cleanup: the ledger is saved if a session was revoked.
unfoldable pub save_ledger :
    Remote
    → Text
    → Bundle
    → CleanupResult × Dict ManagedSession × Sweep
    → Reply CleanupResult × Sweep
unfolding kept_sessions
save_ledger r account_id bundle (result, ledger, w) = elim result.revoked [
  | [] ↦ (reply result, w)
  | first ∷ more ↦
      let written = record bundle {
        managed_sessions = kept_sessions ledger bundle.managed_sessions;
      } in
      let w = record w { asked = w.asked + 1 } in
      elim (r.save w.asked account_id written) [
        | some why ↦ (fault why, w)
        | none ↦ (reply result, record w { saved = written ∷ w.saved })
      ]
]

abbrev pub no_result : CleanupResult
no_result = record { revoked = []; failed = [] }

-- Cleanup once the platform has listed its sessions.
unfoldable pub sweep :
    Remote → ℕ → Text → Bundle → List SessionInfo → Sweep → Reply CleanupResult × Sweep
unfolding to_revoke candidate_pool still_live ledger_from live_from
sweep r durable_limit account_id bundle sessions w =
    let live = live_from sessions [] in
    let ledger = ledger_from bundle.managed_sessions [] in
    let pool = candidate_pool (r.session_id bundle.parent_access_token) live ledger in
    save_ledger r account_id bundle (
      revoke_all r bundle.parent_access_token (to_revoke durable_limit pool) no_result
        (still_live live ledger) w)

-- Cleanup of an account whose secrets are known.
unfoldable pub clean_bundle : Remote → ℕ → Text → Bundle → Sweep → Reply CleanupResult × Sweep
clean_bundle r durable_limit account_id bundle w = elim (r.new_client w.asked bundle.cookies) [
  | some why ↦ (fault why, record w { asked = w.asked + 1 })
  | none ↦ elim (r.sessions (w.asked + 1) bundle.parent_access_token) [
    | fault why ↦ (fault why, record w { asked = w.asked + 2 })
    | reply sessions ↦
        sweep r durable_limit account_id bundle sessions (record w { asked = w.asked + 2 })
  ]
]

-- PlatformSessionManager.Cleanup
unfoldable pub cleanup : Remote → ℕ → Text → Sweep → Reply CleanupResult × Sweep
cleanup r durable_limit account_id w =
    let after = record w { asked = w.asked + 1 } in
    elim (r.load w.asked account_id) [
      | fault why ↦ (fault why, after)
      | reply found ↦ elim found [
        | none ↦ (reply no_result, after)
        | some bundle ↦ clean_bundle r durable_limit account_id bundle after
      ]
    ]

pub record SessionRevokeOutcome : Type 0 where
  pub current : Bool
  pub ledger_updated : Bool

abbrev pub is_session : Text → ManagedSession → Bool
is_session sid item = text_eq item.remote_id (trim_space sid)

unfoldable pub without_session : Text → List ManagedSession → List ManagedSession
without_session sid [] = []
without_session sid (item ∷ items) =
    let rest = without_session sid items in if is_session sid item then rest else item ∷ rest

unfoldable pub has_session : Text → List ManagedSession → Bool
has_session sid [] = false
has_session sid (item ∷ items) = is_session sid item || has_session sid items

-- RevokeOne once the platform has revoked the session.
unfoldable pub forget_session :
    Remote → Text → Text → Bundle → Bool → Sweep → Reply SessionRevokeOutcome × Sweep
unfolding without_session has_session
forget_session r account_id sid bundle was_current w =
    let current =
      was_current || text_eq (r.session_id bundle.parent_access_token) (trim_space sid) in
    let written = record bundle {
      managed_sessions = without_session sid bundle.managed_sessions;
    } in
    if not (has_session sid bundle.managed_sessions)
    then (reply (record { current = current; ledger_updated = false }), w)
    else elim (r.save w.asked account_id written) [
      | some why ↦ (fault why, record w { asked = w.asked + 1 })
      | none ↦ (
        reply (record { current = current; ledger_updated = true }),
        record w { asked = w.asked + 1; saved = written ∷ w.saved },
      )
    ]

-- Secrets that are missing are an error here.
unfoldable pub with_bundle :
    {A : Type 0} → Remote → Text → (Bundle → Sweep → Reply A × Sweep) → Sweep → Reply A × Sweep
with_bundle r account_id next w =
    let after = record w { asked = w.asked + 1 } in
    elim (r.load w.asked account_id) [
      | fault why ↦ (fault why, after)
      | reply found ↦ elim found [
        | none ↦ (fault (other (codes "secret not found")), after)
        | some bundle ↦ elim (r.new_client after.asked bundle.cookies) [
          | some why ↦ (fault why, record after { asked = after.asked + 1 })
          | none ↦ next bundle (record after { asked = after.asked + 1 })
        ]
      ]
    ]

-- PlatformSessionManager.RevokeOne
unfoldable pub revoke_one : Remote → Text → Text → Sweep → Reply SessionRevokeOutcome × Sweep
revoke_one r account_id sid w =
    with_bundle r account_id
      (λ bundle w.
        let after = record w { asked = w.asked + 1; requests = sid ∷ w.requests } in
        elim (r.revoke w.asked bundle.parent_access_token sid) [
          | fault why ↦ (fault why, after)
          | reply was_current ↦ forget_session r account_id sid bundle was_current after
        ])
      w

-- The sessions of the ledger that the platform still lists, and the IDs of the others.
unfoldable pub split_live : Dict SessionInfo → List ManagedSession → List ManagedSession × List Text
unfolding is_live
split_live live [] = ([], [])
split_live live (item ∷ items) =
    let rest = split_live live items in
    if is_live live item.remote_id
    then (item ∷ rest.0, rest.1)
    else (rest.0, item.remote_id ∷ rest.1)

-- PlatformSessionManager.RevokeAllOthers; an unconfirmed list is the error ErrSessionResultPending.
unfoldable pub revoke_all_others : Remote → Text → Sweep → Reply CleanupResult × Sweep
unfolding split_live live_from
revoke_all_others r account_id w =
    with_bundle r account_id
      (λ bundle w. elim (r.revoke_others w.asked bundle.parent_access_token) [
        | fault why ↦ (fault why, record w { asked = w.asked + 1 })
        | reply count ↦ elim (r.sessions (w.asked + 1) bundle.parent_access_token) [
          | fault why ↦ (
            fault (other (codes "session revocation result pending confirmation")),
            record w { asked = w.asked + 2 },
          )
          | reply sessions ↦
              let parts = split_live (live_from sessions []) bundle.managed_sessions in
              let written = record bundle { managed_sessions = parts.0 } in
              elim (r.save (w.asked + 2) account_id written) [
                | some why ↦ (fault why, record w { asked = w.asked + 3 })
                | none ↦ (
                  reply (record { revoked = parts.1; failed = [] }),
                  record w { asked = w.asked + 3; saved = written ∷ w.saved },
                )
              ]
        ]
      ])
      w
