-- ===== src/Auth/Ledger.antt =====
-- The secrets of an account, of internal/secret/vault.go, and the ledger of the sessions that the
-- workbench has created, in trackManagedSession of internal/auth/broker.go.
use lottery.Prelude.{
  ℕ, zero, suc, ◌+◌, ◌≤◌, ◌≡◌, refl, Bool, true, false, ◌||◌, Option, none, some, List, [], ◌∷◌,
  length, ltb, leb, if◌then◌else◌, arith, inl, inr, Bool-cases,
}
use lottery.Prelude.Text.{Text, codes, text_eq, is_empty}
use lottery.Prelude.Int.{ℤ}
use lottery.Prelude.Time.{Time, before}
use lottery.Prelude.Sort.{sort_by}
use lottery.State.Types.{Cookie}

pub record ManagedSession : Type 0 where
  pub remote_id : Text
  pub origin : Text
  pub pinned : Bool
  pub last_seen_at : Time

abbrev pub session_origin_workbench : Text
session_origin_workbench = codes "workbench"

-- Bundle; its cookies have the fields of the state's.
pub record Bundle : Type 0 where
  pub login_name : Text
  pub password : Text
  pub user_id : ℤ
  pub parent_access_token : Text
  pub parent_access_expires_at : Time
  pub lottery_access_token : Text
  pub lottery_access_expires_at : Time
  pub cookies : List Cookie
  pub managed_sessions : List ManagedSession
  pub updated_at : Time

abbrev pub no_bundle : Bundle
no_bundle = record {
  login_name = [];
  password = [];
  user_id = lottery.Prelude.Int.pos 0;
  parent_access_token = [];
  parent_access_expires_at = 0;
  lottery_access_token = [];
  lottery_access_expires_at = 0;
  cookies = [];
  managed_sessions = [];
  updated_at = 0;
}

-- The first entry of a session is seen now; `none` if there is none.
unfoldable pub seen_again : Text → Time → List ManagedSession → Option (List ManagedSession)
seen_again sid now [] = none
seen_again sid now (x ∷ xs) =
    let rest = seen_again sid now xs in
    if text_eq x.remote_id sid
    then some (record x { last_seen_at = now } ∷ xs)
    else elim rest [ none ↦ none | some ys ↦ some (x ∷ ys) ]

unfoldable pub append_session : ManagedSession → List ManagedSession → List ManagedSession
append_session x [] = x ∷ []
append_session x (y ∷ ys) = y ∷ append_session x ys

-- The first entries, and the pinned ones of the rest.
unfoldable pub keep_newest : ℕ → List ManagedSession → List ManagedSession
keep_newest n [] = []
keep_newest zero (x ∷ xs) = if x.pinned then x ∷ keep_newest zero xs else keep_newest zero xs
keep_newest (suc n) (x ∷ xs) = x ∷ keep_newest n xs

abbrev pub max_ledger : ℕ
max_ledger = 24

abbrev pub seen_later : ManagedSession → ManagedSession → Bool
seen_later x y = before y.last_seen_at x.last_seen_at

unfoldable pub bounded : List ManagedSession → List ManagedSession
unfolding keep_newest
bounded sessions =
    if ltb max_ledger (length sessions)
    then keep_newest max_ledger (sort_by seen_later sessions)
    else sessions

-- The ledger with a session that is seen now.
unfoldable pub tracked : Text → Time → List ManagedSession → List ManagedSession
unfolding seen_again append_session
tracked sid now sessions = elim (seen_again sid now sessions) [
  | some updated ↦ updated
  | none ↦
      append_session
        (record {
          remote_id = sid;
          origin = session_origin_workbench;
          pinned = false;
          last_seen_at = now;
        })
        sessions
]

-- Broker.trackManagedSession; `sid` is the session of the token.
unfoldable pub track_managed_session : Text → Time → Bundle → Bundle
unfolding bounded tracked
track_managed_session sid now bundle =
    if is_empty sid
    then bundle
    else record bundle { managed_sessions = bounded (tracked sid now bundle.managed_sessions) }

-- The entries that may age out.
unfoldable pub count_unpinned : List ManagedSession → ℕ
count_unpinned [] = 0
count_unpinned (x ∷ xs) = if x.pinned then count_unpinned xs else count_unpinned xs + 1

count_unpinned-keep_newest :
    (n : ℕ) (xs : List ManagedSession) → count_unpinned (keep_newest n xs) ≤ n
unfolding count_unpinned keep_newest
count_unpinned-keep_newest n [] = ground arith
count_unpinned-keep_newest zero (x ∷ xs) = elim (Bool-cases x.pinned) [
  | inl q ↦ ground (arith, q, count_unpinned-keep_newest zero xs)
  | inr q ↦ ground (arith, q, count_unpinned-keep_newest zero xs)
]
count_unpinned-keep_newest (suc n) (x ∷ xs) = elim (Bool-cases x.pinned) [
  | inl q ↦ ground (arith, q, count_unpinned-keep_newest n xs)
  | inr q ↦ ground (arith, q, count_unpinned-keep_newest n xs)
]

count_unpinned-length : (xs : List ManagedSession) → count_unpinned xs ≤ length xs
unfolding count_unpinned
count_unpinned-length [] = ground arith
count_unpinned-length (x ∷ xs) = ground (arith, count_unpinned-length xs)

-- Once a session is tracked, the ledger holds no more than 24 entries that are not pinned, however
-- many it held before.
pub track_managed_session-bound :
    (sid : Text) (now : Time) (bundle : Bundle)
    → is_empty sid ≡ false
    → count_unpinned (track_managed_session sid now bundle).managed_sessions ≤ 24
unfolding track_managed_session bounded
track_managed_session-bound sid now bundle h =
    let xs = tracked sid now bundle.managed_sessions in
    elim (Bool-cases (ltb max_ledger (length xs))) [
      | inl q ↦
          rw (h, q, track_managed_session, bounded)
            (count_unpinned-keep_newest 24 (sort_by seen_later xs))
      | inr q ↦
          rw (h, q, track_managed_session, bounded) (ground (arith, q, count_unpinned-length xs))
    ]
