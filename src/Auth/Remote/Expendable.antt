-- ===== src/Auth/Remote/Expendable.antt =====
-- The sessions that Cleanup revokes.
use lottery.Prelude.{
  ℕ, zero, suc, ◌+◌, ◌≡◌, refl, sym, subst, ◌⊎◌, inl, inr, true, false, ◌&&◌, not, some, List, [],
  ◌∷◌, All, All-map, Bool-cases, Option-cases, arith,
}
use lottery.Prelude.Text.{Text, text_eq, text_eq_iff}
use lottery.Prelude.Dict.{Dict, insert, AllEntries}
use lottery.Prelude.Sort.{sort_by, sort_by-All}
use lottery.Service.{Reply-cases, reply}
use lottery.Auth.Ledger.{Bundle, ManagedSession, seen_later}
use lottery.Auth.Remote.{
  SessionInfo, Remote, CleanupResult, Sweep, is_owned, ledger_from, live_from, is_other,
  candidate_pool, still_live, drop_first, to_revoke, revoke_all, save_ledger, no_result, sweep,
  clean_bundle, cleanup,
}

-- The session is in the list.
pub data Among (x : ManagedSession) : List ManagedSession → Type 0 where
  here : (xs : List ManagedSession) → Among x (x ∷ xs)
  there : (y : ManagedSession) (xs : List ManagedSession) → Among x xs → Among x (y ∷ xs)

All-Among : (xs : List ManagedSession) → All (λ x. Among x xs) xs
All-Among [] = tt
All-Among (x ∷ xs) = (
  here xs,
  All-map (λ y. Among y xs) (λ y. Among y (x ∷ xs)) xs (λ y h. there x xs h) (All-Among xs),
)

insert-AllEntries :
    (P : Text → ManagedSession → Type 0) (k : Text) (v : ManagedSession) (d : Dict ManagedSession)
    → P k v
    → AllEntries P d
    → AllEntries P (insert k v d)
unfolding insert
insert-AllEntries P k v [] p h = (p, tt)
insert-AllEntries P k v ((j, w) ∷ d) p h = elim (Bool-cases (text_eq j k)) [
  | inl q ↦
      let same : k ≡ j = ground (arith, text_eq_iff j k) in
      rw (q, insert) (subst (λ i. P i v) same p, h.1)
  | inr q ↦ rw (q, insert) (h.0, insert-AllEntries P k v d p h.1)
]

-- What a ledger knows of an entry that comes from the list.
abbrev IsEntry : List ManagedSession → Text → ManagedSession → Type 0
IsEntry items sid entry = (entry.remote_id ≡ sid) × (is_owned entry ≡ true) × Among entry items

ledger_from-AllEntries :
    (all items : List ManagedSession) (ledger : Dict ManagedSession)
    → All (λ x. Among x all) items
    → AllEntries (IsEntry all) ledger
    → AllEntries (IsEntry all) (ledger_from items ledger)
unfolding ledger_from
ledger_from-AllEntries all [] ledger h k = k
ledger_from-AllEntries all (item ∷ items) ledger h k = elim (Bool-cases (is_owned item)) [
  | inr q ↦ rw (q, ledger_from) (ledger_from-AllEntries all items ledger h.1 k)
  | inl q ↦
      rw (q, ledger_from)
        (ledger_from-AllEntries all items (insert item.remote_id item ledger) h.1
          (insert-AllEntries (IsEntry all) item.remote_id item ledger (refl, q, h.0) k))
]

-- A session that may be revoked without being asked for: the workbench has created it, it is not
-- pinned, and the platform lists it as another than the current one.
abbrev pub IsExpendable : Text → List ManagedSession → List SessionInfo → Text → Type 0
IsExpendable current items sessions sid =
    (entry : ManagedSession) × Among entry items
    × (entry.remote_id ≡ sid)
    × (is_owned entry ≡ true)
    × (entry.pinned ≡ false)
    × (is_other current (live_from sessions []) sid ≡ true)

other-Entry :
    (current : Text) (live : Dict SessionInfo) (sid : Text) (entry : ManagedSession)
    → entry.remote_id ≡ sid
    → is_other current live sid ≡ true
    → is_other current live entry.remote_id ≡ true
other-Entry current live sid entry same h = subst (λ i. is_other current live i ≡ true) (sym same) h

candidate_pool-All :
    (current : Text) (items : List ManagedSession) (sessions : List SessionInfo)
    (ledger : Dict ManagedSession)
    → AllEntries (IsEntry items) ledger
    → All
        (λ e. IsExpendable current items sessions e.remote_id)
        (candidate_pool current (live_from sessions []) ledger)
unfolding candidate_pool
candidate_pool-All current items sessions [] h = tt
candidate_pool-All current items sessions ((sid, entry) ∷ ledger) ((same, owned, from), h) =
    let live = live_from sessions [] in
    let rest = candidate_pool-All current items sessions ledger h in
    elim (Bool-cases (is_other current live sid && not entry.pinned)) [
      | inr q ↦ rw (q, candidate_pool) rest
      | inl q ↦
          rw (q, candidate_pool)
            (
              (
                entry,
                from,
                refl,
                owned,
                ground (arith, q),
                other-Entry current live sid entry same (ground (arith, q)),
              ),
              rest,
            )
    ]

drop_first-All :
    (P : ManagedSession → Type 0) (n : ℕ) (xs : List ManagedSession)
    → All P xs
    → All P (drop_first n xs)
unfolding drop_first
drop_first-All P zero xs h = h
drop_first-All P (suc n) [] h = tt
drop_first-All P (suc n) (x ∷ xs) h = drop_first-All P n xs h.1

revoke_all-All :
    (P : Text → Type 0) (r : Remote) (token : Text) (entries : List ManagedSession)
    (result : CleanupResult) (ledger : Dict ManagedSession) (w : Sweep)
    → All (λ e. P e.remote_id) entries
    → All P w.requests
    → All P (revoke_all r token entries result ledger w).2.requests
unfolding revoke_all
revoke_all-All P r token [] result ledger w h k = k
revoke_all-All P r token (entry ∷ entries) result ledger w h k =
    elim (Reply-cases (r.revoke w.asked token entry.remote_id)) [
      | inl (current, q) ↦ rw (q, revoke_all) (revoke_all-All P r token entries _ _ _ h.1 (h.0, k))
      | inr (why, q) ↦ rw (q, revoke_all) (revoke_all-All P r token entries _ _ _ h.1 (h.0, k))
    ]

save_ledger-requests :
    (r : Remote) (account_id : Text) (bundle : Bundle)
    (done : CleanupResult × Dict ManagedSession × Sweep)
    → (save_ledger r account_id bundle done).1.requests ≡ done.2.requests
unfolding save_ledger
save_ledger-requests r account_id bundle (result, ledger, w) = ground arith

sweep-All :
    (r : Remote) (durable_limit : ℕ) (account_id : Text) (bundle : Bundle)
    (sessions : List SessionInfo) (n : ℕ)
    → All
        (IsExpendable (r.session_id bundle.parent_access_token) bundle.managed_sessions sessions)
        (sweep r durable_limit account_id bundle sessions
          (record { asked = n; requests = []; saved = [] })).1.requests
unfolding sweep to_revoke
sweep-All r durable_limit account_id bundle sessions n =
    let items = bundle.managed_sessions in
    let current = r.session_id bundle.parent_access_token in
    let live = live_from sessions [] in
    let ledger = ledger_from items [] in
    let pool = candidate_pool current live ledger in
    let P = λ (e : ManagedSession). IsExpendable current items sessions e.remote_id in
    let expendable =
      candidate_pool-All current items sessions ledger
        (ledger_from-AllEntries items items [] (All-Among items) tt) in
    let w : Sweep = record { asked = n; requests = []; saved = [] } in
    rw
      (save_ledger-requests r account_id bundle (
        revoke_all r bundle.parent_access_token (to_revoke durable_limit pool) no_result
          (still_live live ledger) w))
      (revoke_all-All (IsExpendable current items sessions) r bundle.parent_access_token
        (to_revoke durable_limit pool) no_result (still_live live ledger) w
        (drop_first-All P durable_limit (sort_by seen_later pool)
          (sort_by-All seen_later P pool expendable))
        tt)

-- A sweep that has asked for no revocation.
abbrev pub begin : ℕ → Sweep
begin n = record { asked = n; requests = []; saved = [] }

-- No revocation was asked for, or all were of expendable sessions, by the secrets that the vault has
-- given and the sessions that the platform has listed.
abbrev pub AreExpendable : Remote → ℕ → Text → Sweep → Type 0
AreExpendable r n account_id w =
    (w.requests ≡ [])
    ⊎ ((bundle : Bundle) × (sessions : List SessionInfo) × (r.load n account_id
          ≡ reply (some bundle))
        × (r.sessions (n + 1 + 1) bundle.parent_access_token ≡ reply sessions)
        × All
            (IsExpendable (r.session_id bundle.parent_access_token) bundle.managed_sessions
              sessions)
            w.requests)

-- Cleanup asks for the revocation of a session only if the workbench's ledger in the vault holds it as
-- created by the workbench and not pinned, and the platform lists it as another than the current one,
-- by the platform's mark and by the token in use. Sessions that the ledger does not know are never
-- touched.
pub cleanup-AreExpendable :
    (r : Remote) (durable_limit : ℕ) (account_id : Text) (n : ℕ)
    → AreExpendable r n account_id (cleanup r durable_limit account_id (begin n)).1
unfolding cleanup clean_bundle
cleanup-AreExpendable r durable_limit account_id n = elim (Reply-cases (r.load n account_id)) [
  | inr (why, q) ↦ rw (q, cleanup) (inl refl)
  | inl (found, q) ↦ elim (Option-cases found) [
    | inl none_found ↦ rw (q, none_found, cleanup) (inl refl)
    | inr (bundle, is_found) ↦ elim (Option-cases (r.new_client (n + 1) bundle.cookies)) [
      | inr (why, c) ↦ rw (q, is_found, cleanup, c, clean_bundle) (inl refl)
      | inl c ↦ elim (Reply-cases (r.sessions (n + 1 + 1) bundle.parent_access_token)) [
        | inr (why, s) ↦ rw (q, is_found, cleanup, c, clean_bundle, s) (inl refl)
        | inl (sessions, s) ↦
            rw (q, is_found, cleanup, c, clean_bundle, s)
              (inr (
                bundle,
                sessions,
                refl,
                s,
                sweep-All r durable_limit account_id bundle sessions (n + 1 + 2),
              ))
      ]
    ]
  ]
]
