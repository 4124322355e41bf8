-- ===== src/Auth.antt =====
-- The authentication broker of internal/auth/broker.go.
pub mod Ledger
pub mod Issued
pub mod Quiet
pub mod Remote
use lottery.Prelude.{
  ℕ, ◌+◌, Bool, true, false, ◌&&◌, ◌||◌, not, Option, none, some, List, [], ◌∷◌, if◌then◌else◌,
}
use lottery.Prelude.Text.{Text, codes, text_eq, is_empty, trim_space}
use lottery.Prelude.Int.{ℤ, pos, ltb_ℤ}
use lottery.Prelude.Time.{Time, zero_time, is_zero, before}
use lottery.Account.{auth_healthy}
use lottery.State.Types.{Cookie, Store}
use lottery.State.Persist.{Env}
use lottery.State.Accounts.{set_auth_health}
use lottery.Website.{Fault, reauth_required, auth_unavailable, other, is_status}
use lottery.Service.{Reply, reply, fault, Session}
use lottery.Auth.Ledger.{Bundle, no_bundle, track_managed_session}

pub data Intent : Type 0 where
  read_only side_effect scheduled_automation explicit_reauthenticate : Intent

unfoldable pub is_explicit : Intent → Bool
is_explicit read_only = false
is_explicit side_effect = false
is_explicit scheduled_automation = false
is_explicit explicit_reauthenticate = true

pub data SessionKind : Type 0 where
  session_parent session_lottery : SessionKind

pub record LoginResult : Type 0 where
  pub user_id : ℤ
  pub access_token : Text
  pub access_expires_at : Time

pub record BridgeResult : Type 0 where
  pub access_token : Text
  pub expires_at : Time

-- What the outside answers to the n-th step of a call: the vault, where `none` is a missing secret,
-- the platform client with the cookies that it has gathered, the capacity guard, the clock, and the
-- environment of the store. Other calls may change the vault between two steps, so that a load may
-- give any bundle. `session_id` is SessionIDFromAccessToken of internal/lottery/client.go.
pub record Platform : Type 0 where
  pub load : ℕ → Text → Reply (Option Bundle)
  pub save : ℕ → Text → Bundle → Option Fault
  pub new_client : ℕ → List Cookie → Option Fault
  pub user_self : ℕ → Text → Option Fault
  pub refresh : ℕ → Reply LoginResult
  pub login : ℕ → Text → Text → Reply LoginResult
  pub bridge : ℕ → Text → ℤ → Reply BridgeResult
  pub cookies : ℕ → List Cookie
  pub capacity_hook : Option (ℕ → Option Fault)
  pub now : ℕ → Time
  pub env : ℕ → Env
  pub session_id : Text → Text

-- The state store, the steps taken so far, the credentials of each login, the number of refreshes,
-- and the bundles that were saved; the latest first.
pub record Memory : Type 0 where
  pub store : Store
  pub asked : ℕ
  pub logins : List (Text × Text)
  pub refreshes : ℕ
  pub saved : List Bundle

abbrev pub Call : Type 0 → Type 0
Call A = Reply A × Memory

unfoldable pub on_reply :
    {A B : Type 0} → Call A → (Fault → Memory → Call B) → (A → Memory → Call B) → Call B
on_reply (reply a, m) failed next = next a m
on_reply (fault why, m) failed next = failed why m

-- `if err != nil { return err }`
unfoldable pub and_then : {A B : Type 0} → Call A → (A → Memory → Call B) → Call B
and_then r next = on_reply r (λ why m. (fault why, m)) next

unfoldable pub query : {A : Type 0} → (ℕ → Reply A) → Memory → Call A
query question m = (question m.asked, record m { asked = m.asked + 1 })

-- A step that only succeeds or fails.
unfoldable pub as_reply : Option Fault → Reply (Unit {0})
as_reply none = reply tt
as_reply (some why) = fault why

-- The error of a step, wrapped in ErrAuthUnavailable; its wording is not modelled.
abbrev pub unavailable : {A : Type 0} → Text → Memory → Call A
unavailable step m = (fault (auth_unavailable step), m)

abbrev pub reauth : {A : Type 0} → Text → Memory → Call A
reauth step m = (fault (reauth_required step), m)

-- isRejection
unfoldable pub is_rejection : Fault → Bool
is_rejection why = is_status why 401 || is_status why 403

-- A minute, in the clock's nanoseconds.
abbrev pub minute : ℕ
minute = 60000000000

-- usableToken
unfoldable pub usable_token : Text → Time → Time → Bool
usable_token token expires_at now =
    if is_empty (trim_space token)
    then false
    else is_zero expires_at || before (now + minute) expires_at

unfoldable pub has_usable_parent : Bundle → Time → Bool
has_usable_parent b now = usable_token b.parent_access_token b.parent_access_expires_at now

unfoldable pub has_usable_lottery : Bundle → Time → Bool
has_usable_lottery b now = usable_token b.lottery_access_token b.lottery_access_expires_at now

-- Broker.loadBundle
unfoldable pub load_bundle : Platform → Text → Memory → Call Bundle
load_bundle p account_id m =
    on_reply (query (λ n. p.load n account_id) m)
      (λ why m. unavailable (codes "load saved session") m)
      λ found m. (reply (elim found [ none ↦ no_bundle | some bundle ↦ bundle ]), m)

-- What the store does on the side; a failed write of the health is ignored.
unfoldable pub noted_healthy : Platform → Text → Memory → Memory
noted_healthy p account_id m = record m {
  store = (set_auth_health (p.env m.asked) account_id auth_healthy m.store).1;
  asked = m.asked + 1;
}

-- Broker.persistLocked for a healthy account
unfoldable pub persist_locked : Platform → Text → Bundle → Memory → Call (Unit {0})
persist_locked p account_id bundle m =
    on_reply (query (λ n. as_reply (p.save n account_id bundle)) m)
      (λ why m. unavailable (codes "persist session") m)
      λ _ m. (reply tt, noted_healthy p account_id (record m { saved = bundle ∷ m.saved }))

-- The bundle with a new parent session.
unfoldable pub with_parent : Platform → LoginResult → ℕ → Bundle → Bundle
with_parent p result n bundle =
    let token = trim_space result.access_token in
    track_managed_session (p.session_id token) (p.now n) (record bundle {
      user_id = result.user_id;
      parent_access_token = token;
      parent_access_expires_at = result.access_expires_at;
      lottery_access_token = [];
      lottery_access_expires_at = zero_time;
      cookies = p.cookies n;
    })

-- Broker.persistParentSessionLocked, which leaves the bundle with the new session.
unfoldable pub persist_parent_session_locked :
    Platform → Text → Bundle → LoginResult → Memory → Call Bundle
persist_parent_session_locked p account_id bundle result m =
    if not (ltb_ℤ (pos 0) result.user_id) || is_empty (trim_space result.access_token)
    then unavailable (codes "session response") m
    else let written = with_parent p result m.asked bundle in
      and_then (persist_locked p account_id written m) λ _ m. (reply written, m)

-- Broker.persistLotterySessionLocked
unfoldable pub persist_lottery_session_locked :
    Platform → Text → Bundle → BridgeResult → Memory → Call Bundle
persist_lottery_session_locked p account_id bundle result m =
    if is_empty (trim_space result.access_token)
    then unavailable (codes "bridge response") m
    else let written = record bundle {
      lottery_access_token = trim_space result.access_token;
      lottery_access_expires_at = result.expires_at;
      cookies = p.cookies m.asked;
    } in
      and_then (persist_locked p account_id written m) λ _ m. (reply written, m)

-- The request that refreshes; refreshes are counted.
unfoldable pub ask_refresh : Platform → Memory → Call LoginResult
ask_refresh p m = query p.refresh (record m { refreshes = m.refreshes + 1 })

-- Broker.refreshParentLocked
unfoldable pub refresh_parent_locked : Platform → Text → Bundle → Memory → Call Bundle
refresh_parent_locked p account_id bundle m =
    on_reply (ask_refresh p m)
      (λ why m.
        if is_rejection why
        then reauth (codes "refresh rejected") m
        else unavailable (codes "refresh saved session") m)
      λ result m. persist_parent_session_locked p account_id bundle result m

-- The request that logs in; its credentials are noted.
unfoldable pub ask_login : Platform → Bundle → Memory → Call LoginResult
ask_login p bundle m =
    query (λ n. p.login n bundle.login_name bundle.password)
      (record m { logins = (bundle.login_name, bundle.password) ∷ m.logins })

-- The bundle after the capacity guard: loaded again but for the credentials, if it loads.
unfoldable pub reloaded : Platform → Text → Bundle → Memory → Call Bundle
reloaded p account_id bundle m =
    on_reply (load_bundle p account_id m) (λ why m. (reply bundle, m))
      λ found m.
        (reply (record found { login_name = bundle.login_name; password = bundle.password }), m)

unfoldable pub guarded : Platform → Text → Bundle → Memory → Call Bundle
guarded p account_id bundle m = elim p.capacity_hook [
  | none ↦ (reply bundle, m)
  | some hook ↦ and_then (query (λ n. as_reply (hook n)) m) λ _ m. reloaded p account_id bundle m
]

-- Broker.explicitLoginLocked
unfoldable pub explicit_login_locked : Platform → Text → Bundle → Memory → Call Bundle
explicit_login_locked p account_id bundle m =
    if is_empty (trim_space bundle.login_name) || is_empty bundle.password
    then reauth (codes "no stored credentials for this account") m
    else (and_then (guarded p account_id bundle m) λ bundle m.
        on_reply (ask_login p bundle m)
          (λ why m.
            if is_rejection why
            then reauth (codes "login rejected") m
            else unavailable (codes "login request") m)
          λ result m. persist_parent_session_locked p account_id bundle result m)

unfoldable pub without_parent : Bundle → Bundle
without_parent bundle = record bundle {
  parent_access_token = [];
  parent_access_expires_at = zero_time;
}

-- The end of parentSessionLocked, which gives the token and the bundle.
unfoldable pub new_parent : Platform → Text → Bundle → Intent → Memory → Call (Text × Bundle)
new_parent p account_id bundle intent m =
    and_then
      (if not (is_explicit intent)
        then refresh_parent_locked p account_id (without_parent bundle) m
        else explicit_login_locked p account_id bundle m)
      λ bundle m. (reply (bundle.parent_access_token, bundle), m)

-- parentSessionLocked on a token that is stored but taken to have expired: the server tells.
unfoldable pub validate_parent :
    Platform → Text → Bundle → Intent → Text → Memory → Call (Text × Bundle)
validate_parent p account_id bundle intent token m =
    on_reply (query (λ n. as_reply (p.user_self n token)) m)
      (λ why m.
        if is_rejection why
        then new_parent p account_id bundle intent m
        else unavailable (codes "validate saved session") m)
      λ _ m.
        let written = record bundle { cookies = p.cookies m.asked } in
        and_then (persist_locked p account_id written m) λ _ m. (reply (token, written), m)

-- Broker.parentSessionLocked
unfoldable pub parent_session_locked :
    Platform → Text → Bundle → Intent → Memory → Call (Text × Bundle)
parent_session_locked p account_id bundle intent m =
    if has_usable_parent bundle (p.now m.asked)
    then (reply (bundle.parent_access_token, bundle), m)
    else on_reply (query (λ n. as_reply (p.new_client n bundle.cookies)) m)
        (λ why m. unavailable (codes "create platform client") m)
        λ _ m.
          let token = trim_space bundle.parent_access_token in
          if not (is_empty token) && not (is_explicit intent)
          then validate_parent p account_id bundle intent token m
          else new_parent p account_id bundle intent m

unfoldable pub ask_bridge : Platform → Text → Bundle → Memory → Call BridgeResult
ask_bridge p token bundle m = query (λ n. p.bridge n token bundle.user_id) m

-- bridgeLotteryLocked after a bridge that was rejected.
unfoldable pub bridge_again : Platform → Text → Bundle → Memory → Call Bundle
bridge_again p account_id bundle m =
    and_then (refresh_parent_locked p account_id bundle m) λ bundle m.
      on_reply (ask_bridge p bundle.parent_access_token bundle m)
        (λ why m.
          if is_rejection why
          then reauth (codes "bridge rejected after refresh") m
          else unavailable (codes "bridge lottery session") m)
        λ result m. persist_lottery_session_locked p account_id bundle result m

-- Broker.bridgeLotteryLocked
unfoldable pub bridge_lottery_locked : Platform → Text → Bundle → Text → Memory → Call Bundle
bridge_lottery_locked p account_id bundle parent_token m =
    on_reply (query (λ n. as_reply (p.new_client n bundle.cookies)) m)
      (λ why m. unavailable (codes "create platform client") m)
      λ _ m.
        on_reply (ask_bridge p parent_token bundle m)
          (λ why m.
            if is_rejection why
            then bridge_again p account_id bundle m
            else unavailable (codes "bridge lottery session") m)
          λ result m. persist_lottery_session_locked p account_id bundle result m

abbrev pub session_with : Text → Bundle → Session
session_with token bundle = record {
  token = token;
  cookies = bundle.cookies;
  user_id = bundle.user_id;
}

abbrev pub lottery_session : Bundle → Session
lottery_session bundle = session_with bundle.lottery_access_token bundle

-- The saved session of a bundle, if it is usable.
unfoldable pub saved_session : SessionKind → Bundle → Time → Option Session
saved_session session_parent bundle now =
    if has_usable_parent bundle now
    then some (session_with bundle.parent_access_token bundle)
    else none
saved_session session_lottery bundle now =
    if has_usable_lottery bundle now then some (lottery_session bundle) else none

-- `if usable { return saved }`
unfoldable pub saved_or : Option Session → Memory → Call Session → Call Session
saved_or (some found) m rest = (reply found, m)
saved_or none m rest = rest

-- Acquire once no saved session of the kind is usable.
unfoldable pub new_session : Platform → Text → Intent → SessionKind → Bundle → Memory → Call Session
new_session p account_id intent session_parent bundle m =
    and_then (parent_session_locked p account_id bundle intent m)
      λ (token, bundle) m. (reply (session_with token bundle), m)
new_session p account_id intent session_lottery bundle m =
    and_then (parent_session_locked p account_id bundle intent m) λ (token, bundle) m.
      and_then (bridge_lottery_locked p account_id bundle token m)
        λ bundle m. (reply (lottery_session bundle), m)

-- Acquire under the account's lock.
unfoldable pub acquire_locked : Platform → Text → Intent → SessionKind → Memory → Call Session
acquire_locked p account_id intent kind m = and_then (load_bundle p account_id m) λ bundle m.
    saved_or (saved_session kind bundle (p.now m.asked)) m
      (new_session p account_id intent kind bundle m)

-- Broker.Acquire
unfoldable pub acquire : Platform → Text → Intent → SessionKind → Memory → Call Session
acquire p account_id intent kind m = and_then (load_bundle p account_id m) λ bundle m.
    saved_or (saved_session kind bundle (p.now m.asked)) m
      (acquire_locked p account_id intent kind m)

-- Broker.Reauthenticate
unfoldable pub reauthenticate : Platform → Text → Memory → Call Session
unfolding acquire
reauthenticate p account_id m = acquire p account_id explicit_reauthenticate session_parent m

-- Broker.RenewParent
unfoldable pub renew_parent : Platform → Text → Text → Memory → Call Session
renew_parent p account_id rejected m = and_then (load_bundle p account_id m) λ bundle m.
    if not (text_eq bundle.parent_access_token (trim_space rejected))
      && has_usable_parent bundle (p.now m.asked)
    then (reply (session_with bundle.parent_access_token bundle), m)
    else (and_then (parent_session_locked p account_id (without_parent bundle) read_only m)
        λ (token, bundle) m. (reply (session_with token bundle), m))

-- RenewLottery with a parent session.
unfoldable pub renew_with : Platform → Text → Text × Bundle → Memory → Call Session
renew_with p account_id (token, bundle) m =
    and_then (bridge_lottery_locked p account_id bundle token m)
      λ bundle m. (reply (lottery_session bundle), m)

-- Broker.RenewLottery
unfoldable pub renew_lottery : Platform → Text → Text → Memory → Call Session
renew_lottery p account_id rejected m = and_then (load_bundle p account_id m) λ bundle m.
    if not (text_eq bundle.lottery_access_token (trim_space rejected))
      && has_usable_lottery bundle (p.now m.asked)
    then (reply (lottery_session bundle), m)
    else (let cleared = record bundle {
      lottery_access_token = [];
      lottery_access_expires_at = zero_time;
    } in
        if has_usable_parent cleared (p.now m.asked)
        then renew_with p account_id (cleared.parent_access_token, cleared) m
        else (and_then (parent_session_locked p account_id cleared read_only m)
            λ parent m. renew_with p account_id parent m))
