-- ===== src/Service.antt =====
-- The runner of internal/service/runner.go: requests to the website between steps on the store.
pub mod Activity
pub mod Checkin
pub mod DailyClaim
pub mod ManualDraw
pub mod Queries
pub mod Quota
pub mod Purchase
pub mod AutoDraw
use lottery.Prelude.{
  ℕ, ◌/◌, ◌%◌, take, ◌+◌, ◌-◌, Bool, true, false, ◌&&◌, ◌||◌, not, Option, none, some, List, [],
  ◌∷◌, ◌++◌, leb, ltb, ◌==◌, if◌then◌else◌, ◌≡◌, refl, ◌⊎◌, inl, inr,
}
use lottery.Prelude.Text.{Text, codes, text_eq, is_empty, rune_len, trim_space}
use lottery.Prelude.Int.{ℤ, pos, add_int}
use lottery.Prelude.Time.{Time}
use lottery.Prelude.Result.{Error, Result, ok, err}
use lottery.Account.{Record, status_enabled}
use lottery.State.Types.{Cookie, Action, Store}
use lottery.State.Persist.{Env}
use lottery.State.Actions.{update_action}
use lottery.State.Accounts.{get_account, set_auth_health}
use lottery.Website.{
  Fault, api, reauth_required, canceled, timed_out, other, from_store, is_status, is_transient,
  Dashboard, ClaimResult, OperationResult, CheckinResult, CheckinStatus, CheckinEligibility,
  StatusSettings, DrawResult, auth_unavailable,
}
use lottery.Service.Activity.{ActivityReport}

pub record Session : Type 0 where
  pub token : Text
  pub cookies : List Cookie
  pub user_id : ℤ

pub data Reply {ℓ} (A : Type ℓ) : Type ℓ where
  reply : A → Reply A
  fault : Fault → Reply A

pub Reply-cases {ℓ} :
    {A : Type ℓ} (r : Reply A) → ((a : A) × (r ≡ reply a)) ⊎ ((why : Fault) × (r ≡ fault why))
Reply-cases (reply a) = inl (a, refl)
Reply-cases (fault why) = inr (why, refl)

-- What the outside answers to the n-th step of a call: the website, the clock as the date in
-- Shanghai, the store's environment, and the authentication broker, which may also set the health of
-- the account. A wait may be cut short by the context. A purchase and an unlock carry an idempotency key;
-- `marshal` is the JSON text of a report. `others` is what other calls do to the store while a call
-- that takes no lock is between two steps.
pub record Site : Type 0 where
  pub today : ℕ → Text
  pub env : ℕ → Env
  pub acquire : ℕ → Reply Session
  pub renew_lottery : ℕ → Text → Reply Session
  pub health : ℕ → Option Text
  pub client_for : ℕ → Session → Reply (Unit {0})
  pub wait : ℕ → Reply (Unit {0})
  pub dashboard : ℕ → Text → Reply Dashboard
  pub claim : ℕ → Text → Reply ClaimResult
  pub now : ℕ → Time
  pub purchase : ℕ → Text → Text → Reply OperationResult
  pub unlock : ℕ → Text → Text → Reply OperationResult
  pub marshal : ActivityReport → Text
  pub renew_parent : ℕ → Text → Reply Session
  pub others : ℕ → Store → Store
  pub checkin : ℕ → Text → Reply CheckinResult
  pub checkin_status : ℕ → Text → Reply CheckinStatus
  pub eligibility : ℕ → Text → ℤ → Reply CheckinEligibility
  pub status : ℕ → Text → Reply StatusSettings
  pub draw : ℕ → Text → Text → Reply DrawResult

-- The store, the steps taken so far, the store as it was when each claim was posted, and the
-- idempotency key of each order, a purchase or an unlock, with the store at that time; the store at
-- each check-in, and the idempotency key of each draw; the latest first.
pub record World : Type 0 where
  pub store : Store
  pub asked : ℕ
  pub posts : List Store
  pub orders : List (Text × Store)
  pub checkins : List Store
  pub draws : List Text

abbrev pub Step : Type 0 → Type 0
Step A = Reply A × World

-- `if err != nil { ... }` with both continuations.
unfoldable pub handle :
    {A B : Type 0} → Step A → (Fault → World → Step B) → (A → World → Step B) → Step B
handle (reply a, w) failed next = next a w
handle (fault why, w) failed next = failed why w

-- `if err != nil { return err }`
unfoldable pub after : {A B : Type 0} → Step A → (A → World → Step B) → Step B
after r next = handle r (λ why w. (fault why, w)) next

unfoldable pub of_result : {A : Type 0} → Result A → Reply A
of_result (ok a) = reply a
of_result (err why) = fault (from_store why)

-- A call of the store.
unfoldable pub on_store : {A : Type 0} → (Env → Store → Result A × Store) → Site → World → Step A
on_store call site w =
    let done = call (site.env w.asked) w.store in
    (of_result done.0, record w { store = done.1; asked = w.asked + 1 })

-- A question to the outside.
unfoldable pub ask : {A : Type 0} → (ℕ → Reply A) → World → Step A
ask question w = (question w.asked, record w { asked = w.asked + 1 })

-- What the broker does to the store on the side; it ignores a failed write.
unfoldable pub noted_health : Site → Text → World → World
noted_health site account_id w = elim (site.health w.asked) [
  | none ↦ w
  | some health ↦ record w {
    store = (set_auth_health (site.env w.asked) account_id health w.store).1;
  }
]

-- Runner.acquire, for whichever kind of session and intent the step asks for.
unfoldable pub acquire : Site → Text → World → Step Session
acquire site account_id w = ask site.acquire (noted_health site account_id w)

-- Runner.renewLottery
unfoldable pub renew_lottery : Site → Text → Text → World → Step Session
renew_lottery site account_id rejected w =
    ask (λ n. site.renew_lottery n rejected) (noted_health site account_id w)

-- Runner.renewParent
unfoldable pub renew_parent : Site → Text → Text → World → Step Session
renew_parent site account_id rejected w =
    ask (λ n. site.renew_parent n rejected) (noted_health site account_id w)

-- Runner.clientFor
unfoldable pub client_for : Site → Session → World → Step (Unit {0})
client_for site sess w = ask (λ n. site.client_for n sess) w

unfoldable pub ask_dashboard : Site → Session → World → Step Dashboard
ask_dashboard site sess w = ask (λ n. site.dashboard n sess.token) w

-- The request that claims; what the store holds at that time is noted.
unfoldable pub post_claim : Site → Session → World → Step ClaimResult
post_claim site sess w = ask (λ n. site.claim n sess.token) (record w { posts = w.store ∷ w.posts })

-- What a request with recovery gives: the answer, and the session that it leaves, in faults as well.
pub record Recovered (A : Type 0) : Type 0 where
  pub answer : Reply A
  pub session : Session

unfoldable pub left_with : {A : Type 0} → Session → Step A → Recovered A × World
left_with sess (answer, w) = (record { answer = answer; session = sess }, w)

unfoldable pub map_reply : {A B : Type 0} → (A → B) → Reply A → Reply B
map_reply f (reply a) = reply (f a)
map_reply f (fault why) = fault why

-- An answer with its session, in the form that `handle` and `after` take.
unfoldable pub as_step : {A : Type 0} → Recovered A × World → Step (A × Session)
as_step (r, w) = (map_reply (λ a. (a, r.session)) r.answer, w)

unfoldable pub fetch_after : Site → Session → Step (Unit {0}) → Recovered Dashboard × World
fetch_after site sess (fault why, w) = left_with sess (fault why, w)
fetch_after site sess (reply _, w) = left_with sess (ask_dashboard site sess w)

unfoldable pub fetch_renewed : Site → Session → Step Session → Recovered Dashboard × World
fetch_renewed site sess (fault why, w) = left_with sess (fault why, w)
fetch_renewed site sess (reply renewed, w) = fetch_after site renewed (client_for site renewed w)

-- The second attempt of dashboardWithRecovery.
unfoldable pub retry_dashboard : Site → Text → Session → Fault → World → Recovered Dashboard × World
retry_dashboard site account_id sess why w =
    if is_status why 401 || is_status why 403
    then fetch_renewed site sess (renew_lottery site account_id sess.token w)
    else if not (is_transient why)
    then left_with sess (fault why, w)
    else fetch_after site sess (ask site.wait w)

unfoldable pub recover_dashboard :
    Site → Text → Session → Step Dashboard → Recovered Dashboard × World
recover_dashboard site account_id sess (reply dashboard, w) = left_with sess (reply dashboard, w)
recover_dashboard site account_id sess (fault why, w) = retry_dashboard site account_id sess why w

-- Runner.dashboardWithRecovery
unfoldable pub dashboard_with_recovery : Site → Text → Session → World → Recovered Dashboard × World
dashboard_with_recovery site account_id sess w =
    recover_dashboard site account_id sess (ask_dashboard site sess w)

unfoldable pub claim_again : Site → Session → Step (Unit {0}) → Recovered ClaimResult × World
claim_again site renewed (fault why, w) = left_with renewed (fault why, w)
claim_again site renewed (reply _, w) = left_with renewed (post_claim site renewed w)

unfoldable pub claim_renewed : Site → Session → Step Session → Recovered ClaimResult × World
claim_renewed site sess (fault why, w) = left_with sess (fault why, w)
claim_renewed site sess (reply renewed, w) = claim_again site renewed (client_for site renewed w)

unfoldable pub recover_claim :
    Site → Text → Session → Step ClaimResult → Recovered ClaimResult × World
recover_claim site account_id sess (reply result, w) = left_with sess (reply result, w)
recover_claim site account_id sess (fault why, w) =
    if not (is_status why 401)
    then left_with sess (fault why, w)
    else claim_renewed site sess (renew_lottery site account_id sess.token w)

-- Runner.claimWithRecovery
unfoldable pub claim_with_recovery : Site → Text → Session → World → Recovered ClaimResult × World
claim_with_recovery site account_id sess w =
    recover_claim site account_id sess (post_claim site sess w)

-- Runner.account
unfoldable pub enabled_account : Text → Store → Reply Record
enabled_account id s = elim (get_account id s) [
  | err why ↦ fault (from_store why)
  | ok r ↦
      if text_eq r.status status_enabled then reply r else fault (other (codes "账号已停用，无法执行该操作"))
]

-- Runner.finishAction
unfoldable pub finish_action : Site → Action → (Action → Action) → World → Step Action
finish_action site action change w = on_store (λ e. update_action e action.key change) site w

unfoldable pub started : Action → Action
started action = record action {
  side_effect_started = true;
  attempts = add_int action.attempts (pos 1);
}

-- Runner.startAction
unfoldable pub start_action : Site → Action → World → Step Action
start_action site action w = finish_action site action started w

-- authRetryable
unfoldable pub auth_retryable : Fault → Bool
auth_retryable (reauth_required text) = false
auth_retryable (api status text) = true
auth_retryable (canceled text) = true
auth_retryable (timed_out text) = true
auth_retryable (other text) = true
auth_retryable (auth_unavailable text) = true
auth_retryable (from_store why) = true

-- A byte that is no UTF-8 of its own.
abbrev stray : ℕ → ℕ
stray byte = 0x110000 + byte

-- The bytes of a rune of more than one byte, as bytes of their own.
unfoldable pub stray_bytes : ℕ → Text
stray_bytes c =
    if ltb c 0x800
    then stray (0xC0 + c / 0x40) ∷ stray (0x80 + c % 0x40) ∷ []
    else if ltb c 0x10000
    then stray (0xE0 + c / 0x1000) ∷ stray (0x80 + c / 0x40 % 0x40) ∷ stray (0x80 + c % 0x40) ∷ []
    else stray (0xF0 + c / 0x40000)
      ∷ stray (0x80 + c / 0x1000 % 0x40)
      ∷ stray (0x80 + c / 0x40 % 0x40)
      ∷ stray (0x80 + c % 0x40)
      ∷ []

-- The first bytes of a text. A rune that is cut leaves bytes that are no UTF-8.
unfoldable pub cut_bytes : ℕ → Text → Text
unfolding stray_bytes
cut_bytes room [] = []
cut_bytes room (c ∷ s) =
    let rest = cut_bytes (room - rune_len c) s in
    if leb (rune_len c) room then c ∷ rest else take room (stray_bytes c)

unfoldable pub error_text : Fault → Text
error_text (api status text) = text
error_text (reauth_required text) = text
error_text (canceled text) = text
error_text (timed_out text) = text
error_text (other text) = text
error_text (auth_unavailable text) = text
error_text (from_store why) = []

-- safeError; the wording of the store's own errors is not modelled.
unfoldable pub safe_error : Fault → Text
safe_error why = cut_bytes 240 (trim_space (error_text why))

pub record ActionOutcome : Type 0 where
  pub action : Action
  pub already_recorded : Bool

-- firstNonEmpty of two texts.
unfoldable pub first_non_empty : Text → Text → Text
first_non_empty value fallback =
    if not (is_empty (trim_space value))
    then trim_space value
    else if not (is_empty (trim_space fallback))
    then trim_space fallback
    else codes "-"
