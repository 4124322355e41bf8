-- ===== src/Auth/Issued.antt =====
-- The sessions that Acquire gives out, and the logins that it makes for them.
use lottery.Prelude.{
  ℕ, ◌≡◌, refl, ap, ◌∙◌, ◌⊎◌, inl, inr, Bool, true, false, ◌&&◌, ◌||◌, not, List, ◌∷◌, Bool-cases,
  Option-cases, arith, if◌then◌else◌,
}
use lottery.Prelude.Text.{Text, is_empty, trim_space}
use lottery.Prelude.Int.{ltb_ℤ, pos}
use lottery.Prelude.Time.{Time}
use lottery.Website.{Fault}
use lottery.Service.{reply, fault, Session}
use lottery.Auth.Ledger.{Bundle, track_managed_session}
use lottery.Auth.{
  Intent, is_explicit, SessionKind, session_parent, session_lottery, LoginResult, BridgeResult,
  Platform, Memory, Call, on_reply, and_then, query, as_reply, is_rejection, usable_token,
  load_bundle, noted_healthy, persist_locked, with_parent, persist_parent_session_locked,
  persist_lottery_session_locked, ask_refresh, refresh_parent_locked, ask_login, reloaded, guarded,
  explicit_login_locked, without_parent, new_parent, validate_parent, parent_session_locked,
  ask_bridge, bridge_again, bridge_lottery_locked, saved_session, saved_or, new_session,
  acquire_locked, acquire, has_usable_parent, has_usable_lottery,
}

-- What holds after a call: of the memory if it fails, else of its reply and the memory.
abbrev pub Yields : {A : Type 0} → (Memory → Type 0) → (A → Memory → Type 0) → Call A → Type 0
Yields P Q (reply a, m) = Q a m
Yields P Q (fault why, m) = P m

on_reply-Yields :
    {A B : Type 0} (P R : Memory → Type 0) (Q : A → Memory → Type 0) (S : B → Memory → Type 0)
    (r : Call A) (failed : Fault → Memory → Call B) (next : A → Memory → Call B)
    → Yields P Q r
    → ((why : Fault) (v : Memory) → P v → Yields R S (failed why v))
    → ((a : A) (v : Memory) → Q a v → Yields R S (next a v))
    → Yields R S (on_reply r failed next)
unfolding on_reply
on_reply-Yields P R Q S (reply a, m) failed next h f n = n a m h
on_reply-Yields P R Q S (fault why, m) failed next h f n = f why m h

and_then-Yields :
    {A B : Type 0} (R : Memory → Type 0) (Q : A → Memory → Type 0) (S : B → Memory → Type 0)
    (r : Call A) (next : A → Memory → Call B)
    → Yields R Q r
    → ((a : A) (v : Memory) → Q a v → Yields R S (next a v))
    → Yields R S (and_then r next)
unfolding and_then
and_then-Yields R Q S r next h n = on_reply-Yields R R Q S r _ next h (λ why v k. k) n

stays : {A : Type 0} (P : Memory → Type 0) (r : Call A) → P r.1 → Yields P (λ a. P) r
stays P (reply a, m) h = h
stays P (fault why, m) h = h

choose-Yields :
    {A : Type 0} (P : Memory → Type 0) (Q : A → Memory → Type 0) (b : Bool) (r s : Call A)
    → (b ≡ true → Yields P Q r)
    → (b ≡ false → Yields P Q s)
    → Yields P Q (if b then r else s)
choose-Yields P Q true r s h k = h refl
choose-Yields P Q false r s h k = k refl

-- The bundle was saved last.
abbrev pub IsSaved : Bundle → Memory → Type 0
IsSaved b m = (rest : List Bundle) × (m.saved ≡ b ∷ rest)

with_parent-token :
    (p : Platform) (result : LoginResult) (n : ℕ) (b : Bundle)
    → (with_parent p result n b).parent_access_token ≡ trim_space result.access_token
unfolding with_parent track_managed_session
with_parent-token p result n b =
    let token = trim_space result.access_token in
    elim (Bool-cases (is_empty (p.session_id token))) [
      | inl q ↦ rw (q, with_parent, track_managed_session) refl
      | inr q ↦ rw (q, with_parent, track_managed_session) refl
    ]

module _ (p : Platform) (id : Text) (R : List (Text × Text) → Type 0) where
  abbrev Logins : Memory → Type 0
  Logins m = R m.logins

  -- A bundle with a token of the parent session, or of the lottery session.
  abbrev HasParent : Bundle → Memory → Type 0
  HasParent b m = R m.logins × IsSaved b m × (is_empty b.parent_access_token ≡ false)

  abbrev HasLottery : Bundle → Memory → Type 0
  HasLottery b m = R m.logins × IsSaved b m × (is_empty b.lottery_access_token ≡ false)

  persist-Yields :
      (b : Bundle) (m : Memory)
      → R m.logins
      → Yields Logins (λ x v. R v.logins × IsSaved b v) (persist_locked p id b m)
  unfolding persist_locked query noted_healthy
  persist-Yields b m h =
      on_reply-Yields Logins Logins (λ x. Logins) (λ x v. R v.logins × IsSaved b v) _ _ _
        (stays Logins (query (λ n. as_reply (p.save n id b)) m) h) (λ why v k. k)
        (λ x v k. (k, (v.saved, refl)))

  persist_parent-Yields :
      (b : Bundle) (result : LoginResult) (m : Memory)
      → R m.logins
      → Yields Logins HasParent (persist_parent_session_locked p id b result m)
  unfolding persist_parent_session_locked
  persist_parent-Yields b result m h =
      let written = with_parent p result m.asked b in
      choose-Yields Logins HasParent
        (not (ltb_ℤ (pos 0) result.user_id) || is_empty (trim_space result.access_token)) _ _
        (λ q. h)
        (λ q.
          and_then-Yields Logins (λ x v. R v.logins × IsSaved written v) HasParent _ _
            (persist-Yields written m h)
            (λ x v k.
              (k.0, k.1, ap is_empty (with_parent-token p result m.asked b) ∙ ground (arith, q))))

  persist_lottery-Yields :
      (b : Bundle) (result : BridgeResult) (m : Memory)
      → R m.logins
      → Yields Logins HasLottery (persist_lottery_session_locked p id b result m)
  unfolding persist_lottery_session_locked
  persist_lottery-Yields b result m h =
      let written = record b {
        lottery_access_token = trim_space result.access_token;
        lottery_access_expires_at = result.expires_at;
        cookies = p.cookies m.asked;
      } in
      choose-Yields Logins HasLottery (is_empty (trim_space result.access_token)) _ _ (λ q. h)
        (λ q.
          and_then-Yields Logins (λ x v. R v.logins × IsSaved written v) HasLottery _ _
            (persist-Yields written m h) (λ x v k. (k.0, k.1, q)))

  refresh-Yields :
      (b : Bundle) (m : Memory)
      → R m.logins
      → Yields Logins HasParent (refresh_parent_locked p id b m)
  unfolding refresh_parent_locked ask_refresh query
  refresh-Yields b m h =
      on_reply-Yields Logins Logins (λ x. Logins) HasParent _ _ _ (stays Logins (ask_refresh p m) h)
        (λ why v k. choose-Yields Logins HasParent (is_rejection why) _ _ (λ q. k) (λ q. k))
        (λ result v k. persist_parent-Yields b result v k)

  bridge_again-Yields :
      (b : Bundle) (m : Memory) → R m.logins → Yields Logins HasLottery (bridge_again p id b m)
  unfolding bridge_again ask_bridge query
  bridge_again-Yields b m h =
      and_then-Yields Logins HasParent HasLottery _ _ (refresh-Yields b m h) λ c v k.
        on_reply-Yields Logins Logins (λ x. Logins) HasLottery _ _ _
          (stays Logins (ask_bridge p c.parent_access_token c v) k.0)
          (λ why u l. choose-Yields Logins HasLottery (is_rejection why) _ _ (λ q. l) (λ q. l))
          (λ result u l. persist_lottery-Yields c result u l)

  bridge-Yields :
      (b : Bundle) (token : Text) (m : Memory)
      → R m.logins
      → Yields Logins HasLottery (bridge_lottery_locked p id b token m)
  unfolding bridge_lottery_locked ask_bridge query
  bridge-Yields b token m h =
      on_reply-Yields Logins Logins (λ x. Logins) HasLottery _ _ _
        (stays Logins (query (λ n. as_reply (p.new_client n b.cookies)) m) h) (λ why v k. k)
        λ x v k.
          on_reply-Yields Logins Logins (λ y. Logins) HasLottery _ _ _
            (stays Logins (ask_bridge p token b v) k)
            (λ why u l.
              choose-Yields Logins HasLottery (is_rejection why) _ _
                (λ q. bridge_again-Yields b u l) (λ q. l))
            (λ result u l. persist_lottery-Yields b result u l)

-- Since `old`, no login was made, or one, with a name and a password that are given.
abbrev pub Logged : List (Text × Text) → List (Text × Text) → Type 0
Logged old now =
    (now ≡ old)
    ⊎ ((name password : Text) × (is_empty (trim_space name) ≡ false)
        × (is_empty password ≡ false)
        × (now ≡ (name, password) ∷ old))

module _ (p : Platform) (id : Text) (old : List (Text × Text)) (before : List Bundle) where
  abbrev Clean : Memory → Type 0
  Clean m = (m.logins ≡ old) × (m.saved ≡ before)

  abbrev Ended : Memory → Type 0
  Ended m = Logged old m.logins

  -- A token, with the bundle that was saved last if one was saved.
  abbrev IsVouched : Text × Bundle → Memory → Type 0
  IsVouched (token, b) m = Ended m × (is_empty token ≡ false) × ((m.saved ≡ before) ⊎ IsSaved b m)

  -- A session with a token; its cookies and its user are those of the bundle that was saved last.
  abbrev pub IsIssued : Session → Memory → Type 0
  IsIssued s m =
      Logged old m.logins
      × (is_empty s.token ≡ false)
      × ((m.saved ≡ before)
          ⊎ ((b : Bundle) × IsSaved b m × (s.cookies ≡ b.cookies) × (s.user_id ≡ b.user_id)))

  load-Yields : (m : Memory) → Clean m → Yields Clean (λ b. Clean) (load_bundle p id m)
  unfolding load_bundle query
  load-Yields m h =
      on_reply-Yields Clean Clean (λ x. Clean) (λ b. Clean) _ _ _
        (stays Clean (query (λ n. p.load n id) m) h) (λ why v k. k) (λ found v k. k)

  -- The credentials are those of the bundle.
  abbrev IsSame : Bundle → Bundle → Memory → Type 0
  IsSame b c m = Clean m × (c.login_name ≡ b.login_name) × (c.password ≡ b.password)

  reloaded-Yields :
      (b : Bundle) (m : Memory) → Clean m → Yields Clean (IsSame b) (reloaded p id b m)
  unfolding reloaded
  reloaded-Yields b m h =
      on_reply-Yields Clean Clean (λ c. Clean) (IsSame b) _ _ _ (load-Yields m h)
        (λ why v k. (k, refl, refl)) (λ found v k. (k, refl, refl))

  guarded-Yields : (b : Bundle) (m : Memory) → Clean m → Yields Clean (IsSame b) (guarded p id b m)
  unfolding guarded query
  guarded-Yields b m h = elim (Option-cases p.capacity_hook) [
    | inl q ↦ rw (q, guarded) (h, refl, refl)
    | inr (hook, q) ↦
        rw (q, guarded)
          (and_then-Yields Clean (λ x. Clean) (IsSame b) _ _
            (stays Clean (query (λ n. as_reply (hook n)) m) h) (λ x v k. reloaded-Yields b v k))
  ]

  explicit-Yields :
      (b : Bundle) (m : Memory)
      → Clean m
      → Yields Ended (HasParent p id (Logged old)) (explicit_login_locked p id b m)
  unfolding explicit_login_locked ask_login query and_then
  explicit-Yields b m h =
      let Q = HasParent p id (Logged old) in
      choose-Yields Ended Q (is_empty (trim_space b.login_name) || is_empty b.password) _ _
        (λ q. inl h.0)
        (λ q.
          on_reply-Yields Clean Ended (IsSame b) Q _ _ _ (guarded-Yields b m h) (λ why v k. inl k.0)
            λ c v k.
              let named : is_empty (trim_space c.login_name) ≡ false =
                ap (λ t. is_empty (trim_space t)) k.1 ∙ ground (arith, q) in
              let secret : is_empty c.password ≡ false = ap is_empty k.2 ∙ ground (arith, q) in
              let once : Ended (ask_login p c v).1 = inr (
                c.login_name,
                c.password,
                named,
                secret,
                ap (λ l. (c.login_name, c.password) ∷ l) k.0.0,
              ) in
              on_reply-Yields Ended Ended (λ x. Ended) Q _ _ _ (stays Ended (ask_login p c v) once)
                (λ why u l. choose-Yields Ended Q (is_rejection why) _ _ (λ q. l) (λ q. l))
                (λ result u l. persist_parent-Yields p id (Logged old) c result u l))

  new_parent-Yields :
      (b : Bundle) (intent : Intent) (m : Memory)
      → Clean m
      → Yields Ended IsVouched (new_parent p id b intent m)
  unfolding new_parent
  new_parent-Yields b intent m h =
      let Q = HasParent p id (Logged old) in
      and_then-Yields Ended Q IsVouched _ _
        (choose-Yields Ended Q (not (is_explicit intent)) _ _
          (λ q. refresh-Yields p id (Logged old) (without_parent b) m (inl h.0))
          (λ q. explicit-Yields b m h))
        (λ c v k. (k.0, k.2, inr k.1))

  validate-Yields :
      (b : Bundle) (intent : Intent) (token : Text) (m : Memory)
      → is_empty token ≡ false
      → Clean m
      → Yields Ended IsVouched (validate_parent p id b intent token m)
  unfolding validate_parent query
  validate-Yields b intent token m given h =
      on_reply-Yields Clean Ended (λ x. Clean) IsVouched _ _ _
        (stays Clean (query (λ n. as_reply (p.user_self n token)) m) h)
        (λ why v k.
          choose-Yields Ended IsVouched (is_rejection why) _ _ (λ q. new_parent-Yields b intent v k)
            (λ q. inl k.0))
        λ x v k.
          let written = record b { cookies = p.cookies v.asked } in
          and_then-Yields Ended (λ y u. Ended u × IsSaved written u) IsVouched _ _
            (persist-Yields p id (Logged old) written v (inl k.0)) (λ y u l. (l.0, given, inr l.1))

  usable-given :
      (token : Text) (expires now : Time)
      → usable_token token expires now ≡ true
      → is_empty token ≡ false
  unfolding usable_token trim_space
  usable-given token expires now h = ground arith

  parent_session-Yields :
      (b : Bundle) (intent : Intent) (m : Memory)
      → Clean m
      → Yields Ended IsVouched (parent_session_locked p id b intent m)
  unfolding parent_session_locked has_usable_parent query
  parent_session-Yields b intent m h =
      let token = trim_space b.parent_access_token in
      choose-Yields Ended IsVouched (has_usable_parent b (p.now m.asked)) _ _
        (λ q. (
          inl h.0,
          usable-given b.parent_access_token b.parent_access_expires_at (p.now m.asked) q,
          inl h.1,
        ))
        (λ q.
          on_reply-Yields Clean Ended (λ x. Clean) IsVouched _ _ _
            (stays Clean (query (λ n. as_reply (p.new_client n b.cookies)) m) h)
            (λ why v k. inl k.0)
            λ x v k.
              choose-Yields Ended IsVouched (not (is_empty token) && not (is_explicit intent)) _ _
                (λ r. validate-Yields b intent token v (ground (arith, r)) k)
                (λ r. new_parent-Yields b intent v k))

  new_session-Yields :
      (intent : Intent) (kind : SessionKind) (b : Bundle) (m : Memory)
      → Clean m
      → Yields Ended IsIssued (new_session p id intent kind b m)
  unfolding new_session
  new_session-Yields intent session_parent b m h =
      and_then-Yields Ended IsVouched IsIssued _ _ (parent_session-Yields b intent m h)
        λ (token, c) v (l, given, k).
          (l, given, elim k [ inl same ↦ inl same | inr last ↦ inr (c, last, refl, refl) ])
  new_session-Yields intent session_lottery b m h =
      and_then-Yields Ended IsVouched IsIssued _ _ (parent_session-Yields b intent m h)
        λ (token, c) v (l, given, k).
          and_then-Yields Ended (HasLottery p id (Logged old)) IsIssued _ _
            (bridge-Yields p id (Logged old) c token v l)
            (λ d u n. (n.0, n.2, inr (d, n.1, refl, refl)))

  -- A saved session is given out only if it is usable, and so has a token.
  saved_session-Yields :
      (kind : SessionKind) (b : Bundle) (m : Memory) (rest : Call Session)
      → Clean m
      → Yields Ended IsIssued rest
      → Yields Ended IsIssued (saved_or (saved_session kind b (p.now m.asked)) m rest)
  unfolding saved_session saved_or has_usable_parent has_usable_lottery
  saved_session-Yields session_parent b m rest h k =
      elim (Bool-cases (has_usable_parent b (p.now m.asked))) [
        | inr q ↦ rw (q, saved_session, saved_or) k
        | inl q ↦
            rw (q, saved_session, saved_or)
              (
                inl h.0,
                usable-given b.parent_access_token b.parent_access_expires_at (p.now m.asked) q,
                inl h.1,
              )
      ]
  saved_session-Yields session_lottery b m rest h k =
      elim (Bool-cases (has_usable_lottery b (p.now m.asked))) [
        | inr q ↦ rw (q, saved_session, saved_or) k
        | inl q ↦
            rw (q, saved_session, saved_or)
              (
                inl h.0,
                usable-given b.lottery_access_token b.lottery_access_expires_at (p.now m.asked) q,
                inl h.1,
              )
      ]

-- Acquire, with any intent, makes at most one login, with a name and a password that are given. A
-- session that it gives out has a token, and if the call has saved secrets, the session's cookies and
-- user are those of the bundle that was saved last.
pub acquire-IsIssued :
    (p : Platform) (id : Text) (intent : Intent) (kind : SessionKind) (m : Memory)
    → Yields
        (λ v. Logged m.logins v.logins)
        (IsIssued p id m.logins m.saved)
        (acquire p id intent kind m)
unfolding acquire acquire_locked and_then
acquire-IsIssued p id intent kind m =
    let C = Clean p id m.logins m.saved in
    let E = Ended p id m.logins m.saved in
    let I = IsIssued p id m.logins m.saved in
    let stop = λ (why : Fault) (v : Memory) (k : C v). inl k.0 in
    on_reply-Yields C E (λ b. C) I _ _ _ (load-Yields p id m.logins m.saved m (refl, refl)) stop
      λ b v k.
        saved_session-Yields p id m.logins m.saved kind b v (acquire_locked p id intent kind v) k (
          on_reply-Yields C E (λ c. C) I _ _ _ (load-Yields p id m.logins m.saved v k) stop
            λ c u l.
              saved_session-Yields p id m.logins m.saved kind c u (new_session p id intent kind c u)
                l (new_session-Yields p id m.logins m.saved intent kind c u l))
