-- ===== src/Auth/Quiet.antt =====
-- What a call of the broker that is not an explicit reauthentication asks of the platform.
use lottery.Prelude.{
  ℕ, ◌+◌, ◌≤◌, ◌≡◌, refl, ◌∙◌, Bool, true, false, ◌&&◌, ◌||◌, not, Option, none, some, [], arith,
  if◌then◌else◌,
}
use lottery.Prelude.Text.{Text, text_eq, is_empty, trim_space}
use lottery.Prelude.Int.{ltb_ℤ, pos}
use lottery.Prelude.Time.{zero_time}
use lottery.Website.{Fault}
use lottery.Service.{Reply, reply, fault, Session}
use lottery.Auth.Ledger.{Bundle}
use lottery.Auth.{
  Intent, read_only, is_explicit, SessionKind, session_parent, session_lottery, LoginResult,
  BridgeResult, Platform, Memory, Call, on_reply, and_then, query, is_rejection, load_bundle,
  noted_healthy, persist_locked, persist_parent_session_locked, persist_lottery_session_locked,
  ask_refresh, refresh_parent_locked, without_parent, new_parent, validate_parent,
  parent_session_locked, ask_bridge, bridge_again, bridge_lottery_locked, saved_session,
  new_session, acquire_locked, acquire, renew_parent, renew_with, saved_or, renew_lottery,
  has_usable_parent, has_usable_lottery,
}

-- No login from the first memory to the second, and at most `k` refreshes.
abbrev pub Costs : ℕ → Memory → Memory → Type 0
Costs k m v = (v.logins ≡ m.logins) × (v.refreshes ≤ m.refreshes + k)

pub free : (k : ℕ) (m : Memory) → Costs k m m
free k m = (refl, ground arith)

on_reply-Costs :
    {A B : Type 0} (j k : ℕ) (m : Memory) (r : Call A) (failed : Fault → Memory → Call B)
    (next : A → Memory → Call B)
    → Costs j m r.1
    → ((why : Fault) (v : Memory) → Costs k v (failed why v).1)
    → ((a : A) (v : Memory) → Costs k v (next a v).1)
    → Costs (j + k) m (on_reply r failed next).1
unfolding on_reply
on_reply-Costs j k m (reply a, w) failed next h f n =
    let (same, few) = n a w in (same ∙ h.0, ground (arith, few, h.1))
on_reply-Costs j k m (fault why, w) failed next h f n =
    let (same, few) = f why w in (same ∙ h.0, ground (arith, few, h.1))

and_then-Costs :
    {A B : Type 0} (j k : ℕ) (m : Memory) (r : Call A) (next : A → Memory → Call B)
    → Costs j m r.1
    → ((a : A) (v : Memory) → Costs k v (next a v).1)
    → Costs (j + k) m (and_then r next).1
unfolding and_then
and_then-Costs j k m r next h n = on_reply-Costs j k m r _ next h (λ why v. free k v) n

choose-Costs :
    {A : Type 0} (k : ℕ) (m : Memory) (b : Bool) (r s : Call A)
    → Costs k m r.1
    → Costs k m s.1
    → Costs k m (if b then r else s).1
choose-Costs k m true r s h g = h
choose-Costs k m false r s h g = g

query-Costs : {A : Type 0} (question : ℕ → Reply A) (m : Memory) → Costs 0 m (query question m).1
unfolding query
query-Costs question m = (refl, ground arith)

load_bundle-Costs : (p : Platform) (id : Text) (m : Memory) → Costs 0 m (load_bundle p id m).1
unfolding load_bundle
load_bundle-Costs p id m =
    on_reply-Costs 0 0 m _ _ _ (query-Costs (λ n. p.load n id) m) (λ why v. free 0 v)
      (λ found v. free 0 v)

persist_locked-Costs :
    (p : Platform) (id : Text) (bundle : Bundle) (m : Memory)
    → Costs 0 m (persist_locked p id bundle m).1
unfolding persist_locked noted_healthy
persist_locked-Costs p id bundle m =
    on_reply-Costs 0 0 m _ _ _ (query-Costs _ m) (λ why v. free 0 v) (λ x v. (refl, ground arith))

persist_parent-Costs :
    (p : Platform) (id : Text) (bundle : Bundle) (result : LoginResult) (m : Memory)
    → Costs 0 m (persist_parent_session_locked p id bundle result m).1
unfolding persist_parent_session_locked
persist_parent-Costs p id bundle result m =
    choose-Costs 0 m
      (not (ltb_ℤ (pos 0) result.user_id) || is_empty (trim_space result.access_token)) _ _
      (free 0 m) (and_then-Costs 0 0 m _ _ (persist_locked-Costs p id _ m) (λ x v. free 0 v))

persist_lottery-Costs :
    (p : Platform) (id : Text) (bundle : Bundle) (result : BridgeResult) (m : Memory)
    → Costs 0 m (persist_lottery_session_locked p id bundle result m).1
unfolding persist_lottery_session_locked
persist_lottery-Costs p id bundle result m =
    choose-Costs 0 m (is_empty (trim_space result.access_token)) _ _ (free 0 m)
      (and_then-Costs 0 0 m _ _ (persist_locked-Costs p id _ m) (λ x v. free 0 v))

refresh-Costs :
    (p : Platform) (id : Text) (bundle : Bundle) (m : Memory)
    → Costs 1 m (refresh_parent_locked p id bundle m).1
unfolding refresh_parent_locked ask_refresh query
refresh-Costs p id bundle m =
    on_reply-Costs 1 0 m _ _ _ (refl, ground arith)
      (λ why v. choose-Costs 0 v (is_rejection why) _ _ (free 0 v) (free 0 v))
      (λ result v. persist_parent-Costs p id bundle result v)

is_explicit_read_only : is_explicit read_only ≡ false
unfolding is_explicit
is_explicit_read_only = refl

module _ (p : Platform) (id : Text) (intent : Intent) (quiet : is_explicit intent ≡ false) where
  new_parent-Costs : (bundle : Bundle) (m : Memory) → Costs 1 m (new_parent p id bundle intent m).1
  unfolding new_parent
  new_parent-Costs bundle m =
      rw (quiet, new_parent)
        (and_then-Costs 1 0 m _ _ (refresh-Costs p id (without_parent bundle) m) (λ b v. free 0 v))

  validate_parent-Costs :
      (bundle : Bundle) (token : Text) (m : Memory)
      → Costs 1 m (validate_parent p id bundle intent token m).1
  unfolding validate_parent
  validate_parent-Costs bundle token m =
      on_reply-Costs 0 1 m _ _ _ (query-Costs _ m)
        (λ why v. choose-Costs 1 v (is_rejection why) _ _ (new_parent-Costs bundle v) (free 1 v))
        λ x v. and_then-Costs 0 1 v _ _ (persist_locked-Costs p id _ v) (λ y u. free 1 u)

  parent_session-Costs :
      (bundle : Bundle) (m : Memory) → Costs 1 m (parent_session_locked p id bundle intent m).1
  unfolding parent_session_locked
  parent_session-Costs bundle m =
      choose-Costs 1 m (has_usable_parent bundle (p.now m.asked)) _ _ (free 1 m) (
        on_reply-Costs 0 1 m _ _ _ (query-Costs _ m) (λ why v. free 1 v)
          λ x v.
            choose-Costs 1 v
              (not (is_empty (trim_space bundle.parent_access_token)) && not (is_explicit intent)) _
              _ (validate_parent-Costs bundle _ v) (new_parent-Costs bundle v))

bridge_again-Costs :
    (p : Platform) (id : Text) (bundle : Bundle) (m : Memory)
    → Costs 1 m (bridge_again p id bundle m).1
unfolding bridge_again ask_bridge
bridge_again-Costs p id bundle m = and_then-Costs 1 0 m _ _ (refresh-Costs p id bundle m) λ b v.
    on_reply-Costs 0 0 v _ _ _ (query-Costs _ v)
      (λ why u. choose-Costs 0 u (is_rejection why) _ _ (free 0 u) (free 0 u))
      (λ result u. persist_lottery-Costs p id b result u)

bridge-Costs :
    (p : Platform) (id : Text) (bundle : Bundle) (token : Text) (m : Memory)
    → Costs 1 m (bridge_lottery_locked p id bundle token m).1
unfolding bridge_lottery_locked ask_bridge
bridge-Costs p id bundle token m =
    on_reply-Costs 0 1 m _ _ _ (query-Costs _ m) (λ why v. free 1 v)
      λ x v.
        on_reply-Costs 0 1 v _ _ _ (query-Costs _ v)
          (λ why u.
            choose-Costs 1 u (is_rejection why) _ _ (bridge_again-Costs p id bundle u) (free 1 u))
          λ result u.
            let (same, few) = persist_lottery-Costs p id bundle result u in
            (same, ground (arith, few))

module _ (p : Platform) (id : Text) (intent : Intent) (quiet : is_explicit intent ≡ false) where
  new_session-Costs :
      (kind : SessionKind) (bundle : Bundle) (m : Memory)
      → Costs 2 m (new_session p id intent kind bundle m).1
  unfolding new_session
  new_session-Costs session_parent bundle m =
      and_then-Costs 1 1 m _ _ (parent_session-Costs p id intent quiet bundle m)
        (λ found v. free 1 v)
  new_session-Costs session_lottery bundle m =
      and_then-Costs 1 1 m _ _ (parent_session-Costs p id intent quiet bundle m)
        λ found v. and_then-Costs 1 0 v _ _ (bridge-Costs p id found.1 found.0 v) (λ b u. free 0 u)

  saved_or-Costs :
      (found : Option Session) (m : Memory) (rest : Call Session)
      → Costs 2 m rest.1
      → Costs 2 m (saved_or found m rest).1
  unfolding saved_or
  saved_or-Costs (some found) m rest h = free 2 m
  saved_or-Costs none m rest h = h

  acquire_locked-Costs :
      (kind : SessionKind) (m : Memory) → Costs 2 m (acquire_locked p id intent kind m).1
  unfolding acquire_locked
  acquire_locked-Costs kind m = and_then-Costs 0 2 m _ _ (load_bundle-Costs p id m) λ bundle v.
      saved_or-Costs (saved_session kind bundle (p.now v.asked)) v _
        (new_session-Costs kind bundle v)

  acquire-Costs : (kind : SessionKind) (m : Memory) → Costs 2 m (acquire p id intent kind m).1
  unfolding acquire
  acquire-Costs kind m = and_then-Costs 0 2 m _ _ (load_bundle-Costs p id m) λ bundle v.
      saved_or-Costs (saved_session kind bundle (p.now v.asked)) v _ (acquire_locked-Costs kind v)

renew_parent-Costs :
    (p : Platform) (id rejected : Text) (m : Memory) → Costs 1 m (renew_parent p id rejected m).1
unfolding renew_parent
renew_parent-Costs p id rejected m = and_then-Costs 0 1 m _ _ (load_bundle-Costs p id m) λ bundle v.
    choose-Costs 1 v
      (not (text_eq bundle.parent_access_token (trim_space rejected))
        && has_usable_parent bundle (p.now v.asked))
      _ _ (free 1 v)
      (and_then-Costs 1 0 v _ _
        (parent_session-Costs p id read_only is_explicit_read_only (without_parent bundle) v)
        (λ found u. free 0 u))

renew_with-Costs :
    (p : Platform) (id : Text) (parent : Text × Bundle) (m : Memory)
    → Costs 1 m (renew_with p id parent m).1
unfolding renew_with
renew_with-Costs p id (token, bundle) m =
    and_then-Costs 1 0 m _ _ (bridge-Costs p id bundle token m) (λ b v. free 0 v)

renew_lottery-Costs :
    (p : Platform) (id rejected : Text) (m : Memory) → Costs 2 m (renew_lottery p id rejected m).1
unfolding renew_lottery
renew_lottery-Costs p id rejected m =
    and_then-Costs 0 2 m _ _ (load_bundle-Costs p id m) λ bundle v.
      let cleared = record bundle {
        lottery_access_token = [];
        lottery_access_expires_at = zero_time;
      } in
      choose-Costs 2 v
        (not (text_eq bundle.lottery_access_token (trim_space rejected))
          && has_usable_lottery bundle (p.now v.asked))
        _ _ (free 2 v)
        (choose-Costs 2 v (has_usable_parent cleared (p.now v.asked)) _ _
          (let (same, few) = renew_with-Costs p id (cleared.parent_access_token, cleared) v in
            (same, ground (arith, few)))
          (and_then-Costs 1 1 v _ _
            (parent_session-Costs p id read_only is_explicit_read_only cleared v)
            (λ parent u. renew_with-Costs p id parent u)))

-- No call but Acquire with the intent of an explicit reauthentication logs in with a password,
-- whatever the vault and the platform answer: neither Acquire with another intent, nor RenewParent,
-- nor RenewLottery. They refresh at most twice, and RenewParent once.
pub quiet_calls :
    (p : Platform) (id rejected : Text) (intent : Intent) (kind : SessionKind) (m : Memory)
    → is_explicit intent ≡ false
    → Costs 2 m (acquire p id intent kind m).1
      × Costs 1 m (renew_parent p id rejected m).1
      × Costs 2 m (renew_lottery p id rejected m).1
quiet_calls p id rejected intent kind m quiet = (
  acquire-Costs p id intent quiet kind m,
  renew_parent-Costs p id rejected m,
  renew_lottery-Costs p id rejected m,
)
