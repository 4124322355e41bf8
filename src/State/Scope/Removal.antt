-- ===== src/State/Scope/Removal.antt =====
-- What RemoveAccountScopedState removes and keeps.
use lottery.Prelude.{
  ◌≡◌, refl, ◌≢◌, true, false, some, List, [], ◌∷◌, ◌++◌, arith, All, keep_if-All, Option-cases,
  Bool-cases, inl, inr, not, keep_if, keep_if_idem,
}
use lottery.Prelude.Text.{Text, text_eq, text_eq_iff, trim_space, has_prefix}
use lottery.Prelude.Dict.{
  Dict, lookup, erase, AllEntries, keep_entries-AllEntries, lookup-keep_entries,
  lookup-keep_entries_key, lookup-insert, lookup-erase_ne, erase_missing,
}
use lottery.Prelude.Result.{ok}
use lottery.Account.{valid_id}
use lottery.Account.Identity.{valid_id-has_colon, prefix-same}
use lottery.State.Snapshots.{snapshot_key, snapshot_at}
use lottery.State.Types.{
  Action, Snapshot, AutoDrawPlan, AutoDrawSchedule, RuntimeLog, DiskState, Store,
}
use lottery.State.Persist.{Env, commit, on_ok}
use lottery.State.Persist.Restores.{
  Restores, schedules_at, Same-draw_schedules, commit-Restores, on_ok-Restores,
}
use lottery.State.Scope.{
  other_action, other_snapshot, other_plan, other_log, scoped_out, schedules_back,
  remove_account_scoped_state,
}

schedules_at-schedules_back :
    (id k : Text) (m : Dict (List AutoDrawSchedule))
    → schedules_at k (schedules_back id m) ≡ schedules_at k m
unfolding schedules_back schedules_at
schedules_at-schedules_back id k m = elim (Option-cases (lookup id m)) [
  | inl q ↦ ground (arith, erase_missing id m q)
  | inr (previous, q) ↦
      ground
        (arith, lookup-insert id k previous (erase id m), lookup-erase_ne id k m, text_eq_iff id k)
]

-- RemoveAccountScopedState restores every map if the write fails.
pub remove_account_scoped_state-Restores :
    (e : Env) (account_id : Text) (s : Store)
    → Restores s (remove_account_scoped_state e account_id s)
unfolding remove_account_scoped_state
remove_account_scoped_state-Restores e account_id s = on_ok-Restores _ s _ λ x h.
    commit-Restores e _ _ tt s (
      Same-draw_schedules s.content _
        λ k. schedules_at-schedules_back (trim_space account_id) k s.content.draw_schedules)

-- No action, plan or log entry of the account is left, and no snapshot under its prefix.
pub record IsGone (id : Text) (d : DiskState) : Type 0 where
  pub actions : AllEntries (λ key action. other_action id key action ≡ true) d.actions
  pub snapshots : AllEntries (λ key snapshot. other_snapshot id key snapshot ≡ true) d.snapshots
  pub plans : AllEntries (λ key plan. other_plan id key plan ≡ true) d.plans
  pub logs : All (λ log. other_log id log ≡ true) d.logs

-- The log entries of other accounts, in their order.
abbrev pub others : Text → List RuntimeLog → List RuntimeLog
others id logs = keep_if (λ log. not (text_eq log.account_id id)) logs

-- What is found in the first state and does not belong to the account is found in the second, with
-- the log entries of others in their order; the second has the accounts, health, stored
-- authorisations, sequence and version of the first.
pub record Spares (id : Text) (c d : DiskState) : Type 0 where
  pub actions :
      (k : Text) (a : Action)
      → lookup k c.actions ≡ some a
      → a.account_id ≢ id
      → lookup k d.actions ≡ some a
  pub snapshots :
      (k : Text) (p : Snapshot)
      → lookup k c.snapshots ≡ some p
      → has_prefix k (id ++ b':' ∷ []) ≡ false
      → lookup k d.snapshots ≡ some p
  pub plans :
      (k : Text) (p : AutoDrawPlan)
      → lookup k c.plans ≡ some p
      → p.account_id ≢ id
      → lookup k d.plans ≡ some p
  pub draw_schedules : (k : Text) → k ≢ id → lookup k d.draw_schedules ≡ lookup k c.draw_schedules
  pub accounts : d.accounts ≡ c.accounts
  pub auth_health : d.auth_health ≡ c.auth_health
  pub account_id_seq : d.account_id_seq ≡ c.account_id_seq
  pub logs : others id d.logs ≡ others id c.logs
  pub legacy_auth : d.legacy_auth ≡ c.legacy_auth
  pub version : d.version ≡ c.version

scoped_out-IsGone : (id : Text) (d : DiskState) → IsGone id (scoped_out id d)
unfolding scoped_out
scoped_out-IsGone id d = record {
  actions = keep_entries-AllEntries (other_action id) d.actions;
  snapshots = keep_entries-AllEntries (other_snapshot id) d.snapshots;
  plans = keep_entries-AllEntries (other_plan id) d.plans;
  logs = keep_if-All (other_log id) d.logs;
}

scoped_out-Spares : (id : Text) (d : DiskState) → Spares id d (scoped_out id d)
unfolding scoped_out other_action other_snapshot other_plan other_log
scoped_out-Spares id d = record {
  actions = λ k a h n.
      lookup-keep_entries (other_action id) k a d.actions h
        (ground (arith, text_eq_iff a.account_id id));
  snapshots = λ k p h n. lookup-keep_entries (other_snapshot id) k p d.snapshots h (ground arith);
  plans = λ k p h n.
      lookup-keep_entries (other_plan id) k p d.plans h
        (ground (arith, text_eq_iff p.account_id id));
  draw_schedules = λ k n. lookup-erase_ne id k d.draw_schedules (ground (arith, text_eq_iff id k));
  accounts = refl;
  auth_health = refl;
  account_id_seq = refl;
  logs = keep_if_idem (λ log. not (text_eq log.account_id id)) d.logs;
  legacy_auth = refl;
  version = refl;
}

-- A call that succeeds removes every action, plan and log entry of the account and every snapshot
-- under its prefix. It keeps the actions, plans, schedules and log entries of every other account,
-- the snapshots under every other prefix, the accounts themselves, their health, the stored
-- authorisations of version 3, and the sequence.
pub remove_account_scoped_state_lem :
    (e : Env) (account_id : Text) (s : Store)
    → (remove_account_scoped_state e account_id s).0 ≡ ok tt
    → IsGone (trim_space account_id) (remove_account_scoped_state e account_id s).1.content
      × Spares
          (trim_space account_id)
          s.content
          (remove_account_scoped_state e account_id s).1.content
unfolding remove_account_scoped_state commit on_ok
remove_account_scoped_state_lem e account_id s h =
    let id = trim_space account_id in
    ground (arith, scoped_out-IsGone id s.content, scoped_out-Spares id s.content)

key-owner :
    (id other kind : Text)
    → valid_id id ≡ true
    → valid_id (trim_space other) ≡ true
    → has_prefix (snapshot_key other kind) (id ++ b':' ∷ []) ≡ true
    → id ≡ trim_space other
unfolding snapshot_key
key-owner id other kind h k q =
    prefix-same id (trim_space other) (trim_space kind) (valid_id-has_colon id h)
      (valid_id-has_colon (trim_space other) k) q

-- Removing the state of one account leaves the snapshots of every other account where they are, if
-- the two IDs are valid.
pub remove_account_scoped_state-snapshot_at :
    (e : Env) (account_id other kind : Text) (s : Store)
    → valid_id (trim_space account_id) ≡ true
    → valid_id (trim_space other) ≡ true
    → trim_space account_id ≢ trim_space other
    → snapshot_at other kind (remove_account_scoped_state e account_id s).1
      ≡ snapshot_at other kind s
unfolding remove_account_scoped_state commit on_ok scoped_out other_snapshot snapshot_at
remove_account_scoped_state-snapshot_at e account_id other kind s h k different =
    elim (Bool-cases (has_prefix (snapshot_key other kind) (trim_space account_id ++ b':' ∷ []))) [
      | inl q ↦ absurd (different (key-owner (trim_space account_id) other kind h k q))
      | inr q ↦ ground (
        arith,
        lookup-keep_entries_key (other_snapshot (trim_space account_id)) (snapshot_key other kind)
            s.content.snapshots,
      )
    ]
