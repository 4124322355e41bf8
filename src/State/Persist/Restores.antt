-- ===== src/State/Persist/Restores.antt =====
-- Rollbacks that restore a map up to the order of its keys, or up to an entry that reads as missing.
use lottery.Prelude.{Option-cases, ◌≡◌, refl, ◌∙◌, ◌⊎◌, inl, inr, none, some, List, []}
use lottery.Prelude.Text.{Text}
use lottery.Prelude.Dict.{Dict, lookup}
use lottery.Prelude.Result.{Result, ok, err}
use lottery.Account.{Record}
use lottery.State.Types.{DiskState, Store, AutoDrawSchedule}
use lottery.State.Persist.{Env, encode, commit, on_ok}
use lottery.State.Persist.RoundTrip.{Transacts}

-- The schedules of an account, as a Go map reads them: a missing entry is the empty list.
unfoldable pub schedules_at : Text → Dict (List AutoDrawSchedule) → List AutoDrawSchedule
schedules_at id m = elim (lookup id m) [ some entries ↦ entries | none ↦ [] ]

-- No read tells the two states apart.
pub record Same (c d : DiskState) : Type 0 where
  pub version : c.version ≡ d.version
  pub accounts : (k : Text) → lookup k c.accounts ≡ lookup k d.accounts
  pub auth_health : c.auth_health ≡ d.auth_health
  pub legacy_auth : c.legacy_auth ≡ d.legacy_auth
  pub draw_schedules :
      (k : Text) → schedules_at k c.draw_schedules ≡ schedules_at k d.draw_schedules
  pub account_id_seq : c.account_id_seq ≡ d.account_id_seq
  pub actions : c.actions ≡ d.actions
  pub snapshots : c.snapshots ≡ d.snapshots
  pub plans : c.plans ≡ d.plans
  pub logs : c.logs ≡ d.logs

pub Same-refl : (d : DiskState) → Same d d
Same-refl d = record {
  version = refl;
  accounts = λ k. refl;
  auth_health = refl;
  legacy_auth = refl;
  draw_schedules = λ k. refl;
  account_id_seq = refl;
  actions = refl;
  snapshots = refl;
  plans = refl;
  logs = refl;
}

pub Same-accounts :
    (d : DiskState) (accounts : Dict Record)
    → ((k : Text) → lookup k accounts ≡ lookup k d.accounts)
    → Same (record d { accounts = accounts }) d
Same-accounts d accounts h = record {
  version = refl;
  accounts = h;
  auth_health = refl;
  legacy_auth = refl;
  draw_schedules = λ k. refl;
  account_id_seq = refl;
  actions = refl;
  snapshots = refl;
  plans = refl;
  logs = refl;
}

pub Same-draw_schedules :
    (d : DiskState) (schedules : Dict (List AutoDrawSchedule))
    → ((k : Text) → schedules_at k schedules ≡ schedules_at k d.draw_schedules)
    → Same (record d { draw_schedules = schedules }) d
Same-draw_schedules d schedules h = record {
  version = refl;
  accounts = λ k. refl;
  auth_health = refl;
  legacy_auth = refl;
  draw_schedules = h;
  account_id_seq = refl;
  actions = refl;
  snapshots = refl;
  plans = refl;
  logs = refl;
}

pub Same-trans : (b c d : DiskState) → Same b c → Same c d → Same b d
Same-trans b c d h k = record {
  version = h.version ∙ k.version;
  accounts = λ j. h.accounts j ∙ k.accounts j;
  auth_health = h.auth_health ∙ k.auth_health;
  legacy_auth = h.legacy_auth ∙ k.legacy_auth;
  draw_schedules = λ j. h.draw_schedules j ∙ k.draw_schedules j;
  account_id_seq = h.account_id_seq ∙ k.account_id_seq;
  actions = h.actions ∙ k.actions;
  snapshots = h.snapshots ∙ k.snapshots;
  plans = h.plans ∙ k.plans;
  logs = h.logs ∙ k.logs;
}

-- An operation that fails leaves the file alone, and memory as far as any read can tell. One that
-- succeeds changes nothing, or has written what memory holds.
abbrev pub Restores {ℓ} : {A : Type ℓ} → Store → Result A × Store → Type 0
Restores s (err _, after) = (after.file ≡ s.file) × Same after.content s.content
Restores s (ok _, after) = (after ≡ s) ⊎ (after.file ≡ encode after.content)

pub Transacts-Restores {ℓ} :
    {A : Type ℓ} (s : Store) (r : Result A × Store) → Transacts s r → Restores s r
Transacts-Restores s (ok a, after) h = h
Transacts-Restores s (err e, after) h = rw h (refl, Same-refl s.content)

pub commit-Restores {ℓ} :
    {A : Type ℓ} (e : Env) (changed restored : DiskState) (a : A) (s : Store)
    → Same restored s.content
    → Restores s (commit e changed restored a s)
unfolding commit
commit-Restores e changed restored a s h = elim (Option-cases e.write) [
  | inl q ↦ rw (q, commit) (inr refl)
  | inr (why, q) ↦ rw (q, commit) (refl, h)
]

pub on_ok-Restores {ℓ κ} :
    {X : Type ℓ} {A : Type κ} (r : Result X) (s : Store) (rest : X → Result A × Store)
    → ((x : X) → r ≡ ok x → Restores s (rest x))
    → Restores s (on_ok r s rest)
unfolding on_ok
on_ok-Restores (ok x) s rest h = h x refl
on_ok-Restores (err e) s rest h = (refl, Same-refl s.content)
