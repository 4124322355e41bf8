-- ===== src/State/Migration.antt =====
-- The one-time import of internal/state/migration.go.
pub mod Verified
use lottery.Prelude.{
  ℕ, ◌+◌, Bool, true, false, ◌&&◌, ◌||◌, not, Option, none, some, List, [], ◌∷◌, length, leb, ◌==◌,
  if◌then◌else◌, map,
}
use lottery.Prelude.Text.{Text, codes, text_eq, is_empty, trim_space}
use lottery.Prelude.Int.{ℤ, pos, eq_ℤ}
use lottery.Prelude.Dict.{Dict, lookup, insert}
use lottery.Prelude.Time.{Time, zero_time}
use lottery.Prelude.Result.{Error, Result, ok, err, io, required, reject_if, ◌>>=◌, ◌>>◌}
use lottery.Account.{Record, status_enabled, auth_unknown, mask_login_name, validate}
use lottery.Auth.Ledger.{Bundle, ManagedSession}
use lottery.State.Types.{Cookie, AuthState, DiskState, Store, Payload}
use lottery.State.Persist.{Env, open_store, commit}
use lottery.State.Snapshots.{no_auth}

pub record LegacyAccount : Type 0 where
  pub id : Text
  pub label : Text
  pub login_name : Text
  pub password : Text

-- What the vault answers to the n-th step: whether a save fails, and the bundle that a load gives.
pub record Vault : Type 0 where
  pub save : ℕ → Text → Bundle → Option Error
  pub load : ℕ → Text → Result Bundle

unfoldable pub check_legacy : List LegacyAccount → Result (Unit {0})
check_legacy [] = ok tt
check_legacy (item ∷ items) =
    reject_if (is_empty (trim_space item.id)) required
    >> reject_if (is_empty (trim_space item.login_name) || is_empty item.password) required
    >> check_legacy items

unfoldable pub legacy_auth_at : Text → Dict AuthState → AuthState
legacy_auth_at id auth = elim (lookup id auth) [ none ↦ no_auth | some state ↦ state ]

-- The record of a legacy account.
unfoldable pub record_of : Time → Dict AuthState → LegacyAccount → Record
record_of now auth item = record {
  id = item.id;
  label = if is_empty (trim_space item.label) then item.id else trim_space item.label;
  masked_login_name = mask_login_name item.login_name;
  status = status_enabled;
  remote_user_id = (legacy_auth_at item.id auth).user_id;
  created_at = now;
  updated_at = now;
}

-- The secrets of a legacy account; vaultCookiesFromState copies the cookies field by field.
unfoldable pub bundle_of : Time → Dict AuthState → LegacyAccount → Bundle
bundle_of now auth item =
    let saved = legacy_auth_at item.id auth in
    record {
      login_name = trim_space item.login_name;
      password = item.password;
      user_id = saved.user_id;
      parent_access_token = saved.parent_access_token;
      parent_access_expires_at = saved.parent_access_expires_at;
      lottery_access_token = saved.lottery_access_token;
      lottery_access_expires_at = saved.lottery_access_expires_at;
      cookies = saved.cookies;
      managed_sessions = [];
      updated_at = now;
    }

abbrev pub same_bool : Bool → Bool → Bool
same_bool true b = b
same_bool false b = not b

unfoldable pub all_same : {A : Type 0} → (A → A → Bool) → List A → List A → Bool
all_same same [] [] = true
all_same same [] (y ∷ ys) = false
all_same same (x ∷ xs) [] = false
all_same same (x ∷ xs) (y ∷ ys) = same x y && all_same same xs ys

unfoldable pub same_cookie : Cookie → Cookie → Bool
same_cookie x y =
    text_eq x.name y.name
    && text_eq x.value y.value
    && text_eq x.path y.path
    && text_eq x.domain y.domain
    && (x.expires == y.expires)
    && same_bool x.secure y.secure
    && same_bool x.http_only y.http_only

unfoldable pub same_session : ManagedSession → ManagedSession → Bool
same_session x y =
    text_eq x.remote_id y.remote_id
    && text_eq x.origin y.origin
    && same_bool x.pinned y.pinned
    && (x.last_seen_at == y.last_seen_at)

-- bundlesEqual, up to the representation of a time and of an empty list.
unfoldable pub bundles_equal : Bundle → Bundle → Bool
unfolding all_same same_cookie same_session
bundles_equal x y =
    text_eq x.login_name y.login_name
    && text_eq x.password y.password
    && eq_ℤ x.user_id y.user_id
    && text_eq x.parent_access_token y.parent_access_token
    && (x.parent_access_expires_at == y.parent_access_expires_at)
    && text_eq x.lottery_access_token y.lottery_access_token
    && (x.lottery_access_expires_at == y.lottery_access_expires_at)
    && all_same same_cookie x.cookies y.cookies
    && all_same same_session x.managed_sessions y.managed_sessions
    && (x.updated_at == y.updated_at)

abbrev pub unstamped : Bundle → Bundle
unstamped bundle = record bundle { updated_at = zero_time }

-- The import of one account: its secrets are saved, read again and compared.
unfoldable pub import_account : Vault → Time → Dict AuthState → ℕ → LegacyAccount → Result Record
import_account vault now auth n item =
    let entry = record_of now auth item in
    let bundle = bundle_of now auth item in
    validate entry >>= λ _. elim (vault.save n item.id bundle) [
      | some why ↦ err why
      | none ↦ vault.load (n + 1) item.id >>= λ reread.
          if bundles_equal (unstamped reread) (unstamped bundle)
          then ok entry
          else err (io (codes "reread secret does not match the saved bundle"))
    ]

-- The loop of MigrateV3; two steps of the vault for each account.
unfoldable pub import_accounts :
    Vault → Time → Dict AuthState → ℕ → List LegacyAccount → Dict Record → Result (Dict Record)
import_accounts vault now auth n [] records = ok records
import_accounts vault now auth n (item ∷ items) records =
    import_account vault now auth n item >>= λ entry.
    import_accounts vault now auth (n + 2) items (insert item.id entry records)

unfoldable pub unknown_health : Dict Record → Dict Text
unknown_health [] = []
unknown_health ((id, entry) ∷ rest) = (id, auth_unknown) ∷ unknown_health rest

-- The data of version 4, without authentication state.
unfoldable pub migrated : Dict Record → DiskState → DiskState
migrated records d = record d {
  version = 4;
  accounts = records;
  auth_health = unknown_health records;
  legacy_auth = [];
}

-- MigrateV3 on an opened store: the number of accounts that were imported, `none` if no migration is
-- needed.
unfoldable pub migrate_store : Env → Vault → List LegacyAccount → Store → Result (Option ℕ) × Store
migrate_store e vault legacy s =
    if leb 4 s.content.version
    then (ok none, s)
    else elim (import_accounts vault (e.clock 0) s.content.legacy_auth 0 legacy []) [
      | err why ↦ (err why, s)
      | ok records ↦ commit e (migrated records s.content) s.content (some (length records)) s
    ]

-- MigrateV3, with the file that it leaves.
unfoldable pub migrate_v3 : Env → Vault → List LegacyAccount → Payload → Result (Option ℕ) × Payload
migrate_v3 e vault [] file = (err required, file)
migrate_v3 e vault (item ∷ items) file = elim (check_legacy (item ∷ items) >> open_store file) [
  | err why ↦ (err why, file)
  | ok s ↦ let done = migrate_store e vault (item ∷ items) s in (done.0, done.1.file)
]
