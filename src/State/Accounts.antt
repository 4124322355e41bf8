-- ===== src/State/Accounts.antt =====
-- The account registry of internal/state/accounts.go, and the authentication health.
pub mod Atomic
pub mod Unique
pub mod Codes
use lottery.Prelude.{
  ℕ, Bool, true, false, ◌&&◌, ◌||◌, not, Option, none, some, List, [], ◌∷◌, ◌==◌, if◌then◌else◌,
  is_some, keep_if,
}
use lottery.Prelude.Text.{Text, text_eq, text_lt, is_empty, trim_space}
use lottery.Prelude.Int.{ℤ, pos, ltb_ℤ, eq_ℤ}
use lottery.Prelude.Dict.{Dict, lookup, insert, erase}
use lottery.Prelude.Time.{before}
use lottery.Prelude.Sort.{sort_by}
use lottery.Prelude.Result.{
  Result, ok, err, ◌>>=◌, ◌>>◌, reject_if, or_fail, not_found, duplicate_remote_user, required,
  already_exists,
}
use lottery.Account.{Record, status_enabled, validate}
use lottery.State.Types.{DiskState, Store}
use lottery.State.Persist.{Env, commit, on_ok}
use lottery.State.Sequence.{next_sequential_account_id}

abbrev pub with_accounts : Store → Dict Record → DiskState
with_accounts s accounts = record (s.content) { accounts = accounts }

unfoldable pub record_before : Record → Record → Bool
record_before p q =
    if not (p.created_at == q.created_at)
    then before p.created_at q.created_at
    else text_lt p.id q.id

unfoldable pub record_values : Dict Record → List Record
record_values [] = []
record_values ((id, r) ∷ accounts) = r ∷ record_values accounts

-- AccountRegistry.List and listLocked
unfoldable pub list_accounts : Store → List Record
list_accounts s = sort_by record_before (record_values s.content.accounts)

-- AccountRegistry.ListEnabled
unfoldable pub list_enabled : Store → List Record
list_enabled s = keep_if (λ r. text_eq r.status status_enabled) (list_accounts s)

-- AccountRegistry.Get
unfoldable pub get_account : Text → Store → Result Record
get_account id s = or_fail (lookup (trim_space id) s.content.accounts) not_found

-- Another account holds the remote user.
unfoldable pub is_taken : Text → ℤ → Dict Record → Bool
is_taken account_id user_id [] = false
is_taken account_id user_id ((id, r) ∷ accounts) =
    (not (text_eq id account_id) && eq_ℤ r.remote_user_id user_id)
    || is_taken account_id user_id accounts

-- ensureRemoteUserIDFreeLocked
unfoldable pub ensure_remote_user_id_free : Text → ℤ → Dict Record → Result (Unit {0})
ensure_remote_user_id_free account_id user_id accounts =
    reject_if (ltb_ℤ (pos 0) user_id && is_taken account_id user_id accounts) duplicate_remote_user

-- What AccountRegistry.Create checks before it writes: the record that it stores.
unfoldable pub creating : Env → Record → Store → Result Record
creating e r s = do
  id ←
      (if is_empty (trim_space r.id)
        then next_sequential_account_id s.content.account_id_seq s.content.accounts
        else ok r.id)
  let id = trim_space id
  let status = if is_empty r.status then status_enabled else r.status
  validate (record r { id = id; status = status })
  reject_if (is_some (lookup id s.content.accounts)) already_exists
  ensure_remote_user_id_free id r.remote_user_id s.content.accounts
  ok (record r { id = id; status = status; created_at = e.clock 0; updated_at = e.clock 0 })

-- AccountRegistry.Create
unfoldable pub create_account : Env → Record → Store → Result Record × Store
create_account e given s = on_ok (creating e given s) s λ r.
    let written = insert r.id r s.content.accounts in
    commit e (record (s.content) { accounts = written; account_id_seq = r.id })
      (record (s.content) {
        accounts = erase r.id written;
        account_id_seq = s.content.account_id_seq;
      })
      r s

-- The write of a changed record, undone by writing `previous` back.
unfoldable pub replace_account :
    {A : Type 0} → Env → Text → Record → Record → A → Store → Result A × Store
replace_account e id previous r a s =
    let written = insert id r s.content.accounts in
    commit e (with_accounts s written) (with_accounts s (insert id previous written)) a s

-- What AccountRegistry.Update checks before it writes: the record as it was and as it will be.
unfoldable pub updating : Env → Record → Store → Result (Record × Record)
updating e r s = do
  previous ← or_fail (lookup (trim_space r.id) s.content.accounts) not_found
  let updated = record previous {
    label = trim_space r.label;
    masked_login_name = trim_space r.masked_login_name;
    status = if is_empty r.status then previous.status else r.status;
  }
  validate updated
  ok (previous, record updated { updated_at = e.clock 0 })

-- AccountRegistry.Update
unfoldable pub update_account : Env → Record → Store → Result Record × Store
update_account e r s =
    on_ok (updating e r s) s
      λ (previous, updated). replace_account e (trim_space r.id) previous updated updated s

-- What AccountRegistry.SetRemoteUserID checks before it writes.
unfoldable pub binding : Env → Text → ℤ → Store → Result (Record × Record)
binding e id user_id s = do
  previous ← or_fail (lookup id s.content.accounts) not_found
  ensure_remote_user_id_free id user_id s.content.accounts
  ok (previous, record previous { remote_user_id = user_id; updated_at = e.clock 0 })

-- AccountRegistry.SetRemoteUserID
unfoldable pub set_remote_user_id : Env → Text → ℤ → Store → Result (Unit {0}) × Store
set_remote_user_id e id user_id s =
    let id = trim_space id in
    on_ok (binding e id user_id s) s
      λ (previous, updated). replace_account e id previous updated tt s

-- AccountRegistry.Delete
unfoldable pub delete_account : Env → Text → Store → Result (Unit {0}) × Store
delete_account e id s =
    let id = trim_space id in
    on_ok (or_fail (lookup id s.content.accounts) not_found) s λ previous.
      let rest = erase id s.content.accounts in
      commit e (with_accounts s rest) (with_accounts s (insert id previous rest)) tt s

-- Store.AuthHealth; a missing entry reads as the empty text.
unfoldable pub auth_health_of : Text → Store → Text
auth_health_of account_id s = elim (lookup (trim_space account_id) s.content.auth_health) [
  | some health ↦ health
  | none ↦ []
]

abbrev pub with_health : Store → Dict Text → DiskState
with_health s health = record (s.content) { auth_health = health }

-- Store.SetAuthHealth
unfoldable pub set_auth_health : Env → Text → Text → Store → Result (Unit {0}) × Store
set_auth_health e account_id health s =
    let id = trim_space account_id in
    on_ok (reject_if (is_empty id) required) s λ _.
      let written = insert id health s.content.auth_health in
      elim (lookup id s.content.auth_health) [
        | some previous ↦
            commit e (with_health s written) (with_health s (insert id previous written)) tt s
        | none ↦ commit e (with_health s written) (with_health s (erase id written)) tt s
      ]
