-- ===== src/State/Accounts/Atomic.antt =====
-- The writes of the account registry and of the authentication health.
use lottery.Prelude.{◌≡◌, ap, inl, inr, none, some, arith, Option-cases, Bool-cases}
use lottery.Prelude.Text.{Text, text_eq, text_eq_iff, trim_space}
use lottery.Prelude.Int.{ℤ}
use lottery.Prelude.Dict.{
  Dict, lookup, insert, erase, insert_back, erase_back, lookup-insert, lookup-erase_ne,
}
use lottery.Prelude.Result.{ok}
use lottery.Account.{Record}
use lottery.State.Types.{Store}
use lottery.State.Persist.{Env}
use lottery.State.Persist.RoundTrip.{Transacts, commit-Transacts, on_ok-Transacts}
use lottery.State.Persist.Restores.{Restores, commit-Restores, on_ok-Restores, Same-accounts}
use lottery.State.Accounts.{
  with_accounts, creating, create_account, replace_account, updating, update_account, binding,
  set_remote_user_id, delete_account, with_health, set_auth_health,
}

pub replace_account-Transacts :
    {A : Type 0} (e : Env) (id : Text) (previous r : Record) (a : A) (s : Store)
    → lookup id s.content.accounts ≡ some previous
    → Transacts s (replace_account e id previous r a s)
unfolding replace_account
replace_account-Transacts e id previous r a s h =
    commit-Transacts e _ _ a s
      (ap (with_accounts s) (insert_back id r previous s.content.accounts h))

-- A record is created only under an ID that is not in use.
pub creating-fresh :
    (e : Env) (given r : Record) (s : Store)
    → creating e given s ≡ ok r
    → lookup r.id s.content.accounts ≡ none
unfolding creating
creating-fresh e given r s h = ground arith

-- AccountRegistry.Create is a transaction: a failed write takes back the record and the sequence.
pub create_account-Transacts :
    (e : Env) (given : Record) (s : Store) → Transacts s (create_account e given s)
unfolding create_account
create_account-Transacts e given s = on_ok-Transacts _ s _ λ r h.
    commit-Transacts e _ _ r s
      (ap (with_accounts s) (erase_back r.id r s.content.accounts (creating-fresh e given r s h)))

-- AccountRegistry.Update is a transaction.
pub update_account-Transacts :
    (e : Env) (r : Record) (s : Store) → Transacts s (update_account e r s)
unfolding update_account updating
update_account-Transacts e r s =
    on_ok-Transacts _ s _
      λ p h. replace_account-Transacts e (trim_space r.id) p.0 p.1 _ s (ground arith)

-- AccountRegistry.SetRemoteUserID is a transaction.
pub set_remote_user_id-Transacts :
    (e : Env) (id : Text) (user_id : ℤ) (s : Store)
    → Transacts s (set_remote_user_id e id user_id s)
unfolding set_remote_user_id binding
set_remote_user_id-Transacts e id user_id s =
    on_ok-Transacts _ s _
      λ p h. replace_account-Transacts e (trim_space id) p.0 p.1 _ s (ground arith)

put_back :
    (id j : Text) (r : Record) (accounts : Dict Record)
    → lookup id accounts ≡ some r
    → lookup j (insert id r (erase id accounts)) ≡ lookup j accounts
put_back id j r accounts h = elim (Bool-cases (text_eq id j)) [
  | inl same ↦ ground (arith, lookup-insert id j r (erase id accounts), text_eq_iff id j)
  | inr other ↦
      ground (arith, lookup-insert id j r (erase id accounts), lookup-erase_ne id j accounts)
]

-- AccountRegistry.Delete restores the record if the write fails.
pub delete_account-Restores : (e : Env) (id : Text) (s : Store) → Restores s (delete_account e id s)
unfolding delete_account
delete_account-Restores e id s = on_ok-Restores _ s _ λ previous h. commit-Restores e _ _ tt s (
    Same-accounts s.content _
      λ j. put_back (trim_space id) j previous s.content.accounts (ground arith))

-- SetAuthHealth is a transaction.
pub set_auth_health-Transacts :
    (e : Env) (account_id health : Text) (s : Store)
    → Transacts s (set_auth_health e account_id health s)
unfolding set_auth_health
set_auth_health-Transacts e account_id health s = on_ok-Transacts _ s _ λ _ _.
    elim (Option-cases (lookup (trim_space account_id) s.content.auth_health)) [
      | inl h ↦ rw h (
          commit-Transacts e _ _ tt s
            (ap (with_health s) (erase_back _ health s.content.auth_health h)))
      | inr (old, h) ↦ rw h (
          commit-Transacts e _ _ tt s
            (ap (with_health s) (insert_back _ health old s.content.auth_health h)))
    ]
