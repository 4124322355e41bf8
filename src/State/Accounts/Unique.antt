-- ===== src/State/Accounts/Unique.antt =====
-- The remote users of the accounts.
use lottery.Prelude.{◌≡◌, sym, inl, inr, true, false, some, List, [], ◌∷◌, arith, Bool-cases}
use lottery.Prelude.Text.{Text, text_eq, text_eq_iff, trim_space}
use lottery.Prelude.Int.{ℤ, pos, ltb_ℤ, eq_ℤ_iff}
use lottery.Prelude.Dict.{
  Dict, lookup, insert, erase, lookup-insert, lookup-erase_ne, erase_back, insert_back,
  HasUniqueKeys, lookup-erase_self, insert-HasUniqueKeys, erase-HasUniqueKeys,
}
use lottery.Prelude.Result.{ok, or_fail, not_found}
use lottery.Account.{Record}
use lottery.State.Types.{Store}
use lottery.State.Persist.{Env}
use lottery.State.Persist.RoundTrip.{on_ok-after, commit-after}
use lottery.State.Accounts.{
  is_taken, ensure_remote_user_id_free, creating, create_account, replace_account, updating,
  update_account, binding, set_remote_user_id, delete_account,
}
use lottery.State.Accounts.Atomic.{creating-fresh}

is_taken_sound :
    (id : Text) (user_id : ℤ) (accounts : Dict Record) (j : Text) (q : Record)
    → is_taken id user_id accounts ≡ false
    → lookup j accounts ≡ some q
    → q.remote_user_id ≡ user_id
    → j ≡ id
unfolding is_taken lookup
is_taken_sound id user_id [] j q free h e = cc
is_taken_sound id user_id ((i, r) ∷ accounts) j q free h e = ground (
  arith,
  is_taken_sound id user_id accounts j q,
  text_eq_iff i j,
  text_eq_iff i id,
  eq_ℤ_iff r.remote_user_id user_id,
)

-- No two accounts hold the same remote user; zero and below stand for none.
abbrev pub IsUnique : Dict Record → Type 0
IsUnique accounts =
    (i j : Text) (p q : Record)
    → lookup i accounts ≡ some p
    → lookup j accounts ≡ some q
    → ltb_ℤ (pos 0) p.remote_user_id ≡ true
    → p.remote_user_id ≡ q.remote_user_id
    → i ≡ j

-- The record may hold its user beside the other accounts.
abbrev Fits : Text → Record → Dict Record → Type 0
Fits id r accounts =
    (j : Text) (q : Record)
    → lookup j accounts ≡ some q
    → ltb_ℤ (pos 0) r.remote_user_id ≡ true
    → q.remote_user_id ≡ r.remote_user_id
    → j ≡ id

insert-IsUnique :
    (id : Text) (r : Record) (accounts : Dict Record)
    → IsUnique accounts
    → Fits id r accounts
    → IsUnique (insert id r accounts)
insert-IsUnique id r accounts unique fits i j p q hi hj held same =
    elim (Bool-cases (text_eq id i)) [
      | inl ei ↦ elim (Bool-cases (text_eq id j)) [
        | inl ej ↦ ground (arith, text_eq_iff id i, text_eq_iff id j)
        | inr ej ↦ ground (
          arith,
          text_eq_iff id i,
          lookup-insert id i r accounts,
          lookup-insert id j r accounts,
          fits j q,
        )
      ]
      | inr ei ↦ elim (Bool-cases (text_eq id j)) [
        | inl ej ↦ ground (
          arith,
          text_eq_iff id j,
          lookup-insert id i r accounts,
          lookup-insert id j r accounts,
          fits i p,
        )
        | inr ej ↦
            unique i j p q (ground (arith, lookup-insert id i r accounts))
              (ground (arith, lookup-insert id j r accounts)) held same
      ]
    ]

free-Fits :
    (id : Text) (r : Record) (accounts : Dict Record)
    → ensure_remote_user_id_free id r.remote_user_id accounts ≡ ok tt
    → Fits id r accounts
unfolding ensure_remote_user_id_free
free-Fits id r accounts free j q h held same =
    is_taken_sound id r.remote_user_id accounts j q (ground arith) h same

kept-Fits :
    (id : Text) (previous r : Record) (accounts : Dict Record)
    → IsUnique accounts
    → lookup id accounts ≡ some previous
    → r.remote_user_id ≡ previous.remote_user_id
    → Fits id r accounts
kept-Fits id previous r accounts unique h same j q hj held e =
    sym (unique id j previous q h hj (ground arith) (ground arith))

replace_account-IsUnique :
    {A : Type 0} (e : Env) (id : Text) (previous r : Record) (a : A) (s : Store)
    → IsUnique s.content.accounts
    → lookup id s.content.accounts ≡ some previous
    → Fits id r s.content.accounts
    → IsUnique (replace_account e id previous r a s).1.content.accounts
unfolding replace_account
replace_account-IsUnique e id previous r a s unique h fits =
    commit-after (λ t. IsUnique t.content.accounts) e _ _ a s
      (insert-IsUnique id r s.content.accounts unique fits)
      (rw (insert_back id r previous s.content.accounts h) unique)

creating-Fits :
    (e : Env) (given r : Record) (s : Store)
    → creating e given s ≡ ok r
    → ensure_remote_user_id_free r.id r.remote_user_id s.content.accounts ≡ ok tt
unfolding creating
creating-Fits e given r s h = ground arith

-- AccountRegistry.Create keeps remote users unique.
pub create_account-IsUnique :
    (e : Env) (given : Record) (s : Store)
    → IsUnique s.content.accounts
    → IsUnique (create_account e given s).1.content.accounts
unfolding create_account
create_account-IsUnique e given s unique =
    on_ok-after (λ t. IsUnique t.content.accounts) (creating e given s) s _ unique
      λ r h.
        commit-after (λ t. IsUnique t.content.accounts) e _ _ r s
          (insert-IsUnique r.id r s.content.accounts unique
            (free-Fits r.id r s.content.accounts (creating-Fits e given r s h)))
          (rw (erase_back r.id r s.content.accounts (creating-fresh e given r s h)) unique)

-- AccountRegistry.Update keeps remote users unique.
pub update_account-IsUnique :
    (e : Env) (r : Record) (s : Store)
    → IsUnique s.content.accounts
    → IsUnique (update_account e r s).1.content.accounts
unfolding update_account updating
update_account-IsUnique e r s unique =
    on_ok-after (λ t. IsUnique t.content.accounts) (updating e r s) s _ unique
      λ p h. replace_account-IsUnique e (trim_space r.id) p.0 p.1 _ s unique (ground arith) (
        kept-Fits (trim_space r.id) p.0 p.1 s.content.accounts unique (ground arith) (ground arith))

-- AccountRegistry.SetRemoteUserID keeps remote users unique.
pub set_remote_user_id-IsUnique :
    (e : Env) (id : Text) (user_id : ℤ) (s : Store)
    → IsUnique s.content.accounts
    → IsUnique (set_remote_user_id e id user_id s).1.content.accounts
unfolding set_remote_user_id binding
set_remote_user_id-IsUnique e id user_id s unique =
    on_ok-after (λ t. IsUnique t.content.accounts) (binding e (trim_space id) user_id s) s _ unique
      λ p h.
        replace_account-IsUnique e (trim_space id) p.0 p.1 _ s unique (ground arith)
          (free-Fits (trim_space id) p.1 s.content.accounts (ground arith))

erase-IsUnique :
    (id : Text) (accounts : Dict Record)
    → HasUniqueKeys accounts
    → IsUnique accounts
    → IsUnique (erase id accounts)
erase-IsUnique id accounts keys unique i j p q hi hj held same =
    unique i j p q (kept i p hi) (kept j q hj) held same
  where
    kept :
        (k : Text) (r : Record) → lookup k (erase id accounts) ≡ some r → lookup k accounts ≡ some r
    kept k r h = elim (Bool-cases (text_eq id k)) [
      | inl e ↦ absurd (ground (arith, text_eq_iff id k, lookup-erase_self id accounts keys))
      | inr e ↦ ground (arith, lookup-erase_ne id k accounts)
    ]

-- No ID and no remote user stands twice.
pub record IsSound (accounts : Dict Record) : Type 0 where
  pub keys : HasUniqueKeys accounts
  pub users : IsUnique accounts

pub data Call : Type 0 where
  create update : Record → Call
  bind : Text → ℤ → Call
  delete : Text → Call

unfoldable pub perform : Env → Call → Store → Store
perform e (create r) s = (create_account e r s).1
perform e (update r) s = (update_account e r s).1
perform e (bind id user_id) s = (set_remote_user_id e id user_id s).1
perform e (delete id) s = (delete_account e id s).1

unfoldable pub perform_all : List (Env × Call) → Store → Store
perform_all [] s = s
perform_all ((e, call) ∷ calls) s = perform_all calls (perform e call s)

abbrev Keys : Store → Type 0
Keys s = HasUniqueKeys s.content.accounts

replace_account-Keys :
    {A : Type 0} (e : Env) (id : Text) (previous r : Record) (a : A) (s : Store)
    → Keys s
    → Keys (replace_account e id previous r a s).1
unfolding replace_account
replace_account-Keys e id previous r a s keys =
    let written = insert-HasUniqueKeys id r s.content.accounts keys in
    commit-after Keys e _ _ a s written
      (insert-HasUniqueKeys id previous (insert id r s.content.accounts) written)

perform-Keys : (e : Env) (call : Call) (s : Store) → Keys s → Keys (perform e call s)
unfolding perform create_account update_account set_remote_user_id delete_account
perform-Keys e (create given) s keys = on_ok-after Keys (creating e given s) s _ keys λ r h.
    let written = insert-HasUniqueKeys r.id r s.content.accounts keys in
    commit-after Keys e _ _ r s written
      (erase-HasUniqueKeys r.id (insert r.id r s.content.accounts) written)
perform-Keys e (update r) s keys =
    on_ok-after Keys (updating e r s) s _ keys
      λ p h. replace_account-Keys e (trim_space r.id) p.0 p.1 _ s keys
perform-Keys e (bind id user_id) s keys =
    on_ok-after Keys (binding e (trim_space id) user_id s) s _ keys
      λ p h. replace_account-Keys e (trim_space id) p.0 p.1 _ s keys
perform-Keys e (delete id) s keys = on_ok-after Keys _ s _ keys λ previous h.
    let rest = erase-HasUniqueKeys (trim_space id) s.content.accounts keys in
    commit-after Keys e _ _ tt s rest (
      insert-HasUniqueKeys (trim_space id) previous (erase (trim_space id) s.content.accounts) rest)

delete_account-IsUnique :
    (e : Env) (id : Text) (s : Store)
    → Keys s
    → IsUnique s.content.accounts
    → IsUnique (delete_account e id s).1.content.accounts
unfolding delete_account
delete_account-IsUnique e id s keys unique =
    on_ok-after (λ t. IsUnique t.content.accounts)
      (or_fail (lookup (trim_space id) s.content.accounts) not_found) s _ unique
      λ previous h.
        let rest = erase-IsUnique (trim_space id) s.content.accounts keys unique in
        commit-after (λ t. IsUnique t.content.accounts) e _ _ tt s rest
          (insert-IsUnique (trim_space id) previous (erase (trim_space id) s.content.accounts) rest
            (restored-Fits previous h))
  where
    restored-Fits :
        (previous : Record)
        → or_fail (lookup (trim_space id) s.content.accounts) not_found ≡ ok previous
        → Fits (trim_space id) previous (erase (trim_space id) s.content.accounts)
    restored-Fits previous h j q hj held same = elim (Bool-cases (text_eq (trim_space id) j)) [
      | inl e ↦ sym ((text_eq_iff (trim_space id) j).0 e)
      | inr e ↦ sym (
          unique (trim_space id) j previous q (ground arith)
            (ground (arith, lookup-erase_ne (trim_space id) j s.content.accounts)) held (sym same))
    ]

perform-users :
    (e : Env) (call : Call) (s : Store)
    → IsSound s.content.accounts
    → IsUnique (perform e call s).content.accounts
unfolding perform
perform-users e (create r) s h = create_account-IsUnique e r s h.users
perform-users e (update r) s h = update_account-IsUnique e r s h.users
perform-users e (bind id user_id) s h = set_remote_user_id-IsUnique e id user_id s h.users
perform-users e (delete id) s h = delete_account-IsUnique e id s h.keys h.users

-- If no ID stands twice and no remote user belongs to two accounts, then so it is after every
-- sequence of calls that create, update, bind and delete accounts, whether or not the writes succeed.
pub perform_all-IsSound :
    (calls : List (Env × Call)) (s : Store)
    → IsSound s.content.accounts
    → IsSound (perform_all calls s).content.accounts
unfolding perform_all
perform_all-IsSound [] s h = h
perform_all-IsSound ((e, call) ∷ calls) s h =
    perform_all-IsSound calls (perform e call s)
      (record { keys = perform-Keys e call s h.keys; users = perform-users e call s h })
