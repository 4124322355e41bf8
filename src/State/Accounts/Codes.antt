-- ===== src/State/Accounts/Codes.antt =====
-- The codes that the registry gives out.
use lottery.Prelude.{
  ℕ, suc, ◌+◌, ◌≤◌, ◌<◌, ◌≡◌, refl, ap, ◌∙◌, ◌≢◌, inl, inr, true, false, none, List, [], ◌∷◌, arith,
  sym,
}
use lottery.Prelude.Text.{Text, codes, is_empty, trim_space, trim_left, trim_right, is_space}
use lottery.Prelude.Dict.{Dict}
use lottery.Prelude.Result.{ok, Result-cases}
use lottery.Account.{Record}
use lottery.State.Types.{Store}
use lottery.State.Persist.{Env, commit, on_ok}
use lottery.State.Persist.RoundTrip.{on_ok-after, commit-after}
use lottery.State.Sequence.{
  Code, advance, print_code, parse_code, watermark_code, seeded_watermark,
  next_sequential_account_id, new_account_id,
}
use lottery.State.Sequence.Order.{rank, IsCode, new_account_id_next}
use lottery.State.Accounts.{
  creating, create_account, replace_account, updating, update_account, binding, set_remote_user_id,
  delete_account,
}
use lottery.State.Accounts.Unique.{Call, create, update, bind, delete, perform, perform_all}

not_space : (c : ℕ) → 33 ≤ c → c < 0x80 → is_space c ≡ false
unfolding is_space
not_space c low high = ground arith

-- A code has no blanks to trim.
trim-print_code : (c : Code) → IsCode c → trim_space (print_code c) ≡ print_code c
unfolding trim_space trim_left trim_right print_code is_space
trim-print_code (letter, digit) h = rw (
  not_space (97 + letter) (omega arith) (omega arith),
  not_space (48 + digit) (omega arith) (omega arith),
)

-- A record without an ID is stored under the code that follows the watermark.
pub creating-code :
    (e : Env) (given r : Record) (s : Store)
    → is_empty (trim_space given.id) ≡ true
    → creating e given s ≡ ok r
    → (c : Code) × (r.id ≡ print_code c)
      × (rank c
          ≡ suc (
              rank (watermark_code (seeded_watermark s.content.account_id_seq s.content.accounts))))
      × (watermark_code r.id ≡ c)
unfolding creating next_sequential_account_id
creating-code e given r s blank h =
    elim (Result-cases
      (new_account_id (seeded_watermark s.content.account_id_seq s.content.accounts))) [
        | inr (why, q) ↦ absurd (ground arith)
        | inl (id, q) ↦
            let n = new_account_id_next _ id q in
            let trimmed : trim_space id ≡ id = rw n.1 (trim-print_code n.0 n.2) in
            let stored : r.id ≡ id = ground arith in (n.0, stored ∙ n.1, n.3, rw stored n.4)
      ]

is_no_prefix : (c : Code) → is_empty (print_code c) ≡ false
unfolding print_code
is_no_prefix (letter, digit) = refl

seeded-stored :
    (stored : Text) (accounts : Dict Record)
    → is_empty stored ≡ false
    → seeded_watermark stored accounts ≡ stored
unfolding seeded_watermark
seeded-stored stored accounts h = ground arith

-- The place of the sequence that a store has come to.
abbrev pub place : Store → ℕ
place s = rank (watermark_code s.content.account_id_seq)

-- Accounts are created without an ID, as the handlers do.
abbrev pub GivesNoId : Call → Type 0
GivesNoId (create r) = is_empty (trim_space r.id) ≡ true
GivesNoId (update r) = Unit
GivesNoId (bind id user_id) = Unit
GivesNoId (delete id) = Unit

abbrev pub GiveNoIds : List (Env × Call) → Type 0
GiveNoIds [] = Unit
GiveNoIds ((e, call) ∷ calls) = GivesNoId call × GiveNoIds calls

-- The sequence has begun, and has come as far as `n`.
abbrev Beyond : ℕ → Store → Type 0
Beyond n s = (is_empty s.content.account_id_seq ≡ false) × (n ≤ place s)

create-Beyond :
    (e : Env) (given : Record) (n : ℕ) (s : Store)
    → is_empty (trim_space given.id) ≡ true
    → Beyond n s
    → Beyond n (create_account e given s).1
unfolding create_account
create-Beyond e given n s blank h = on_ok-after (Beyond n) (creating e given s) s _ h λ r q.
    let made = creating-code e given r s blank q in
    commit-after (Beyond n) e _ _ r s
      (
        rw made.1 (is_no_prefix made.0),
        rw made.3 (
            omega (
              arith,
              made.2,
              ap (λ w. rank (watermark_code w))
                  (seeded-stored s.content.account_id_seq s.content.accounts h.0),
            )),
      )
      h

replace-Beyond :
    {A : Type 0} (e : Env) (id : Text) (previous r : Record) (a : A) (n : ℕ) (s : Store)
    → Beyond n s
    → Beyond n (replace_account e id previous r a s).1
unfolding replace_account
replace-Beyond e id previous r a n s h = commit-after (Beyond n) e _ _ a s h h

perform-Beyond :
    (e : Env) (call : Call) (n : ℕ) (s : Store)
    → GivesNoId call
    → Beyond n s
    → Beyond n (perform e call s)
unfolding perform update_account set_remote_user_id delete_account
perform-Beyond e (create given) n s blank h = create-Beyond e given n s blank h
perform-Beyond e (update r) n s blank h =
    on_ok-after (Beyond n) (updating e r s) s _ h
      λ p q. replace-Beyond e (trim_space r.id) p.0 p.1 p.1 n s h
perform-Beyond e (bind id user_id) n s blank h =
    on_ok-after (Beyond n) (binding e (trim_space id) user_id s) s _ h
      λ p q. replace-Beyond e (trim_space id) p.0 p.1 tt n s h
perform-Beyond e (delete id) n s blank h =
    on_ok-after (Beyond n) _ s _ h λ previous q. commit-after (Beyond n) e _ _ tt s h h

perform_all-Beyond :
    (calls : List (Env × Call)) (n : ℕ) (s : Store)
    → GiveNoIds calls
    → Beyond n s
    → Beyond n (perform_all calls s)
unfolding perform_all
perform_all-Beyond [] n s blank h = h
perform_all-Beyond ((e, call) ∷ calls) n s blank h =
    perform_all-Beyond calls n (perform e call s) blank.1 (perform-Beyond e call n s blank.0 h)

created-place :
    (e : Env) (given r : Record) (s : Store)
    → (create_account e given s).0 ≡ ok r
    → (creating e given s ≡ ok r) × ((create_account e given s).1.content.account_id_seq ≡ r.id)
unfolding create_account commit on_ok
created-place e given r s h = ground arith

-- An account code is never given out again: if accounts are created without an ID, a later account
-- has another code than an earlier one, whatever is created, changed, bound or deleted in between,
-- the earlier account included, and whichever of those writes fail.
pub codes_never_return :
    (e later : Env) (given given' r r' : Record) (calls : List (Env × Call)) (s : Store)
    → is_empty (trim_space given.id) ≡ true
    → is_empty (trim_space given'.id) ≡ true
    → GiveNoIds calls
    → (create_account e given s).0 ≡ ok r
    → (create_account later given' (perform_all calls (create_account e given s).1)).0 ≡ ok r'
    → r.id ≢ r'.id
codes_never_return e later given given' r r' calls s blank blank' none_given h h' same =
    let s1 = (create_account e given s).1 in
    let s2 = perform_all calls s1 in
    let first = created-place e given r s h in
    let second = created-place later given' r' s2 h' in
    let code = creating-code e given r s blank first.0 in
    let code' = creating-code later given' r' s2 blank' second.0 in
    let start : Beyond (rank code.0) s1 =
      (rw (first.1, code.1) (is_no_prefix code.0), rw (first.1, code.3) (omega arith)) in
    let far = perform_all-Beyond calls (rank code.0) s1 none_given start in
    let read : seeded_watermark s2.content.account_id_seq s2.content.accounts
        ≡ s2.content.account_id_seq =
      seeded-stored s2.content.account_id_seq s2.content.accounts far.0 in
    omega (
      arith,
      ap rank (sym code.3 ∙ ap watermark_code same ∙ code'.3),
      code'.2,
      ap (λ w. rank (watermark_code w)) read,
      far.1,
    )

first_code_again : (w : Text) → parse_code w ≡ none → new_account_id w ≡ ok (codes "account-a1")
unfolding new_account_id watermark_code advance print_code
first_code_again w h = ground arith

creating-own_id :
    (e : Env) (given r : Record) (s : Store)
    → is_empty (trim_space given.id) ≡ false
    → creating e given s ≡ ok r
    → r.id ≡ trim_space given.id
unfolding creating
creating-own_id e given r s own h = ground arith

-- An account that is created under an ID of its own which is no code sets the sequence back: the
-- next code is the first one again.
pub create_explicit_resets :
    (e : Env) (given r : Record) (s : Store)
    → is_empty (trim_space given.id) ≡ false
    → parse_code (trim_space given.id) ≡ none
    → (create_account e given s).0 ≡ ok r
    → new_account_id (create_account e given s).1.content.account_id_seq ≡ ok (codes "account-a1")
create_explicit_resets e given r s own plain h =
    let made = created-place e given r s h in
    let id = creating-own_id e given r s own made.0 in
    rw (made.1, id) (first_code_again (trim_space given.id) plain)
