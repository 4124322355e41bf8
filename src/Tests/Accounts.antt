-- ===== src/Tests/Accounts.antt =====
-- Runs of the account registry, and of what removes data.
use lottery.Prelude.{
  ◌≡◌, ◌≢◌, refl, ◌≤◌, Bool, true, false, none, some, List, [], ◌∷◌, arith, ap, suc,
}
use lottery.Prelude.Text.{Text, codes, trim_space, text_eq}
use lottery.Prelude.Int.{pos}
use lottery.Prelude.Dict.{lookup}
use lottery.Prelude.Result.{ok}
use lottery.Account.{Record, mask_login_name, is_unmasked_login_name, status_enabled, valid_id}
use lottery.Account.Masking.{mask_login_name-masked}
use lottery.State.Types.{Store, DiskState}
use lottery.State.Persist.{Env, fresh, load, encode}
use lottery.State.Persist.RoundTrip.{load-encode_legacy, legacy_part}
use lottery.State.Written.{as_written}
use lottery.State.Sequence.{new_account_id, Code, print_code, parse_code, watermark_code}
use lottery.State.Sequence.Order.{parse_code-print_code}
use lottery.State.Accounts.{create_account}
use lottery.State.Accounts.Unique.{
  IsSound, Call, create, update, bind, delete, perform_all, perform_all-IsSound,
}
use lottery.State.Accounts.Codes.{codes_never_return, create_explicit_resets}
use lottery.State.Scope.{remove_account_scoped_state, prune_auto_draw_data}
use lottery.State.Scope.Removal.{IsGone, Spares, remove_account_scoped_state_lem}
use lottery.State.Scope.Pruning.{prune_auto_draw_data-keeps}
use lottery.Tests.Data.{
  calm, later, broken, new_store, first_account, person, morning, snapshot, log_entry,
}

abbrev calls : List (Env × Call)
calls =
    (calm, create person)
    ∷ (later, create (record person { remote_user_id = pos 8 }))
    ∷ (later, bind (codes "account-a2") (pos 7))
    ∷ (broken, delete first_account)
    ∷ []

nothing-IsSound : IsSound new_store.content.accounts
unfolding lookup lottery.Prelude.Dict.HasUniqueKeys
nothing-IsSound = record { keys = tt; users = λ i j p q h k positive same. absurd (ground arith) }

perform_all-IsSound_example : IsSound (perform_all calls new_store).content.accounts
perform_all-IsSound_example = perform_all-IsSound calls new_store nothing-IsSound

abbrev first_record : Record
first_record = record person {
  id = first_account;
  status = status_enabled;
  created_at = 100;
  updated_at = 100;
}

abbrev second_record : Record
second_record = record person {
  id = codes "account-a2";
  status = status_enabled;
  created_at = 200;
  updated_at = 200;
}

codes_never_return_example : first_record.id ≢ second_record.id
unfolding trim_space create_account lottery.State.Persist.on_ok lottery.State.Accounts.creating
    lottery.State.Sequence.next_sequential_account_id new_account_id lottery.State.Sequence.advance
    watermark_code parse_code lottery.State.Sequence.parse_suffix lottery.State.Sequence.trim_prefix
    lottery.Prelude.Text.has_prefix lottery.State.Sequence.seeded_watermark
    lottery.State.Sequence.highest lottery.Account.validate valid_id print_code
    lottery.Account.cut_last lottery.Account.is_id_char is_unmasked_login_name
    lottery.Account.valid_id_from lottery.Prelude.Dict.erase lottery.Prelude.Dict.insert lookup
    lottery.Prelude.Text.byte_len lottery.Prelude.Text.contains lottery.Prelude.Text.is_space
    lottery.Prelude.Text.rune_len text_eq lottery.Prelude.Text.trim_left
    lottery.Prelude.Text.trim_right lottery.State.Accounts.ensure_remote_user_id_free
    lottery.State.Accounts.is_taken lottery.State.Persist.commit encode
    lottery.State.Sequence.larger perform_all lottery.State.Accounts.Unique.perform
    lottery.State.Accounts.delete_account
codes_never_return_example =
    codes_never_return calm later person person first_record second_record
      ((later, delete first_account) ∷ []) new_store refl refl (tt, tt) refl refl

create_explicit_resets_example :
    new_account_id
      (create_account calm
        (record person { id = codes "home" })
        (record new_store {
          content = record fresh { account_id_seq = codes "account-b4" };
        })).1.content.account_id_seq
    ≡ ok (codes "account-a1")
unfolding trim_space parse_code lottery.State.Sequence.parse_suffix
    lottery.State.Sequence.trim_prefix lottery.Prelude.Text.has_prefix create_account
    lottery.State.Persist.on_ok lottery.State.Accounts.creating lottery.Account.validate valid_id
    lottery.Prelude.Text.byte_len lottery.Account.valid_id_from lottery.Account.is_id_char
    lottery.Prelude.Text.contains is_unmasked_login_name lottery.Account.cut_last text_eq
    lottery.Prelude.Dict.erase lottery.Prelude.Dict.insert lookup lottery.Prelude.Text.is_space
    lottery.Prelude.Text.rune_len lottery.Prelude.Text.trim_left lottery.Prelude.Text.trim_right
    lottery.State.Accounts.ensure_remote_user_id_free lottery.State.Accounts.is_taken
    lottery.State.Persist.commit encode lottery.State.Sequence.advance
    lottery.State.Sequence.highest lottery.State.Sequence.larger new_account_id
    lottery.State.Sequence.next_sequential_account_id print_code
    lottery.State.Sequence.seeded_watermark watermark_code
create_explicit_resets_example =
    create_explicit_resets calm (record person { id = codes "home" })
      (record first_record { id = codes "home" })
      (record new_store { content = record fresh { account_id_seq = codes "account-b4" } }) refl
      refl refl

parse_code-print_code_example : parse_code (print_code (2, 5)) ≡ some (2, 5)
parse_code-print_code_example = parse_code-print_code (2, 5) (omega arith, omega arith, omega arith)

mask_login_name-masked_example :
    is_unmasked_login_name (mask_login_name (codes " mail@x.io")) ≡ false
unfolding lottery.Prelude.Text.has_prefix trim_space
mask_login_name-masked_example = mask_login_name-masked (codes " mail@x.io") refl

abbrev legacy : DiskState
legacy = record fresh { version = 3; accounts = (first_account, first_record) ∷ [] }

load-encode_legacy_example : load (encode legacy) ≡ ok (as_written (legacy_part legacy))
load-encode_legacy_example = load-encode_legacy legacy refl

abbrev busy : Store
busy = record new_store {
  content = record fresh {
    snapshots = (codes "account-a2:quota", snapshot) ∷ [];
    plans = (codes "2026-05-01:w1:account-a1", morning) ∷ [];
    logs = log_entry ∷ [];
  };
}

remove_account_scoped_state_lem_example :
    IsGone
      (trim_space first_account)
      (remove_account_scoped_state calm first_account busy).1.content
    × Spares
        (trim_space first_account)
        busy.content
        (remove_account_scoped_state calm first_account busy).1.content
unfolding remove_account_scoped_state lottery.State.Persist.on_ok trim_space
    lottery.State.Persist.commit
remove_account_scoped_state_lem_example =
    remove_account_scoped_state_lem calm first_account busy refl

other_account : trim_space first_account ≢ trim_space (codes "account-a2")
unfolding trim_space
other_account h = ground (arith, h)

prune_auto_draw_data-keeps_example :
    lookup
      (codes "2026-05-01:w1:account-a1")
      (prune_auto_draw_data calm (codes "2026-04-30") 20 busy).1.content.plans
    ≡ some morning
unfolding lookup text_eq lottery.Prelude.Text.text_lt trim_space
prune_auto_draw_data-keeps_example =
    prune_auto_draw_data-keeps calm (codes "2026-04-30") 20 busy (codes "2026-05-01:w1:account-a1")
      morning refl refl (omega arith)
