-- ===== src/Tests/Sessions.antt =====
-- Runs of the broker, of its ledger and of the migration.
use lottery.Prelude.{◌+◌, ◌≤◌, ◌≡◌, refl, true, false, none, some, [], ◌∷◌, length}
use lottery.Prelude.Text.{codes}
use lottery.Prelude.Int.{pos}
use lottery.Prelude.Result.{ok}
use lottery.State.Types.{Payload, v3}
use lottery.State.Persist.{fresh}
use lottery.State.Migration.{LegacyAccount, Vault, bundle_of, migrate_v3}
use lottery.Website.{api}
use lottery.Service.{reply, fault}
use lottery.Auth.{
  Platform, Memory, scheduled_automation, explicit_reauthenticate, session_parent, session_lottery,
  acquire, renew_parent, renew_lottery, reauthenticate,
}
use lottery.Auth.Ledger.{
  Bundle, no_bundle, ManagedSession, track_managed_session, session_origin_workbench,
}
use lottery.Auth.Remote.{Remote, cleanup}
use lottery.Auth.Remote.Expendable.{AreExpendable, begin, cleanup-AreExpendable}
use lottery.Auth.Issued.{Yields, Logged, IsIssued, acquire-IsIssued}
use lottery.Auth.Quiet.{Costs, quiet_calls}
use lottery.Tests.Data.{calm, new_store, first_account}

abbrev stored : Bundle
stored = record no_bundle { login_name = codes "me"; password = codes "secret" }

-- The bridge rejects every parent session.
abbrev platform : Platform
platform = record {
  load = λ n id. reply (some stored);
  save = λ n id bundle. none;
  new_client = λ n cookies. none;
  user_self = λ n token. none;
  refresh =
      λ n. reply (record { user_id = pos 7; access_token = codes "p"; access_expires_at = 0 });
  login = λ n name password.
      reply (record { user_id = pos 7; access_token = codes "p"; access_expires_at = 0 });
  bridge = λ n token user. fault (api 401 (codes "rejected"));
  cookies = λ n. [];
  capacity_hook = none;
  now = λ n. 500 + n;
  env = λ n. calm;
  session_id = λ token. token;
}

abbrev memory : Memory
memory = record { store = new_store; asked = 0; logins = []; refreshes = 0; saved = [] }

quiet_calls_example :
    Costs 2 memory (acquire platform first_account scheduled_automation session_lottery memory).1
    × Costs 1 memory (renew_parent platform first_account (codes "t") memory).1
    × Costs 2 memory (renew_lottery platform first_account (codes "t") memory).1
unfolding lottery.Auth.is_explicit
quiet_calls_example =
    quiet_calls platform first_account (codes "t") scheduled_automation session_lottery memory refl

-- Both refreshes are made, and no more.
refreshed_twice : (renew_lottery platform first_account (codes "t") memory).1.refreshes ≡ 2
unfolding renew_lottery lottery.Auth.and_then lottery.Auth.on_reply lottery.Auth.load_bundle
    lottery.Auth.query lottery.Prelude.Text.text_eq lottery.Prelude.Text.trim_space
    lottery.Auth.has_usable_lottery lottery.Auth.usable_token lottery.Auth.has_usable_parent
    lottery.Auth.parent_session_locked lottery.Auth.as_reply lottery.Auth.new_parent
    lottery.Auth.is_explicit lottery.Auth.refresh_parent_locked lottery.Auth.ask_refresh
    lottery.Auth.persist_parent_session_locked lottery.Auth.Ledger.append_session
    lottery.Auth.Ledger.bounded lottery.Auth.Ledger.keep_newest lottery.Auth.Ledger.seen_again
    track_managed_session lottery.Auth.Ledger.tracked lottery.Auth.ask_bridge lottery.Auth.ask_login
    lottery.Auth.bridge_again lottery.Auth.bridge_lottery_locked lottery.Auth.explicit_login_locked
    lottery.Auth.guarded lottery.Auth.is_rejection lottery.Auth.noted_healthy
    lottery.Auth.persist_locked lottery.Auth.persist_lottery_session_locked lottery.Auth.reloaded
    lottery.Auth.renew_with lottery.Auth.validate_parent lottery.Auth.with_parent
    lottery.Auth.without_parent lottery.Prelude.Dict.erase lottery.Prelude.Dict.insert
    lottery.Prelude.Dict.lookup lottery.Prelude.Sort.insert_sorted lottery.Prelude.Sort.sort_by
    lottery.Prelude.Text.is_space lottery.Prelude.Text.trim_left lottery.Prelude.Text.trim_right
    lottery.State.Accounts.set_auth_health lottery.State.Persist.commit lottery.State.Persist.encode
    lottery.State.Persist.on_ok lottery.Website.is_status
refreshed_twice = refl

-- The explicit reauthentication logs in.
logged_in :
    (reauthenticate platform first_account memory).1.logins ≡ (codes "me", codes "secret") ∷ []
unfolding reauthenticate lottery.Auth.and_then lottery.Auth.on_reply lottery.Auth.load_bundle
    lottery.Auth.query lottery.Auth.saved_or lottery.Auth.saved_session
    lottery.Auth.has_usable_parent lottery.Auth.usable_token lottery.Prelude.Text.trim_space
    lottery.Auth.acquire_locked lottery.Auth.new_session lottery.Auth.parent_session_locked
    lottery.Auth.as_reply lottery.Auth.new_parent lottery.Auth.is_explicit
    lottery.Auth.explicit_login_locked lottery.Auth.Ledger.append_session
    lottery.Auth.Ledger.bounded lottery.Auth.Ledger.keep_newest lottery.Auth.Ledger.seen_again
    track_managed_session lottery.Auth.Ledger.tracked acquire lottery.Auth.ask_bridge
    lottery.Auth.ask_login lottery.Auth.ask_refresh lottery.Auth.bridge_again
    lottery.Auth.bridge_lottery_locked lottery.Auth.guarded lottery.Auth.has_usable_lottery
    lottery.Auth.is_rejection lottery.Auth.noted_healthy lottery.Auth.persist_locked
    lottery.Auth.persist_lottery_session_locked lottery.Auth.persist_parent_session_locked
    lottery.Auth.refresh_parent_locked lottery.Auth.reloaded lottery.Auth.validate_parent
    lottery.Auth.with_parent lottery.Auth.without_parent lottery.Prelude.Dict.erase
    lottery.Prelude.Dict.insert lottery.Prelude.Dict.lookup lottery.Prelude.Sort.insert_sorted
    lottery.Prelude.Sort.sort_by lottery.Prelude.Text.is_space lottery.Prelude.Text.text_eq
    lottery.Prelude.Text.trim_left lottery.Prelude.Text.trim_right
    lottery.State.Accounts.set_auth_health lottery.State.Persist.commit lottery.State.Persist.encode
    lottery.State.Persist.on_ok lottery.Website.is_status
logged_in = refl

abbrev legacy : LegacyAccount
legacy = record {
  id = first_account;
  label = [];
  login_name = codes "me@x.io";
  password = codes "secret";
}

abbrev vault : Vault
vault = record {
  save = λ n id bundle. none;
  load = λ n id. ok (bundle_of (calm.clock 0) [] legacy);
}

abbrev old_file : Payload
old_file =
    v3 (record { version = 3; accounts = []; actions = []; snapshots = []; plans = []; logs = [] })

-- The account is imported.
imported : (migrate_v3 calm vault (legacy ∷ []) old_file).0 ≡ ok (some 1)
unfolding migrate_v3 lottery.State.Migration.check_legacy lottery.Prelude.Text.trim_space
    lottery.State.Persist.open_store lottery.State.Persist.load
    lottery.State.Migration.migrate_store lottery.State.Migration.import_accounts
    lottery.State.Migration.import_account lottery.Account.validate lottery.Account.valid_id
    lottery.State.Migration.record_of lottery.Prelude.Text.byte_len lottery.Account.valid_id_from
    lottery.Account.is_id_char lottery.Prelude.Text.contains lottery.Account.mask_login_name
    lottery.Account.mask_trimmed lottery.Account.cut_last lottery.Account.is_unmasked_login_name
    lottery.Account.mask_local lottery.Account.mask_parts lottery.Prelude.Dict.insert
    lottery.Prelude.Dict.lookup lottery.Prelude.Text.has_prefix lottery.Prelude.Text.is_space
    lottery.Prelude.Text.rune_len lottery.Prelude.Text.text_eq lottery.Prelude.Text.trim_left
    lottery.Prelude.Text.trim_right lottery.State.Migration.all_same bundle_of
    lottery.State.Migration.bundles_equal lottery.State.Migration.legacy_auth_at
    lottery.State.Migration.migrated lottery.State.Migration.same_cookie
    lottery.State.Migration.same_session lottery.State.Migration.unknown_health
    lottery.State.Persist.commit lottery.State.Persist.decode_schedule
    lottery.State.Persist.decode_schedules lottery.State.Persist.encode
imported = refl

-- Two sessions of the workbench, of which one is the current one.
abbrev session_a : ManagedSession
session_a = record {
  remote_id = codes "a";
  origin = session_origin_workbench;
  pinned = false;
  last_seen_at = 3;
}

abbrev session_b : ManagedSession
session_b = record session_a { remote_id = codes "b"; last_seen_at = 2 }

abbrev remote : Remote
remote = record {
  load = λ n id. reply (some (record stored { managed_sessions = session_a ∷ session_b ∷ [] }));
  save = λ n id bundle. none;
  new_client = λ n cookies. none;
  sessions = λ n token. reply (
      record { sid = codes "a"; current = true; last_active = 3 }
      ∷ record { sid = codes "b"; current = false; last_active = 2 }
      ∷ record { sid = codes "c"; current = false; last_active = 1 }
      ∷ []);
  revoke = λ n token sid. reply false;
  revoke_others = λ n token. reply (pos 2);
  session_id = λ token. token;
}

cleanup-AreExpendable_example :
    AreExpendable remote 0 first_account (cleanup remote 0 first_account (begin 0)).1
cleanup-AreExpendable_example = cleanup-AreExpendable remote 0 first_account 0

-- The other session of the workbench is revoked, and the unknown one is not.
revoked : (cleanup remote 0 first_account (begin 0)).1.requests ≡ codes "b" ∷ []
unfolding cleanup lottery.Auth.Remote.clean_bundle lottery.Auth.Remote.sweep
    lottery.Auth.Remote.save_ledger lottery.Auth.Remote.revoke_all lottery.Prelude.Sort.sort_by
    lottery.Prelude.Text.text_eq lottery.Prelude.Text.trim_space lottery.Prelude.Dict.insert
    lottery.Prelude.Dict.lookup
revoked = refl

acquire-IsIssued_example :
    Yields
      (λ v. Logged [] v.logins)
      (IsIssued platform first_account [] [])
      (acquire platform first_account explicit_reauthenticate session_parent memory)
acquire-IsIssued_example =
    acquire-IsIssued platform first_account explicit_reauthenticate session_parent memory
