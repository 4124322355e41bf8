-- ===== src/State/Migration/Verified.antt =====
-- What a file of version 4 that MigrateV3 has written rests on.
use lottery.Prelude.{ℕ, ◌+◌, ◌≡◌, true, Option, none, some, List, length, leb, All}
use lottery.Prelude.Dict.{Dict, lookup}
use lottery.Prelude.Time.{Time}
use lottery.Prelude.Result.{Result, ok, err}
use lottery.Account.{Record}
use lottery.Auth.Ledger.{Bundle}
use lottery.State.Types.{AuthState, Store, Payload, v4}
use lottery.State.Written.{as_written}
use lottery.State.Persist.{Env, open_store}
use lottery.State.Migration.{LegacyAccount, Vault, bundle_of, unstamped, migrated}

-- The vault has saved the secrets of the account, and has given them back.
abbrev pub IsMoved : Vault → Time → Dict AuthState → LegacyAccount → Type 0
IsMoved vault now auth item =
    (n : ℕ) × (reread : Bundle) × (vault.save n item.id (bundle_of now auth item) ≡ none)
    × (vault.load (n + 1) item.id ≡ ok reread)
    × (unstamped reread ≡ unstamped (bundle_of now auth item))

-- The records hold an account.
abbrev pub Holds : Dict Record → LegacyAccount → Type 0
Holds records item = (r : Record) × (lookup item.id records ≡ some r)

-- The file is of version 4, with the accounts and without authentication state, and each account's
-- secrets have gone through the vault.
abbrev pub IsImported : Env → Vault → List LegacyAccount → Store → ℕ → Payload → Type 0
IsImported e vault legacy s count written =
    (records : Dict Record) × (written ≡ v4 (as_written (migrated records s.content)))
    × (count ≡ length records)
    × All (λ item. IsMoved vault (e.clock 0) s.content.legacy_auth item × Holds records item) legacy

-- What MigrateV3 may return, with the file that it leaves: an import that is verified, or the old
-- file.
abbrev pub IsSafe :
    Env → Vault → List LegacyAccount → Payload → Result (Option ℕ) × Payload → Type 0
IsSafe e vault legacy file (ok (some count), written) =
    (s : Store) × (open_store file ≡ ok s) × IsImported e vault legacy s count written
IsSafe e vault legacy file (ok none, written) =
    (s : Store) × (open_store file ≡ ok s) × (leb 4 s.content.version ≡ true) × (written ≡ file)
IsSafe e vault legacy file (err why, written) = written ≡ file
