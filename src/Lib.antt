-- ===== src/Lib.antt =====
-- lottery-bot: a bot that keeps several accounts of a lottery website, claims and spends their
-- daily draws at planned times, and shows what happened on an administration page.
--
-- The parts and how they interact. The services (internal/service) act for an account: they take
-- a session from the authentication broker (internal/auth), call the website (internal/lottery),
-- and write every step to the state store (internal/state) before and after it, so that a restart
-- finds out what may have happened. The store holds accounts (internal/account), actions, plans,
-- schedules, snapshots and logs in one JSON file. Amounts are values of internal/quota. The web
-- handlers (internal/web) call the services and the store.
--
-- Prelude holds what all modules share: texts as lists of Unicode code points with the functions
-- of package strings that the source calls, maps as association lists, decimal numbers, sorting,
-- times as instants, Go's signed integers, and a result type for a value and an error.
--
-- Account models internal/account/record.go: Record, Validate, validID, MaskLoginName.
--
-- Quota models internal/quota: Quota.Money the record, Quota.Amount the exact amounts of money.go
-- and their texts (ParseNative, displayUSD, exactString), and Quota.Policy policy.go with
-- USDMoney of internal/service/quota.go. A float64 is its exact value (Prelude.Float); sums are
-- rounded to the nearest even float64, as the processor does.
--
-- State models internal/state:
--   * State.Types: the records and constants of store.go and schedules.go (DiskState is diskState).
--   * State.Persist: Open and load (open_store, load), persistLocked with the rollback that follows a
--     failed write (commit), and newID. An Env stands for one call's readings of the clock, its
--     random draws, and the outcome of its write; all three are arbitrary.
--   * State.Json and State.Written: what json.MarshalIndent and a later read make of the data, which
--     is valid UTF-8 in texts, and other white space and escapes in the raw message of a snapshot.
--   * State.Actions, State.Plans, State.Snapshots, State.Logs: the operations of store.go, under
--     their Go names in snake case (GetOrCreateAction is get_or_create_action).
--   * State.Accounts and State.Sequence: accounts.go, with the account codes.
--   * State.Schedules: schedules.go.
--   * State.Scope: RemoveAccountScopedState and PruneAutoDrawData.
--   * State.Display: statuses, task types and display texts.
--   * State.Locks: LockAction and LockAuth as a step relation of any number of goroutines.
--   * State.Session: any sequence of these calls.
--   * State.Migration: MigrateV3 of migration.go, with the answers of the vault as an argument.
-- Auth models internal/auth/broker.go: Acquire, RenewParent, RenewLottery and the steps that they
-- share, as functions of a Platform, which holds the answers of the vault and of the website, and
-- of a Memory, which notes the password logins, the refreshes and the bundles that were saved.
-- Auth.Ledger holds the bundle of internal/secret/vault.go and trackManagedSession. Auth.Remote
-- models Cleanup, RevokeOne and RevokeAllOthers of remote_sessions.go; the capacity guard is an
-- answer to the broker. In Service a session is an answer of the broker.
--
-- Website models the errors and draw limits of internal/lottery/client.go. Service models
-- internal/service: the requests with recovery of runner.go, Service.Checkin its Checkin with
-- reconcileFailedCheckin, Service.ManualDraw manual_draw.go, Service.Queries its queries
-- Dashboard and CheckinStatus with draw_count.go, Service.DailyClaim daily_claim.go,
-- Service.Purchase purchase.go, with PurchaseDraw in Purchase.Draw and UnlockDailyPass in
-- Purchase.Unlock, Service.Activity the report of activity.go, and Service.AutoDraw, with
-- AutoDraw.Checkin, AutoDraw.Execute and AutoDraw.Tick, auto_draw.go: the planning and the execution of plans,
-- with the executors of the scheduler as arguments. Service.Quota models the conversions of
-- quota.go. A Site holds the answers of the outside to each step of a call; a World is the store
-- with the steps taken, the store as it was whenever a claim or a check-in was posted or an order
-- sent, and the keys of the draws. ClaimDaily, the purchases and DrawAvailable hold the lock of
-- their action from start to end; Checkin takes none, and a Site also says what other calls do to
-- the store between its steps.
--
-- A method that checks, changes and persists is a function of an Env, its arguments and a Store,
-- and returns its result with the next Store. A Store is the data in memory and the file. Each
-- method holds the mutex from start to end, so that concurrent calls are a sequence of steps.
--
-- Bounds and fuel: recursion is structural but in three places. The digits of a number n are
-- found with fuel n + 1, more than it has digits; the bits of a float sum
-- beyond the 53 of its fraction with fuel 4096, where 2046 is the most that a sum of two floats
-- can have; the shortest decimal text of a float with fuel 4096 likewise and with 700 places from
-- 10^308 down, where the last digit of such a text stands at 10^-324 or above. Integers of Go's
-- int type occur in counters that the package only stores, and in decimal texts, where
-- strconv.Atoi keeps its range.
--
-- Not modelled: the wording of errors; the JSON text of the state file, which State.Persist gives as
-- the data that a reader finds; the lock file; time zones, which do not change an instant; the
-- requests of the website client, the encryption of the vault, the preview of remote sessions, the
-- other queries of the services and the handlers. Tests holds runs on concrete data.
pub mod Prelude
pub mod Account
pub mod Quota
pub mod State
pub mod Website
pub mod Service
pub mod Auth
pub mod Tests
