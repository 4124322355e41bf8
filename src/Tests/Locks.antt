-- ===== src/Tests/Locks.antt =====
-- Runs of the keyed locks: two goroutines at one key, and one that comes and goes.
use lottery.Prelude.{ℕ, ◌≤◌, ◌≡◌, ◌⊎◌, refl, true, false, none, [], ◌∷◌}
use lottery.Prelude.Text.{Text, codes}
use lottery.Prelude.Dict.{lookup}
use lottery.State.Locks.{
  Locks, register, set_locked, unregister, outside, waiting, holding, leaving, System, enter,
  take_lock, unlock, leave, no_locks, Reach, start, later,
}
use lottery.State.Locks.Count.{holds_key, sum_by}
use lottery.State.Locks.Exclusion.{mutual_exclusion, waiting_lem, table_lem}

abbrev key : Text
key = codes "k"

abbrev entry : ℕ
entry = (register key no_locks).0

abbrev entered : Locks
entered = (register key no_locks).1

abbrev taken : Locks
taken = set_locked true entry entered

abbrev contended : System
contended = record {
  threads = holding key entry ∷ waiting key (register key taken).0 ∷ [];
  locks = (register key taken).1;
}

contended-Reach : Reach 2 contended
unfolding lookup register set_locked lottery.State.Locks.with_entry
contended-Reach =
    later
      (later (later start (enter [] (outside ∷ []) key no_locks))
        (take_lock [] (outside ∷ []) key entry entered refl))
      (enter (holding key entry ∷ []) [] key taken)

mutual_exclusion_example : sum_by (holds_key key) contended.threads ≤ 1
mutual_exclusion_example = mutual_exclusion key contended-Reach

waiting_lem_example :
    ((contended.locks.entries (register key taken).0).locked ≡ false)
    ⊎ (sum_by (holds_key key) contended.threads ≡ 1)
waiting_lem_example =
    waiting_lem (holding key entry ∷ []) [] key (register key taken).0 contended-Reach refl

abbrev gone : System
gone = record {
  threads = outside ∷ [];
  locks = unregister key entry (set_locked false entry taken);
}

gone-Reach : Reach 1 gone
unfolding register set_locked lottery.State.Locks.with_entry lookup
gone-Reach =
    later
      (later
        (later (later start (enter [] [] key no_locks)) (take_lock [] [] key entry entered refl))
        (unlock [] [] key entry taken))
      (leave [] [] key entry (set_locked false entry taken))

table_lem_example : lookup key gone.locks.table ≡ none
table_lem_example = table_lem gone-Reach (refl, tt) key
