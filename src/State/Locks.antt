-- ===== src/State/Locks.antt =====
-- The keyed locks of internal/state/store.go: LockAction and LockAuth, which share their text but for
-- the key and the table. An entry of the table is a pointer to a mutex with a count of its users.
pub mod Count
pub mod Invariant
pub mod Exclusion
use lottery.Prelude.{
  ℕ, zero, suc, ◌+◌, ◌-◌, ◌≡◌, Bool, true, false, Option, none, some, List, [], ◌∷◌, ◌++◌, ◌==◌,
  if◌then◌else◌,
}
use lottery.Prelude.Text.{Text, trim_space}
use lottery.Prelude.Dict.{Dict, lookup, insert, erase}
use lottery.State.Actions.{action_key}

-- actionLock, with what its mutex knows.
pub record Entry : Type 0 where
  pub locked : Bool
  pub refs : ℕ

-- A table of locks, and the entries by their addresses; those from `next` on are not in use yet.
pub record Locks : Type 0 where
  pub table : Dict ℕ
  pub entries : ℕ → Entry
  pub next : ℕ

unfoldable pub lock_action_key : Text → Text → Text → Text
lock_action_key account_id date kind = action_key (trim_space account_id) (trim_space date) kind

unfoldable pub lock_auth_key : Text → Text
lock_auth_key account_id = trim_space account_id

unfoldable pub with_entry : ℕ → Entry → (ℕ → Entry) → ℕ → Entry
with_entry at entry entries e = if at == e then entry else entries e

-- The first critical section of LockAction: the entry of the key, made if need be, has a user more.
unfoldable pub register : Text → Locks → ℕ × Locks
unfolding with_entry
register key l = elim (lookup key l.table) [
  | some e ↦ (
    e,
    record l {
      entries = with_entry e (record (l.entries e) { refs = (l.entries e).refs + 1 }) l.entries;
    },
  )
  | none ↦ (
    l.next,
    record l {
      table = insert key l.next l.table;
      entries = with_entry l.next (record { locked = false; refs = 1 }) l.entries;
      next = l.next + 1;
    },
  )
]

-- entry.mu.Lock and entry.mu.Unlock
unfoldable pub set_locked : Bool → ℕ → Locks → Locks
unfolding with_entry
set_locked b e l = record l {
  entries = with_entry e (record (l.entries e) { locked = b }) l.entries;
}

-- The second critical section, in the function that LockAction returns: the last user takes the
-- entry out of the table.
unfoldable pub unregister : Text → ℕ → Locks → Locks
unfolding with_entry
unregister key e l =
    let refs = (l.entries e).refs - 1 in
    record l {
      table = if refs == 0 then erase key l.table else l.table;
      entries = with_entry e (record (l.entries e) { refs = refs }) l.entries;
    }

-- Where a goroutine stands: outside, before entry.mu.Lock, between LockAction and the call of what it
-- returned, and between the two halves of that call. The call has an effect once.
pub data Pc : Type 0 where
  outside : Pc
  waiting holding leaving : Text → ℕ → Pc

pub record System : Type 0 where
  pub threads : List Pc
  pub locks : Locks

-- One goroutine moves. A mutex is taken only while it is free.
pub data Step : System → System → Type 0 where
  enter :
      (before after : List Pc) (key : Text) (l : Locks)
      → Step
          (record { threads = before ++ outside ∷ after; locks = l })
          (record {
            threads = before ++ waiting key (register key l).0 ∷ after;
            locks = (register key l).1;
          })
  take_lock :
      (before after : List Pc) (key : Text) (e : ℕ) (l : Locks)
      → (l.entries e).locked ≡ false
      → Step
          (record { threads = before ++ waiting key e ∷ after; locks = l })
          (record { threads = before ++ holding key e ∷ after; locks = set_locked true e l })
  unlock :
      (before after : List Pc) (key : Text) (e : ℕ) (l : Locks)
      → Step
          (record { threads = before ++ holding key e ∷ after; locks = l })
          (record { threads = before ++ leaving key e ∷ after; locks = set_locked false e l })
  leave :
      (before after : List Pc) (key : Text) (e : ℕ) (l : Locks)
      → Step
          (record { threads = before ++ leaving key e ∷ after; locks = l })
          (record { threads = before ++ outside ∷ after; locks = unregister key e l })

-- Any number of goroutines, all outside, and an empty table.
abbrev pub all_outside : ℕ → List Pc
all_outside zero = []
all_outside (suc n) = outside ∷ all_outside n

abbrev pub no_locks : Locks
no_locks = record { table = []; entries = λ e. record { locked = false; refs = 0 }; next = 0 }

pub data Reach (n : ℕ) : System → Type 0 where
  start : Reach n (record { threads = all_outside n; locks = no_locks })
  later : {s t : System} → Reach n s → Step s t → Reach n t
