-- ===== src/State/Locks/Exclusion.antt =====
-- What the keyed locks promise.
use lottery.Prelude.{
  ℕ, zero, suc, ◌≤◌, ◌≡◌, refl, ◌⊎◌, inl, inr, true, false, none, some, List, [], ◌∷◌, ◌++◌, arith,
  All, All-split, Bool-cases, Option-cases, sym, subst,
}
use lottery.Prelude.Text.{Text}
use lottery.Prelude.Dict.{lookup, HasUniqueKeys}
use lottery.State.Locks.{
  Locks, register, set_locked, Pc, outside, waiting, holding, leaving, System, Step, enter,
  take_lock, unlock, leave, all_outside, no_locks, Reach, start, later,
}
use lottery.State.Locks.Count.{
  unit_if, uses, holds, holds_key, sum_by, sum_by-between, IsRegistered, holds_key-le,
  holds_key-missing, holds-le-key, unused-count, outside-count,
}
use lottery.State.Locks.Invariant.{
  IsSound, set_locked-IsSound, enter_old-IsSound, enter_new-IsSound, leave-IsSound,
}

register_old :
    (key : Text) (e : ℕ) (l : Locks) → lookup key l.table ≡ some e → (register key l).0 ≡ e
unfolding register
register_old key e l found = rw (found, register) refl

register_new : (key : Text) (l : Locks) → lookup key l.table ≡ none → (register key l).0 ≡ l.next
unfolding register
register_new key l missing = rw (missing, register) refl

enter-IsSound :
    (before after : List Pc) (key : Text) (l : Locks)
    → IsSound (before ++ outside ∷ after) l
    → IsSound (before ++ waiting key (register key l).0 ∷ after) (register key l).1
enter-IsSound before after key l h = elim (Option-cases (lookup key l.table)) [
  | inl missing ↦
      subst (λ e. IsSound (before ++ waiting key e ∷ after) (register key l).1)
        (sym (register_new key l missing)) (enter_new-IsSound before after key l missing h)
  | inr (e, found) ↦
      subst (λ e. IsSound (before ++ waiting key e ∷ after) (register key l).1)
        (sym (register_old key e l found)) (enter_old-IsSound before after key e l found h)
]

take_lock-locked :
    (before after : List Pc) (key : Text) (e : ℕ) (l : Locks)
    → (l.entries e).locked ≡ false
    → IsSound (before ++ waiting key e ∷ after) l
    → (d : ℕ)
    → sum_by (holds d) (before ++ holding key e ∷ after)
      ≡ unit_if ((set_locked true e l).entries d).locked
unfolding set_locked
take_lock-locked before after key e l free s d = ground (
  arith,
  s.locked d,
  sum_by-between (holds d) before after (waiting key e),
  sum_by-between (holds d) before after (holding key e),
)

unlock-locked :
    (before after : List Pc) (key : Text) (e : ℕ) (l : Locks)
    → IsSound (before ++ holding key e ∷ after) l
    → (d : ℕ)
    → sum_by (holds d) (before ++ leaving key e ∷ after)
      ≡ unit_if ((set_locked false e l).entries d).locked
unfolding set_locked
unlock-locked before after key e l s d = ground (
  arith,
  s.locked d,
  sum_by-between (holds d) before after (holding key e),
  sum_by-between (holds d) before after (leaving key e),
)

Step-IsSound : {s t : System} → Step s t → IsSound s.threads s.locks → IsSound t.threads t.locks
Step-IsSound (enter before after key l) s = enter-IsSound before after key l s
Step-IsSound (take_lock before after key e l free) s =
    set_locked-IsSound before after (waiting key e) (holding key e) true e l (λ r. r) (λ d. refl)
      (take_lock-locked before after key e l free s) s
Step-IsSound (unlock before after key e l) s =
    set_locked-IsSound before after (holding key e) (leaving key e) false e l (λ r. r) (λ d. refl)
      (unlock-locked before after key e l s) s
Step-IsSound (leave before after key e l) s = leave-IsSound before after key e l s

outside-IsRegistered : (n : ℕ) → All (IsRegistered []) (all_outside n)
outside-IsRegistered zero = tt
outside-IsRegistered (suc n) = (tt, outside-IsRegistered n)

start-IsSound : (n : ℕ) → IsSound (all_outside n) no_locks
unfolding lookup HasUniqueKeys
start-IsSound n = record {
  registered = outside-IsRegistered n;
  counted = λ e. outside-count (uses e) n refl;
  locked = λ e. outside-count (holds e) n refl;
  unused = λ e h. refl;
  bounded = λ key e h. absurd (ground arith);
  apart = λ key other e h k. absurd (ground arith);
  unique = tt;
}

Reach-IsSound : {n : ℕ} {s : System} → Reach n s → IsSound s.threads s.locks
Reach-IsSound {n} start = start-IsSound n
Reach-IsSound (later r st) = Step-IsSound st (Reach-IsSound r)

-- Mutual exclusion: however many goroutines take and release locks in whatever order, two never hold
-- the lock of the same key at the same time.
pub mutual_exclusion :
    {n : ℕ} {s : System} (key : Text) → Reach n s → sum_by (holds_key key) s.threads ≤ 1
mutual_exclusion {n} {s} key r =
    let sound = Reach-IsSound r in
    elim (Option-cases (lookup key s.locks.table)) [
      | inl missing ↦
          omega (arith, holds_key-missing key s.locks.table s.threads missing sound.registered)
      | inr (e, found) ↦
          ground (
            arith,
            holds_key-le key e s.locks.table s.threads found sound.registered,
            sound.locked e,
          )
    ]

-- No deadlock on one lock: a goroutine that waits can take the lock at once, or exactly one goroutine
-- holds the lock of its key.
pub waiting_lem :
    {n : ℕ} {s : System} (before after : List Pc) (key : Text) (e : ℕ)
    → Reach n s
    → s.threads ≡ before ++ waiting key e ∷ after
    → ((s.locks.entries e).locked ≡ false) ⊎ (sum_by (holds_key key) s.threads ≡ 1)
waiting_lem {n} {s} before after key e r at =
    let sound = Reach-IsSound r in
    let found : lookup key s.locks.table ≡ some e =
      (All-split (IsRegistered s.locks.table) before (waiting key e) after
        (subst (All (IsRegistered s.locks.table)) at sound.registered)).1 in
    elim (Bool-cases (s.locks.entries e).locked) [
      | inr free ↦ inl free
      | inl taken ↦ inr (
          ground (
            arith,
            sound.locked e,
            holds_key-le key e s.locks.table s.threads found sound.registered,
            holds-le-key key e s.locks.table s.threads (λ other h. sound.apart other key e h found)
                sound.registered,
          ))
    ]

-- No leak: once every goroutine is outside again, the table is empty.
pub table_lem :
    {n : ℕ} {s : System}
    → Reach n s
    → All (λ p. p ≡ outside) s.threads
    → (key : Text) → lookup key s.locks.table ≡ none
table_lem {n} {s} r out key =
    let sound = Reach-IsSound r in
    elim (Option-cases (lookup key s.locks.table)) [
      | inl missing ↦ missing
      | inr (e, found) ↦
          absurd (
            ground
              (arith, sound.bounded key e found, sound.counted e, unused-count e s.threads out))
    ]
