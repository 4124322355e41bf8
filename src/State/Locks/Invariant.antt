-- ===== src/State/Locks/Invariant.antt =====
-- What holds of the locks in every reachable state.
use lottery.Prelude.{
  ℕ, ◌+◌, ◌-◌, ◌≤◌, ◌<◌, ◌≡◌, inl, inr, Bool, none, some, List, ◌∷◌, ◌++◌, arith, ◌==◌, All,
  All-split, All-between, All-map, All-both, Bool-cases,
}
use lottery.Prelude.Text.{Text, text_eq_iff}
use lottery.Prelude.Dict.{
  lookup, insert, erase, HasUniqueKeys, lookup-insert, lookup-erase_ne, lookup-erase_self,
  insert-HasUniqueKeys, erase-HasUniqueKeys,
}
use lottery.State.Locks.{Locks, register, set_locked, unregister, Pc, outside, waiting, leaving}
use lottery.State.Locks.Count.{
  holds-le-uses, IsRegistered-insert, IsRegistered-erase, unit_if, uses, holds, sum_by,
  sum_by-between, sum_by-zero, IsRegistered,
}

-- Each entry counts its users and knows whether it is locked; the table holds the entries in use,
-- one under each key.
pub record IsSound (threads : List Pc) (l : Locks) : Type 0 where
  pub registered : All (IsRegistered l.table) threads
  pub counted : (e : ℕ) → sum_by (uses e) threads ≡ (l.entries e).refs
  pub locked : (e : ℕ) → sum_by (holds e) threads ≡ unit_if (l.entries e).locked
  pub unused : (e : ℕ) → l.next ≤ e → (l.entries e).refs ≡ 0
  pub bounded :
      (key : Text) (e : ℕ) → lookup key l.table ≡ some e → (e < l.next) × (0 < (l.entries e).refs)
  pub apart :
      (key other : Text) (e : ℕ)
      → lookup key l.table ≡ some e
      → lookup other l.table ≡ some e
      → key ≡ other
  pub unique : HasUniqueKeys l.table

-- A goroutine that uses an entry which no other uses.
others-unused :
    (e : ℕ) (before after : List Pc)
    → sum_by (uses e) before + sum_by (uses e) after ≡ 0
    → All (λ p. uses e p ≡ 0) before × All (λ p. uses e p ≡ 0) after
others-unused e before after h =
    (sum_by-zero (uses e) before (omega arith), sum_by-zero (uses e) after (omega arith))

pub set_locked-IsSound :
    (before after : List Pc) (p q : Pc) (b : Bool) (e : ℕ) (l : Locks)
    → (IsRegistered l.table p → IsRegistered l.table q)
    → ((d : ℕ) → uses d p ≡ uses d q)
    → ((d : ℕ)
        → sum_by (holds d) (before ++ q ∷ after) ≡ unit_if ((set_locked b e l).entries d).locked)
    → IsSound (before ++ p ∷ after) l
    → IsSound (before ++ q ∷ after) (set_locked b e l)
unfolding set_locked
set_locked-IsSound before after p q b e l keeps same locked s = record {
  registered =
      let r = All-split (IsRegistered l.table) before p after s.registered in
      All-between (IsRegistered l.table) before q after r.0 (keeps r.1) r.2;
  counted = λ d. ground (
    arith,
    s.counted d,
    same d,
    sum_by-between (uses d) before after p,
    sum_by-between (uses d) before after q,
  );
  locked = locked;
  unused = λ d h. ground (arith, s.unused d h);
  bounded = λ key d h. ground (arith, s.bounded key d h);
  apart = s.apart;
  unique = s.unique;
}

pub enter_old-IsSound :
    (before after : List Pc) (key : Text) (e : ℕ) (l : Locks)
    → lookup key l.table ≡ some e
    → IsSound (before ++ outside ∷ after) l
    → IsSound (before ++ waiting key e ∷ after) (register key l).1
unfolding register
enter_old-IsSound before after key e l found s =
    let inside = s.bounded key e found in
    let p = waiting key e in
    rw (found, register)
      (record {
        registered =
            let r = All-split (IsRegistered l.table) before outside after s.registered in
            All-between (IsRegistered l.table) before p after r.0 found r.2;
        counted = λ d. ground (
          arith,
          s.counted d,
          sum_by-between (uses d) before after outside,
          sum_by-between (uses d) before after p,
        );
        locked = λ d. ground (
          arith,
          s.locked d,
          sum_by-between (holds d) before after outside,
          sum_by-between (holds d) before after p,
        );
        unused = λ d h. ground (arith, s.unused d h);
        bounded = λ k d h. ground (arith, s.bounded k d h);
        apart = s.apart;
        unique = s.unique;
      })

pub enter_new-IsSound :
    (before after : List Pc) (key : Text) (l : Locks)
    → lookup key l.table ≡ none
    → IsSound (before ++ outside ∷ after) l
    → IsSound (before ++ waiting key l.next ∷ after) (register key l).1
unfolding register
enter_new-IsSound before after key l missing s =
    let p = waiting key l.next in
    let table = insert key l.next l.table in
    let none_yet = s.unused l.next (omega arith) in
    rw (missing, register)
      (record {
        registered =
            let r = All-split (IsRegistered l.table) before outside after s.registered in
            let keeps = λ (q : Pc). IsRegistered-insert key l.next l.table q missing in
            All-between (IsRegistered table) before p after
              (All-map (IsRegistered l.table) (IsRegistered table) before keeps r.0)
              (ground (arith, lookup-insert key key l.next l.table, text_eq_iff key key))
              (All-map (IsRegistered l.table) (IsRegistered table) after keeps r.2);
        counted = λ d. ground (
          arith,
          none_yet,
          s.counted d,
          sum_by-between (uses d) before after outside,
          sum_by-between (uses d) before after p,
        );
        locked = λ d. ground (
          arith,
          none_yet,
          s.counted d,
          s.locked d,
          holds-le-uses d (before ++ outside ∷ after),
          sum_by-between (holds d) before after outside,
          sum_by-between (holds d) before after p,
        );
        unused = λ d h. ground (arith, s.unused d);
        bounded = λ k d h. ground (arith, s.bounded k d, lookup-insert key k l.next l.table);
        apart = λ k k' d h h'. ground (
          arith,
          s.apart k k' d,
          s.bounded k d,
          s.bounded k' d,
          text_eq_iff key k,
          text_eq_iff key k',
          lookup-insert key k l.next l.table,
          lookup-insert key k' l.next l.table,
        );
        unique = insert-HasUniqueKeys key l.next l.table s.unique;
      })

leave-IsRegistered :
    (before after : List Pc) (key : Text) (e : ℕ) (l : Locks)
    → lookup key l.table ≡ some e
    → (l.entries e).refs - 1 ≡ 0
    → IsSound (before ++ leaving key e ∷ after) l
    → All (IsRegistered (erase key l.table)) (before ++ outside ∷ after)
leave-IsRegistered before after key e l found last s =
    let P = IsRegistered l.table in
    let Q = IsRegistered (erase key l.table) in
    let r = All-split P before (leaving key e) after s.registered in
    let others =
      others-unused e before after
        (ground (arith, s.counted e, sum_by-between (uses e) before after (leaving key e))) in
    let U = λ (q : Pc). uses e q ≡ 0 in
    let keeps = λ (q : Pc). IsRegistered-erase key e l.table q found in
    All-between Q before outside after
      (All-map (λ q. P q × U q) Q before keeps (All-both P U before r.0 others.0)) tt
      (All-map (λ q. P q × U q) Q after keeps (All-both P U after r.2 others.1))

pub leave-IsSound :
    (before after : List Pc) (key : Text) (e : ℕ) (l : Locks)
    → IsSound (before ++ leaving key e ∷ after) l
    → IsSound (before ++ outside ∷ after) (unregister key e l)
unfolding unregister
leave-IsSound before after key e l s =
    let p = leaving key e in
    let r = All-split (IsRegistered l.table) before p after s.registered in
    let found : lookup key l.table ≡ some e = r.1 in
    let inside = s.bounded key e found in
    record {
      registered = elim (Bool-cases ((l.entries e).refs - 1 == 0)) [
        | inl last ↦ rw last (leave-IsRegistered before after key e l found (ground arith) s)
        | inr more ↦ rw more (All-between (IsRegistered l.table) before outside after r.0 tt r.2)
      ];
      counted = λ d. ground (
        arith,
        inside,
        s.counted d,
        sum_by-between (uses d) before after p,
        sum_by-between (uses d) before after outside,
      );
      locked = λ d. ground (
        arith,
        s.locked d,
        sum_by-between (holds d) before after p,
        sum_by-between (holds d) before after outside,
      );
      unused = λ d h. ground (arith, s.unused d h);
      bounded = λ k d h. ground (
        arith,
        s.bounded k d,
        s.apart k key d,
        text_eq_iff key k,
        lookup-erase_ne key k l.table,
        lookup-erase_self key l.table s.unique,
      );
      apart = λ k k' d h h'. ground (
        arith,
        s.apart k k' d,
        text_eq_iff key k,
        text_eq_iff key k',
        lookup-erase_ne key k l.table,
        lookup-erase_ne key k' l.table,
        lookup-erase_self key l.table s.unique,
      );
      unique = ground (arith, s.unique, erase-HasUniqueKeys key l.table s.unique);
    }
