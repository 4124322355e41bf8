-- ===== src/State/Session/Durable/Set.antt =====
-- The schedules of a store: where `enabled` was given.
use lottery.Prelude.{
  ◌≡◌, subst, inl, inr, some, List, [], ◌∷◌, arith, Option-cases, Bool-cases, All,
}
use lottery.Prelude.Text.{Text, text_eq}
use lottery.Prelude.Dict.{Dict, lookup, insert, erase}
use lottery.State.Types.{AutoDrawSchedule}
use lottery.State.Persist.RoundTrip.{AllSet, SchedulesSet}
use lottery.State.Persist.Restores.{schedules_at}
use lottery.State.Schedules.Normal.{IsNormal}
use lottery.State.Scope.{schedules_back}

pub erase-SchedulesSet :
    (id : Text) (m : Dict (List AutoDrawSchedule)) → SchedulesSet m → SchedulesSet (erase id m)
unfolding erase
erase-SchedulesSet id [] h = tt
erase-SchedulesSet id ((j, entries) ∷ m) h = ground (arith, erase-SchedulesSet id m h.1)

pub insert-SchedulesSet :
    (id : Text) (l : List AutoDrawSchedule) (m : Dict (List AutoDrawSchedule))
    → AllSet l
    → SchedulesSet m
    → SchedulesSet (insert id l m)
unfolding insert
insert-SchedulesSet id l [] set h = (set, tt)
insert-SchedulesSet id l ((j, entries) ∷ m) set h =
    ground (arith, insert-SchedulesSet id l m set h.1)

lookup-AllSet :
    (id : Text) (l : List AutoDrawSchedule) (m : Dict (List AutoDrawSchedule))
    → SchedulesSet m
    → lookup id m ≡ some l
    → AllSet l
unfolding lookup
lookup-AllSet id l [] h q = absurd (ground arith)
lookup-AllSet id l ((j, entries) ∷ m) h q = elim (Bool-cases (text_eq j id)) [
  | inl t ↦ let same : entries ≡ l = ground arith in subst AllSet same h.0
  | inr t ↦ lookup-AllSet id l m h.1 (ground arith)
]

pub schedules_back-SchedulesSet :
    (id : Text) (m : Dict (List AutoDrawSchedule))
    → SchedulesSet m
    → SchedulesSet (schedules_back id m)
unfolding schedules_back
schedules_back-SchedulesSet id m h = elim (Option-cases (lookup id m)) [
  | inl q ↦ rw (q, schedules_back) (erase-SchedulesSet id m h)
  | inr (l, q) ↦
      rw (q, schedules_back)
        (insert-SchedulesSet id l (erase id m) (lookup-AllSet id l m h q)
          (erase-SchedulesSet id m h))
]

pub IsNormal-AllSet : (l : List AutoDrawSchedule) → All IsNormal l → AllSet l
IsNormal-AllSet [] h = tt
IsNormal-AllSet (entry ∷ l) h = (h.0.set, IsNormal-AllSet l h.1)

pub schedules_at-AllSet :
    (id : Text) (m : Dict (List AutoDrawSchedule)) → SchedulesSet m → AllSet (schedules_at id m)
unfolding schedules_at
schedules_at-AllSet id m h = elim (Option-cases (lookup id m)) [
  | inl q ↦ rw (q, schedules_at) tt
  | inr (l, q) ↦ rw (q, schedules_at) (lookup-AllSet id l m h q)
]
