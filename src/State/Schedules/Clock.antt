-- ===== src/State/Schedules/Clock.antt =====
-- The clock times of the schedules.
use lottery.Prelude.{
  ℕ, ◌+◌, ◌*◌, ◌/◌, ◌%◌, ◌≤◌, ◌<◌, ◌≡◌, refl, subst, sym, inl, inr, false, Option, none, some, List,
  [], ◌∷◌, arith, Option-cases,
}
use lottery.Prelude.Text.{Text, trim_space, is_space}
use lottery.Prelude.Int.{ℤ, pos, negsuc}
use lottery.Prelude.Numeral.{atoi, split, two_digits}
use lottery.Prelude.Numeral.RoundTrip.{atoi-two_digits, split-clock}
use lottery.Prelude.Result.{ok}
use lottery.State.Schedules.{
  in_range, print_clock, clock_of_parts, normalize_clock, number_or_zero, minutes_of_parts,
  clock_minutes,
}

visible : (n : ℕ) → n < 10 → is_space (48 + n) ≡ false
unfolding is_space
visible n h = ground arith

trim-print_clock : (h m : ℕ) → h < 100 → m < 100 → trim_space (print_clock h m) ≡ print_clock h m
unfolding trim_space print_clock two_digits
trim-print_clock h m ph pm =
    ground (arith, visible (h / 10), visible (h % 10), visible (m / 10), visible (m % 10))

in_range-print : (top n : ℕ) → n ≤ top → in_range top (some (pos n)) ≡ some n
unfolding in_range
in_range-print top n h = ground arith

in_range-le : (top : ℕ) (v : Option ℤ) (n : ℕ) → in_range top v ≡ some n → n ≤ top
unfolding in_range
in_range-le top none n h = absurd (cc)
in_range-le top (some (pos k)) n h = ground arith
in_range-le top (some (negsuc k)) n h = absurd (cc)

-- A clock time that has been normalized stays as it is, and its minutes are those of its numbers.
normalize_clock-print :
    (h m : ℕ)
    → h ≤ 23
    → m ≤ 59
    → (normalize_clock (print_clock h m) ≡ ok (print_clock h m))
      × (clock_minutes (print_clock h m) ≡ some (h * 60 + m))
normalize_clock-print h m ph pm = (
  unfold normalize_clock in
      rw (trim-print_clock h m (omega arith) (omega arith)) (
        unfold print_clock in
        rw (split-clock h m (omega arith) (omega arith)) (
          unfold clock_of_parts in
          rw (
            atoi-two_digits h (omega arith),
            atoi-two_digits m (omega arith),
            in_range-print 23 h ph,
            in_range-print 59 m pm,
          ))),
  unfold clock_minutes print_clock in
      rw (split-clock h m (omega arith) (omega arith)) (
        unfold minutes_of_parts in
        rw (atoi-two_digits h (omega arith), atoi-two_digits m (omega arith))
          (unfold number_or_zero in refl)),
)

clock_of_parts-print :
    (parts : List Text) (c : Text)
    → clock_of_parts parts ≡ ok c
    → (h : ℕ) × (m : ℕ) × (h ≤ 23) × (m ≤ 59) × (c ≡ print_clock h m)
unfolding clock_of_parts
clock_of_parts-print [] c e = absurd (cc)
clock_of_parts-print (h ∷ []) c e = absurd (cc)
clock_of_parts-print (h ∷ m ∷ x ∷ rest) c e = absurd (cc)
clock_of_parts-print (h ∷ m ∷ []) c e = elim (Option-cases (in_range 23 (atoi h))) [
  | inl q ↦ absurd (ground arith)
  | inr (hour, q) ↦ elim (Option-cases (in_range 59 (atoi m))) [
    | inl p ↦ absurd (ground arith)
    | inr (minute, p) ↦ (
      hour,
      minute,
      in_range-le 23 (atoi h) hour q,
      in_range-le 59 (atoi m) minute p,
      ground arith,
    )
  ]
]

-- A clock time that is accepted is a time of the day in two digits each: normalizing it again gives
-- the same text, and its minutes are those of its hour and minute.
pub normalize_clock_lem :
    (value c : Text)
    → normalize_clock value ≡ ok c
    → (h : ℕ) × (m : ℕ) × (h ≤ 23)
      × (m ≤ 59)
      × (c ≡ print_clock h m)
      × (normalize_clock c ≡ ok c)
      × (clock_minutes c ≡ some (h * 60 + m))
normalize_clock_lem value c e =
    let parts =
      clock_of_parts-print (split b':' (trim_space value)) c (unfold normalize_clock in e) in
    let back = normalize_clock-print parts.0 parts.1 parts.2 parts.3 in
    (
      parts.0,
      parts.1,
      parts.2,
      parts.3,
      parts.4,
      subst (λ t. normalize_clock t ≡ ok t) (sym parts.4) back.0,
      subst (λ t. clock_minutes t ≡ some (parts.0 * 60 + parts.1)) (sym parts.4) back.1,
    )
