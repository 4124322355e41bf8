-- ===== src/Quota/Amount/Cents.antt =====
-- The amount that displayUSD shows.
use lottery.Prelude.{
  ℕ, ◌+◌, ◌*◌, ◌/◌, ◌%◌, ◌≤◌, ◌<◌, ◌≡◌, refl, Bool, true, false, not, ◌&&◌, Option, none, some, [],
  ◌∷◌, ◌++◌, length, ◌==◌, if◌then◌else◌, ap, ◌∙◌, arith,
}
use lottery.Prelude.Text.{Text, is_empty}
use lottery.Prelude.Numeral.{all_digits, digits_value, print_number, two_digits}
use lottery.Prelude.Numeral.RoundTrip.{
  print_number-read, print_number-all_digits, print_number-given,
}
use lottery.Quota.Amount.{Rat, magnitude, is_negative, cents_of, dollars_text, display_usd}
use lottery.Quota.Amount.Decimal.{
  before_point, after_point, before_point-append, after_point-append, signed_size,
}

-- The cents of an amount with two decimals, read independently of how it is printed.
abbrev pub read_cents : Text → Option ℕ
read_cents s =
    if not (is_empty (before_point s))
      && all_digits (before_point s)
      && all_digits (after_point s)
      && (length (after_point s) == 2)
    then some (100 * digits_value 0 (before_point s) + digits_value 0 (after_point s))
    else none

abbrev pub read_dollars : Text → Option ℕ
read_dollars [] = none
read_dollars (c ∷ s) = if c == b'$' then read_cents s else none

-- A shown amount, such as "-$1.24": whether it has a minus sign, and its cents.
abbrev pub read_shown : Text → Option (Bool × ℕ)
read_shown [] = none
read_shown (c ∷ s) =
    if c == b'-'
    then signed_size true (read_dollars s)
    else signed_size false (read_dollars (c ∷ s))

two_digits-all_digits : (n : ℕ) → n < 100 → all_digits (two_digits n) ≡ true
unfolding two_digits all_digits
two_digits-all_digits n h = ground arith

two_digits-read : (n : ℕ) → n < 100 → digits_value 0 (two_digits n) ≡ n
unfolding two_digits digits_value
two_digits-read n h = omega arith

read_cents-lem :
    (c : ℕ) → read_cents (print_number (c / 100) ++ (b'.' ∷ two_digits (c % 100))) ≡ some c
unfolding two_digits
read_cents-lem c =
    let s = print_number (c / 100) in
    let f = two_digits (c % 100) in
    let hs = print_number-all_digits (c / 100) in
    let whole : 100 * (c / 100) + c % 100 ≡ c = omega arith in
    rw (before_point-append s f hs, after_point-append s f hs)
      (rw
        (
          print_number-given (c / 100),
          hs,
          two_digits-all_digits (c % 100) (omega arith),
          print_number-read (c / 100),
          two_digits-read (c % 100) (omega arith),
        )
        (ap some whole))

-- The text of an amount of cents is read back.
dollars_text-read :
    (negative : Bool) (c : ℕ) → read_shown (dollars_text negative c) ≡ some (negative, c)
unfolding dollars_text
dollars_text-read true c = rw (read_cents-lem c) refl
dollars_text-read false c = rw (read_cents-lem c) refl

-- The cents are the nearest to the amount: at most half a cent below, and less than half above.
cents_near :
    (x : Rat)
    → 0 < x.den
    → (2 * cents_of x * x.den ≤ 200 * magnitude x + x.den)
      × (200 * magnitude x < 2 * cents_of x * x.den + x.den)
unfolding cents_of
cents_near x h = grind arith

display_usd-cents :
    (x : Rat)
    → 0 < x.den
    → x.den ≤ 200 * magnitude x
    → display_usd x ≡ dollars_text (is_negative x) (cents_of x)
unfolding display_usd
display_usd-cents x h big = ground arith

-- The text that shows an amount of half a cent or more has a minus sign if and only if the amount is
-- negative, and is read back as the cents nearest to the size of the amount, half a cent up. They
-- are one at least, so that the text is never "$0.00".
pub display_usd-nearest :
    (x : Rat)
    → 0 < x.den
    → x.den ≤ 200 * magnitude x
    → (c : ℕ) × (read_shown (display_usd x) ≡ some (is_negative x, c))
      × (1 ≤ c)
      × (2 * c * x.den ≤ 200 * magnitude x + x.den)
      × (200 * magnitude x < 2 * c * x.den + x.den)
display_usd-nearest x h big = (
  cents_of x,
  ap read_shown (display_usd-cents x h big) ∙ dollars_text-read (is_negative x) (cents_of x),
  grind (arith, cents_near x h),
  (cents_near x h).0,
  (cents_near x h).1,
)
