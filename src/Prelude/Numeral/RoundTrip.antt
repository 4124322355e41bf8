-- ===== src/Prelude/Numeral/RoundTrip.antt =====
-- Numbers printed and read.
use lottery.Prelude.{
  ℕ, zero, suc, ◌+◌, ◌-◌, ◌*◌, ◌/◌, ◌%◌, ◌<◌, ◌≡◌, refl, inl, inr, true, false, some, [], ◌∷◌, ◌++◌,
  arith, ltb, Bool-cases,
}
use lottery.Prelude.Text.{Text, is_empty}
use lottery.Prelude.Int.{pos}
use lottery.Prelude.Numeral.{
  is_digit, all_digits, digits_value, parse_digits, signed, atoi, split, add_to_first, two_digits,
  digits_of, print_number, fixed_digits,
}

digit_low : (n : ℕ) → n < 10 → is_digit (48 + n) ≡ true
digit_low n h = ground arith

pub atoi-two_digits : (n : ℕ) → n < 100 → atoi (two_digits n) ≡ some (pos n)
unfolding atoi two_digits signed parse_digits all_digits digits_value
atoi-two_digits n h = ground (arith, digit_low (n / 10), digit_low (n % 10))

pub split-clock :
    (h m : ℕ)
    → h < 100
    → m < 100
    → split b':' (two_digits h ++ b':' ∷ two_digits m) ≡ two_digits h ∷ two_digits m ∷ []
unfolding split two_digits add_to_first
split-clock h m ph pm = ground arith

pub all_digits-append :
    (s t : Text) → all_digits s ≡ true → all_digits t ≡ true → all_digits (s ++ t) ≡ true
unfolding all_digits
all_digits-append [] t h k = k
all_digits-append (c ∷ s) t h k = ground (arith, all_digits-append s t)

digits_value-snoc :
    (acc : ℕ) (s : Text) (c : ℕ)
    → digits_value acc (s ++ c ∷ []) ≡ digits_value acc s * 10 + (c - 48)
unfolding digits_value
digits_value-snoc acc [] c = refl
digits_value-snoc acc (d ∷ s) c = digits_value-snoc (acc * 10 + (d - 48)) s c

pub digits_of-value : (fuel n : ℕ) → n < fuel → digits_value 0 (digits_of fuel n) ≡ n
unfolding digits_of digits_value
digits_of-value zero n h = absurd (omega arith)
digits_of-value (suc fuel) n h = elim (Bool-cases (ltb n 10)) [
  | inl q ↦ rw q (ground arith)
  | inr q ↦
      rw (q, digits_value-snoc 0 (digits_of fuel (n / 10)) (48 + n % 10))
        (ground (arith, digits_of-value fuel (n / 10)))
]

pub digits_of-all_digits : (fuel n : ℕ) → all_digits (digits_of fuel n) ≡ true
unfolding digits_of all_digits
digits_of-all_digits zero n = refl
digits_of-all_digits (suc fuel) n = elim (Bool-cases (ltb n 10)) [
  | inl q ↦ rw q (ground arith)
  | inr q ↦ rw q (
      all_digits-append (digits_of fuel (n / 10)) _ (digits_of-all_digits fuel (n / 10))
        (ground arith))
]

-- The decimal text of a number is read back as the number, and holds digits only.
pub print_number-read : (n : ℕ) → digits_value 0 (print_number n) ≡ n
unfolding print_number
print_number-read n = digits_of-value (suc n) n (omega arith)

pub print_number-all_digits : (n : ℕ) → all_digits (print_number n) ≡ true
unfolding print_number
print_number-all_digits n = digits_of-all_digits (suc n) n

snoc-given : (s : Text) (c : ℕ) → is_empty (s ++ c ∷ []) ≡ false
snoc-given [] c = refl
snoc-given (d ∷ s) c = refl

pub print_number-given : (n : ℕ) → is_empty (print_number n) ≡ false
unfolding print_number digits_of
print_number-given n = elim (Bool-cases (ltb n 10)) [
  | inl q ↦ rw q refl
  | inr q ↦ rw q (snoc-given (digits_of n (n / 10)) (48 + n % 10))
]

pub fixed_digits-all_digits : (width n : ℕ) → all_digits (fixed_digits width n) ≡ true
unfolding fixed_digits all_digits
fixed_digits-all_digits zero n = refl
fixed_digits-all_digits (suc width) n =
    all_digits-append (fixed_digits width (n / 10)) _ (fixed_digits-all_digits width (n / 10))
      (ground arith)
