-- ===== src/Quota/Amount.antt =====
-- Exact amounts of internal/quota/money.go: native amounts, rationals and their decimal texts. A
-- big.Rat is a numerator over a positive denominator, not always in lowest terms; no function here
-- can tell.
pub mod Decimal
pub mod Cents
use lottery.Prelude.{
  ℕ, zero, suc, ◌+◌, ◌-◌, ◌*◌, ◌/◌, ◌%◌, ◌^◌, ◌≡◌, refl, Bool, true, false, ◌&&◌, ◌||◌, not, Option,
  none, some, List, [], ◌∷◌, ◌++◌, ltb, leb, ◌==◌, if◌then◌else◌,
}
use lottery.Prelude.Text.{Text, codes, text_eq, is_empty, trim_space}
use lottery.Prelude.Int.{ℤ, pos, negsuc, pos_part, neg_part, ◌-ℤ◌, ltb_ℤ}
use lottery.Prelude.Float.{Real, finite, infinite, nan, one_unit, less_real, with_sign}
use lottery.Prelude.Numeral.{
  is_digit, all_digits, digits_value, print_number, fixed_digits, two_digits, negate,
}
use lottery.Prelude.Result.{
  Result, ok, err, ◌>>=◌, ◌>>◌, reject_if, blank, not_a_number, out_of_range,
}

pub record Rat : Type 0 where
  pub num : ℤ
  pub den : ℕ

abbrev pub magnitude : Rat → ℕ
magnitude x = pos_part x.num + neg_part x.num

abbrev pub is_negative : Rat → Bool
is_negative x = ltb_ℤ x.num (pos 0)

-- ParseNative
unfoldable pub parse_native : Text → Result ℤ
unfolding all_digits digits_value
parse_native raw =
    let raw = trim_space raw in
    do
      reject_if (is_empty raw) blank
      reject_if (not (all_digits raw)) not_a_number
      ok (pos (digits_value 0 raw))

-- 1e15
abbrev pub limit : ℤ
limit = pos (10 ^ 15 * one_unit)

-- value != value || value > 1e15 || value < -1e15
unfoldable pub is_out_of_range : Real → Bool
unfolding less_real negate
is_out_of_range nan = true
is_out_of_range (infinite s) = true
is_out_of_range (finite a) = ltb_ℤ limit a || ltb_ℤ a (negate (10 ^ 15 * one_unit))

-- The units of 2^-1074 of a float64 that is in range.
abbrev pub units_of : Real → ℤ
units_of (finite a) = a
units_of (infinite s) = pos 0
units_of nan = pos 0

-- ParseNativeFloat
unfoldable pub parse_native_float : Real → Result ℤ
unfolding is_out_of_range with_sign negate
parse_native_float value =
    let units = units_of value in
    let n = pos_part units + neg_part units in
    do
      reject_if (is_out_of_range value) out_of_range
      reject_if (not (n % one_unit == 0)) not_a_number
      ok (with_sign (ltb_ℤ units (pos 0)) (n / one_unit))

-- ParseUSDFloat
unfoldable pub parse_usd_float : Real → Result Rat
unfolding is_out_of_range
parse_usd_float value = do
  reject_if (is_out_of_range value) out_of_range
  ok (record { num = units_of value; den = one_unit })

abbrev pub exact_decimals : ℕ
exact_decimals = 12

-- A magnitude in units of 10^-12, rounded half up.
unfoldable pub scaled : ℕ → ℕ → ℕ
scaled n den = (2 * (n * 10 ^ exact_decimals) + den) / (2 * den)

abbrev pub sign_of : Bool → Text
sign_of true = b'-' ∷ []
sign_of false = []

-- Rat.FloatString(12)
unfoldable pub float_string : Rat → Text
unfolding scaled print_number fixed_digits
float_string x =
    let n = scaled (magnitude x) x.den in
    sign_of (is_negative x)
    ++ (print_number (n / 10 ^ exact_decimals)
        ++ (b'.' ∷ fixed_digits exact_decimals (n % 10 ^ exact_decimals)))

-- strings.TrimRight with one byte
unfoldable pub trim_right_of : ℕ → Text → Text
trim_right_of d [] = []
trim_right_of d (c ∷ s) =
    let rest = trim_right_of d s in if c == d && is_empty rest then [] else c ∷ rest

-- exactString, and exactDecimal of a value that is not nil
unfoldable pub exact_decimal : Rat → Text
unfolding float_string trim_right_of text_eq
exact_decimal x =
    let text = trim_right_of b'.' (trim_right_of b'0' (float_string x)) in
    if is_empty text || text_eq text (b'-' ∷ []) then b'0' ∷ [] else text

-- A magnitude in cents, rounded half up.
unfoldable pub cents_of : Rat → ℕ
cents_of x = (2 * (100 * magnitude x) + x.den) / (2 * x.den)

-- The text of an amount of cents.
unfoldable pub dollars_text : Bool → ℕ → Text
unfolding print_number two_digits
dollars_text negative cents =
    sign_of negative ++ (b'$' ∷ (print_number (cents / 100) ++ (b'.' ∷ two_digits (cents % 100))))

-- displayUSD
unfoldable pub display_usd : Rat → Text
unfolding exact_decimal cents_of dollars_text
display_usd x =
    if magnitude x == 0
    then codes "$0.00"
    else if ltb (200 * magnitude x) x.den
    then sign_of (is_negative x)
      ++ (b'$' ∷ exact_decimal (record { num = pos (magnitude x); den = x.den }))
    else dollars_text (is_negative x) (cents_of x)

display_test : display_usd (record { num = negsuc 1234; den = 1000 }) ≡ codes "-$1.24"
unfolding display_usd
display_test = refl

sub_cent_test : display_usd (record { num = pos 1; den = 1000 }) ≡ codes "$0.001"
unfolding display_usd
sub_cent_test = refl
