-- ===== src/Prelude/Numeral.antt =====
-- Decimal numbers in texts: strconv.Atoi, the verbs %d and %02d, and strings.Split at one byte.
pub mod RoundTrip
use lottery.Prelude.{
  ℕ, zero, suc, ◌+◌, ◌-◌, ◌*◌, ◌/◌, ◌%◌, ◌^◌, Bool, true, false, ◌&&◌, ◌||◌, not, Option, none,
  some, List, [], ◌∷◌, ◌++◌, ltb, leb, ◌==◌, if◌then◌else◌,
}
use lottery.Prelude.Text.{Text, is_empty}
use lottery.Prelude.Int.{ℤ, pos, negsuc}

abbrev pub is_digit : ℕ → Bool
is_digit c = leb b'0' c && leb c b'9'

unfoldable pub all_digits : Text → Bool
all_digits [] = true
all_digits (c ∷ s) = is_digit c && all_digits s

-- The value of a run of digits, most significant first, after `acc`.
unfoldable pub digits_value : ℕ → Text → ℕ
digits_value acc [] = acc
digits_value acc (c ∷ s) = digits_value (acc * 10 + (c - b'0')) s

-- One digit or more.
unfoldable pub parse_digits : Text → Option ℕ
parse_digits s = if is_empty s || not (all_digits s) then none else some (digits_value 0 s)

-- 2^63, the first number beyond int64.
abbrev pub int_limit : ℕ
int_limit = 0x8000000000000000

unfoldable pub negate : ℕ → ℤ
negate zero = pos 0
negate (suc n) = negsuc n

unfoldable pub signed : Bool → Option ℕ → Option ℤ
signed negative none = none
signed true (some n) = if leb n int_limit then some (negate n) else none
signed false (some n) = if ltb n int_limit then some (pos n) else none

-- strconv.Atoi: an optional sign, then digits, in the range of an int of 64 bits.
unfoldable pub atoi : Text → Option ℤ
unfolding signed parse_digits all_digits digits_value negate
atoi [] = none
atoi (c ∷ s) =
    if c == b'-'
    then signed true (parse_digits s)
    else if c == b'+'
    then signed false (parse_digits s)
    else signed false (parse_digits (c ∷ s))

unfoldable pub add_to_first : ℕ → List Text → List Text
add_to_first c [] = (c ∷ []) ∷ []
add_to_first c (word ∷ words) = (c ∷ word) ∷ words

-- strings.Split
unfoldable pub split : ℕ → Text → List Text
unfolding add_to_first
split sep [] = [] ∷ []
split sep (c ∷ s) = let rest = split sep s in if c == sep then [] ∷ rest else add_to_first c rest

-- %02d of a number below 100.
unfoldable pub two_digits : ℕ → Text
two_digits n = (b'0' + n / 10) ∷ (b'0' + n % 10) ∷ []

-- The digits of a number, found with fuel.
unfoldable pub digits_of : ℕ → ℕ → Text
digits_of zero n = []
digits_of (suc fuel) n =
    let rest = digits_of fuel (n / 10) in
    if ltb n 10 then (b'0' + n) ∷ [] else rest ++ (b'0' + n % 10) ∷ []

-- %d of a natural number.
unfoldable pub print_number : ℕ → Text
unfolding digits_of
print_number n = digits_of (suc n) n

-- The last `width` digits.
unfoldable pub fixed_digits : ℕ → ℕ → Text
fixed_digits zero n = []
fixed_digits (suc width) n = fixed_digits width (n / 10) ++ (b'0' + n % 10) ∷ []
