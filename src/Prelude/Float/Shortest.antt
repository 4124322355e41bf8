-- ===== src/Prelude/Float/Shortest.antt =====
-- strconv.FormatFloat with the verb 'f' and precision -1: the shortest decimal that a float64 is read
-- back from.
use lottery.Prelude.{
  ℕ, zero, suc, ◌+◌, ◌-◌, ◌*◌, ◌/◌, ◌%◌, ◌^◌, ◌≡◌, refl, Bool, true, false, ◌&&◌, ◌||◌, [], ◌∷◌,
  ◌++◌, ltb, leb, ◌==◌, if◌then◌else◌,
}
use lottery.Prelude.Text.{Text, codes}
use lottery.Prelude.Int.{pos, pos_part, neg_part, ltb_ℤ}
use lottery.Prelude.Float.{Real, finite, infinite, nan, value_of, one_unit, excess}
use lottery.Prelude.Numeral.{print_number, fixed_digits}

-- The numbers that are read back as `n`, in quarters of a unit: the bounds, which belong to them if
-- the fraction is even.
record Interval : Type 0 where
  lower : ℕ
  upper : ℕ
  closed : Bool

interval_of : ℕ → Interval
unfolding excess
interval_of n =
    let spare = excess 4096 n in
    let step = 2 ^ spare in
    record {
      lower = if n / step == 2 ^ 52 && ltb 0 spare then 4 * n - step else 4 * n - 2 * step;
      upper = 4 * n + 2 * step;
      closed = n / step % 2 == 0;
    }

-- Whether c * 10^308 / 10^place is read back as the number, with all sides multiplied.
is_inside : Interval → ℕ → ℕ → Bool
is_inside i place c =
    let x = c * 10 ^ 308 * one_unit * 4 in
    let low = i.lower * 10 ^ place in
    let high = i.upper * 10 ^ place in
    if i.closed then leb low x && leb x high else ltb low x && ltb x high

-- The choice between a decimal below and the next one, if one is inside.
chosen : Interval → ℕ → ℕ → ℕ
unfolding is_inside
chosen i place n =
    let unit = 10 ^ 308 * one_unit in
    let scaled = n * 10 ^ place in
    let c = scaled / unit in
    let rest = scaled % unit in
    if is_inside i place c && is_inside i place (c + 1)
    then (if ltb unit (2 * rest) || (2 * rest == unit && c % 2 == 1) then c + 1 else c)
    else if is_inside i place c
    then c
    else if is_inside i place (c + 1)
    then c + 1
    else 0

-- The first place at which a decimal is inside, with the decimal; found with fuel.
search_place : ℕ → Interval → ℕ → ℕ → ℕ × ℕ
unfolding chosen
search_place zero i place n = (0, place)
search_place (suc fuel) i place n =
    let rest = search_place fuel i (place + 1) n in
    let c = chosen i place n in if c == 0 then rest else (c, place)

zeros : ℕ → Text
zeros zero = []
zeros (suc n) = b'0' ∷ zeros n

-- c * 10^308 / 10^place, where c does not end with a zero.
print_decimal : ℕ → ℕ → Text
unfolding print_number fixed_digits zeros
print_decimal c place =
    if leb place 308
    then print_number c ++ zeros (308 - place)
    else let k = place - 308 in print_number (c / 10 ^ k) ++ (b'.' ∷ fixed_digits k (c % 10 ^ k))

unfoldable pub print_magnitude : ℕ → Text
unfolding search_place interval_of print_decimal
print_magnitude n =
    let found = search_place 700 (interval_of n) 0 n in
    if n == 0 then b'0' ∷ [] else print_decimal found.0 found.1

unfoldable pub format_float : Real → Text
unfolding print_magnitude
format_float (finite a) =
    if ltb_ℤ a (pos 0) then b'-' ∷ print_magnitude (neg_part a) else print_magnitude (pos_part a)
format_float (infinite true) = codes "-Inf"
format_float (infinite false) = codes "+Inf"
format_float nan = codes "NaN"

unit_test : format_float (value_of 0x411E848000000000) ≡ codes "500000"
unfolding format_float value_of
unit_test = refl

tenth_test : format_float (value_of 0x3FB999999999999A) ≡ codes "0.1"
unfolding format_float value_of
tenth_test = refl
