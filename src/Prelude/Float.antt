-- ===== src/Prelude/Float.antt =====
-- float64 by its value: the finite ones are the whole multiples of 2^-1074. The sign of zero is
-- dropped.
pub mod Shortest
use lottery.Prelude.{
  ℕ, zero, suc, ◌+◌, ◌-◌, ◌*◌, ◌/◌, ◌%◌, ◌^◌, ◌≡◌, refl, Bool, true, false, ◌&&◌, ◌||◌, not, ltb,
  ◌==◌, if◌then◌else◌,
}
use lottery.Prelude.Int.{ℤ, pos, negsuc, pos_part, neg_part, ◌+ℤ◌, ltb_ℤ}
use lottery.Prelude.Numeral.{negate}

pub data Real : Type 0 where
  finite : ℤ → Real
  -- true: below all numbers
  infinite : Bool → Real
  nan : Real

-- 1.0 in units of 2^-1074.
abbrev pub one_unit : ℕ
one_unit = 2 ^ 1074

unfoldable pub with_sign : Bool → ℕ → ℤ
with_sign true n = negate n
with_sign false n = pos n

-- The number with these 64 bits.
unfoldable pub value_of : ℕ → Real
unfolding with_sign negate
value_of bits =
    let negative = bits / 2 ^ 63 % 2 == 1 in
    let exponent = bits / 2 ^ 52 % 2048 in
    let fraction = bits % 2 ^ 52 in
    if exponent == 2047
    then (if fraction == 0 then infinite negative else nan)
    else if exponent == 0
    then finite (with_sign negative fraction)
    else finite (with_sign negative ((2 ^ 52 + fraction) * 2 ^ (exponent - 1)))

-- The bits beyond the first 53, found with fuel.
unfoldable pub excess : ℕ → ℕ → ℕ
excess zero n = 0
excess (suc fuel) n = let rest = excess fuel (n / 2) in if ltb n (2 ^ 53) then 0 else suc rest

-- The nearest multiple of `unit`, the even one of two.
unfoldable pub nearest : ℕ → ℕ → ℕ
nearest n unit =
    let q = n / unit in
    let r = n % unit in
    if ltb unit (2 * r) || (2 * r == unit && q % 2 == 1) then (q + 1) * unit else q * unit

-- The float64 nearest to a number. Sums and products of the modelled code stay below 2^4096 units.
unfoldable pub round_to_even : ℤ → Real
unfolding excess nearest
round_to_even x =
    let n = pos_part x + neg_part x in
    let rounded = nearest n (2 ^ excess 4096 n) in
    let negative = ltb_ℤ x (pos 0) in
    if ltb rounded (2 ^ 2098) then finite (with_sign negative rounded) else infinite negative

unfoldable pub add_real : Real → Real → Real
unfolding round_to_even ◌+ℤ◌
add_real (finite a) (finite b) = round_to_even (a +ℤ b)
add_real (finite a) (infinite s) = infinite s
add_real (finite a) nan = nan
add_real (infinite s) (finite b) = infinite s
add_real (infinite true) (infinite true) = infinite true
add_real (infinite true) (infinite false) = nan
add_real (infinite false) (infinite true) = nan
add_real (infinite false) (infinite false) = infinite false
add_real (infinite s) nan = nan
add_real nan y = nan

unfoldable pub negate_real : Real → Real
unfolding with_sign negate
negate_real (finite a) = finite (with_sign (not (ltb_ℤ a (pos 0))) (pos_part a + neg_part a))
negate_real (infinite s) = infinite (not s)
negate_real nan = nan

unfoldable pub sub_real : Real → Real → Real
unfolding add_real negate_real
sub_real x y = add_real x (negate_real y)

unfoldable pub less_real : Real → Real → Bool
less_real (finite a) (finite b) = ltb_ℤ a b
less_real (finite a) (infinite below) = not below
less_real (finite a) nan = false
less_real (infinite below) (finite b) = below
less_real (infinite below) (infinite other) = below && not other
less_real (infinite below) nan = false
less_real nan y = false

-- float64 of an int.
unfoldable pub real_of_int : ℤ → Real
unfolding round_to_even with_sign negate
real_of_int n = round_to_even (with_sign (ltb_ℤ n (pos 0)) ((pos_part n + neg_part n) * one_unit))

-- The whole part of a magnitude.
unfoldable pub whole : ℕ → ℕ
whole n = n / one_unit

-- int of a float64, towards zero; a number out of range gives the least int, as on amd64.
unfoldable pub int_of_real : Real → ℤ
unfolding with_sign negate whole
int_of_real (finite a) =
    let n = whole (pos_part a + neg_part a) in
    if ltb n 0x8000000000000000 then with_sign (ltb_ℤ a (pos 0)) n else negsuc 0x7FFFFFFFFFFFFFFF
int_of_real (infinite s) = negsuc 0x7FFFFFFFFFFFFFFF
int_of_real nan = negsuc 0x7FFFFFFFFFFFFFFF

-- 2.5 and -3.
value_test : int_of_real (value_of 0x4004000000000000) ≡ pos 2
unfolding int_of_real value_of
value_test = refl

sum_test :
    add_real (value_of 0x4004000000000000) (value_of 0xC008000000000000)
    ≡ value_of 0xBFE0000000000000
unfolding add_real value_of
sum_test = refl

-- 0.1 + 0.2 is not the float 0.3.
rounded_test :
    add_real (value_of 0x3FB999999999999A) (value_of 0x3FC999999999999A)
    ≡ value_of 0x3FD3333333333334
unfolding add_real value_of
rounded_test = refl
