-- ===== src/Quota/Policy.antt =====
-- The conversion policies of internal/quota/policy.go, and USDMoney of internal/service/quota.go.
use lottery.Prelude.{
  ◌+◌, ◌*◌, ◌^◌, ◌≡◌, refl, Bool, true, false, ◌&&◌, Option, none, some, List, [], ◌∷◌, ◌++◌, ◌==◌,
  if◌then◌else◌, length,
}
use lottery.Prelude.Text.{Text, codes, is_empty, trim_space}
use lottery.Prelude.Int.{ℤ, pos, pos_part, neg_part, ◌-ℤ◌, ltb_ℤ}
use lottery.Prelude.Float.{Real, with_sign}
use lottery.Prelude.Numeral.{all_digits, digits_value, split, negate}
use lottery.Prelude.Time.{Time, is_zero, zero_time}
use lottery.Prelude.Result.{Result, ok, err, ◌>>=◌, ◌>>◌, reject_if, or_fail, blank, not_positive}
use lottery.Quota.Money.{Money, state_confirmed, state_unverified, state_unavailable}
use lottery.Quota.Amount.{Rat, magnitude, exact_decimal, display_usd, parse_usd_float}

pub record Provenance : Type 0 where
  pub source : Text
  pub observed_at : Time

-- `unit` is positive.
pub record QuotaPerUnitPolicy : Type 0 where
  pub unit : Rat
  pub unit_raw : Text

-- Rat.SetString on the parts around a decimal point: one digit at least.
unfoldable pub decimal_of : Text → Text → Option Rat
unfolding digits_value
decimal_of int_part frac_part =
    if is_empty int_part && is_empty frac_part
    then none
    else some
        (record { num = pos (digits_value 0 (int_part ++ frac_part)); den = 10 ^ length frac_part })

unfoldable pub parse_parts : List Text → Option Rat
unfolding decimal_of all_digits
parse_parts [] = none
parse_parts (a ∷ []) = if all_digits a then decimal_of a [] else none
parse_parts (a ∷ b ∷ []) = if all_digits a && all_digits b then decimal_of a b else none
parse_parts (a ∷ b ∷ c ∷ parts) = none

-- parsePlainDecimal
unfoldable pub parse_plain_decimal : Text → Option Rat
unfolding parse_parts split
parse_plain_decimal raw = if is_empty raw then none else parse_parts (split b'.' raw)

-- NewQuotaPerUnitPolicy
unfoldable pub new_quota_per_unit_policy : Text → Result QuotaPerUnitPolicy
unfolding parse_plain_decimal
new_quota_per_unit_policy quota_per_unit =
    let raw = trim_space quota_per_unit in
    do
      reject_if (is_empty raw) blank
      unit ← or_fail (parse_plain_decimal raw) not_positive
      reject_if (magnitude unit == 0) not_positive
      ok (record { unit = unit; unit_raw = raw })

-- QuotaPerUnitPolicy.Formula
unfoldable pub formula_of : QuotaPerUnitPolicy → Text
formula_of p = codes "quota-per-unit-v1: usd = native / " ++ p.unit_raw

abbrev pub already_usd_formula : Text
already_usd_formula = codes "already-usd-v1: usd = upstream usd value"

-- observedAt
unfoldable pub observed_at : Time → Provenance → Time
observed_at now provenance = if is_zero provenance.observed_at then now else provenance.observed_at

unfoldable pub confirmed : Time → Text → Rat → Provenance → Money
unfolding exact_decimal display_usd observed_at
confirmed now formula usd provenance = record {
  currency = codes "USD";
  value = exact_decimal usd;
  display = display_usd usd;
  state = state_confirmed;
  source = provenance.source;
  formula = formula;
  observed_at = observed_at now provenance;
}

-- The quotient of a native amount by the unit.
unfoldable pub converted : QuotaPerUnitPolicy → ℤ → Rat
unfolding with_sign negate
converted p amount = record {
  num = with_sign (ltb_ℤ amount (pos 0)) ((pos_part amount + neg_part amount) * p.unit.den);
  den = magnitude p.unit;
}

-- QuotaPerUnitPolicy.Convert; `now` is the clock.
unfoldable pub convert : Time → QuotaPerUnitPolicy → ℤ → Provenance → Money
unfolding confirmed formula_of converted
convert now p amount provenance = confirmed now (formula_of p) (converted p amount) provenance

-- QuotaPerUnitPolicy.Remainder
unfoldable pub remainder : ℤ → ℤ → ℤ × Bool
unfolding ◌-ℤ◌
remainder total used =
    let diff = total -ℤ used in if ltb_ℤ diff (pos 0) then (pos 0, true) else (diff, false)

-- AlreadyUSDPolicy.Convert
unfoldable pub convert_usd : Time → Rat → Provenance → Money
unfolding confirmed
convert_usd now amount provenance = confirmed now already_usd_formula amount provenance

-- UnverifiedUSD of a finite number
unfoldable pub unverified_usd : Text → Rat → Time → Money
unfolding exact_decimal
unverified_usd source value seen = record {
  currency = codes "USD";
  value = exact_decimal value;
  display = [];
  state = state_unverified;
  source = source;
  formula = [];
  observed_at = seen;
}

-- UnavailableUSD
unfoldable pub unavailable_usd : Text → Time → Money
unavailable_usd source seen = record {
  currency = codes "USD";
  value = [];
  display = [];
  state = state_unavailable;
  source = source;
  formula = [];
  observed_at = seen;
}

-- USDMoney of internal/service/quota.go
unfoldable pub usd_money : Time → Real → Text → Time → Money
unfolding parse_usd_float convert_usd unavailable_usd
usd_money now raw source seen = elim (parse_usd_float raw) [
  | err why ↦ unavailable_usd source seen
  | ok amount ↦ convert_usd now amount (record { source = source; observed_at = seen })
]

-- 1234 units of 1000 to the dollar.
convert_test :
    elim (new_quota_per_unit_policy (codes " 1000.0 ")) [
      | err why ↦ []
      | ok p ↦ (convert 5 p (pos 1235) (record { source = []; observed_at = zero_time })).display
    ]
    ≡ codes "$1.24"
unfolding new_quota_per_unit_policy convert trim_space
convert_test = refl
