-- ===== src/Service/Quota.antt =====
-- The conversions of internal/service/quota.go with the settings of the website.
use lottery.Prelude.{◌≡◌, refl, Bool, not, Option, none, some, if◌then◌else◌, []}
use lottery.Prelude.Text.{Text, codes}
use lottery.Prelude.Int.{pos}
use lottery.Prelude.Time.{Time}
use lottery.Prelude.Float.{Real, finite, less_real, value_of}
use lottery.Prelude.Float.Shortest.{format_float}
use lottery.Prelude.Result.{ok, err}
use lottery.Quota.Money.{Money, state_unavailable}
use lottery.Quota.Amount.{parse_native_float}
use lottery.Quota.Policy.{QuotaPerUnitPolicy, new_quota_per_unit_policy, convert, unavailable_usd}
use lottery.Website.{StatusSettings}

-- settings.QuotaPerUnit > 0, which fails for a number that is none.
abbrev pub is_positive : Real → Bool
is_positive x = less_real (finite (pos 0)) x

-- QuotaPolicy
unfoldable pub quota_policy : StatusSettings → Option QuotaPerUnitPolicy
quota_policy settings =
    if is_positive settings.quota_per_unit
    then (elim (new_quota_per_unit_policy (format_float settings.quota_per_unit)) [
      | err why ↦ none
      | ok policy ↦ some policy
    ])
    else none

-- QuotaMoney; `now` is the clock.
unfoldable pub quota_money : Time → Real → StatusSettings → Text → Time → Money
unfolding quota_policy
quota_money now native settings source seen = elim (quota_policy settings) [
  | none ↦ unavailable_usd source seen
  | some policy ↦ elim (parse_native_float native) [
    | err why ↦ unavailable_usd source seen
    | ok amount ↦ convert now policy amount (record { source = source; observed_at = seen })
  ]
]

-- 250000 at 500000 to the dollar.
quota_money_test :
    (quota_money 5
      (value_of 0x410E848000000000)
      (record { quota_per_unit = value_of 0x411E848000000000 })
      []
      5).display
    ≡ codes "$0.50"
unfolding quota_money less_real format_float value_of new_quota_per_unit_policy convert
    parse_native_float lottery.Prelude.Text.trim_space
quota_money_test = refl

-- Without a setting no amount is shown.
no_setting_test :
    (quota_money 5
      (value_of 0x410E848000000000)
      (record { quota_per_unit = finite (pos 0) })
      []
      5).state
    ≡ state_unavailable
unfolding quota_money less_real unavailable_usd
no_setting_test = refl
