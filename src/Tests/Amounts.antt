-- ===== src/Tests/Amounts.antt =====
-- Amounts, at concrete numbers.
use lottery.Prelude.{ℕ, true, some, ◌+◌, ◌*◌, ◌^◌, ◌≤◌, ◌<◌, ◌≡◌, arith}
use lottery.Prelude.Int.{negsuc}
use lottery.Quota.Amount.{Rat, exact_decimal, display_usd}
use lottery.Quota.Amount.Cents.{read_shown, display_usd-nearest}
use lottery.Quota.Amount.Decimal.{read_signed, exact_decimal-read}

abbrev minus_two_thirds : Rat
minus_two_thirds = record { num = negsuc 1; den = 3 }

display_usd-nearest_example :
    (c : ℕ) × (read_shown (display_usd minus_two_thirds) ≡ some (true, c))
    × (1 ≤ c)
    × (2 * c * 3 ≤ 200 * 2 + 3)
    × (200 * 2 < 2 * c * 3 + 3)
display_usd-nearest_example = display_usd-nearest minus_two_thirds (omega arith) (omega arith)

exact_decimal-read_example :
    (v : ℕ) × (read_signed (exact_decimal minus_two_thirds) ≡ some (true, v))
    × (2 * v * 3 ≤ 2 * (2 * 10 ^ 12) + 3)
    × (2 * (2 * 10 ^ 12) < 2 * v * 3 + 3)
exact_decimal-read_example = exact_decimal-read minus_two_thirds (omega arith)
