-- ===== src/Service/Activity.antt =====
-- The activity report of internal/service/activity.go.
use lottery.Prelude.{
  ℕ, ◌+◌, ◌-◌, Bool, false, ◌&&◌, Option, none, some, List, [], ◌∷◌, leb, if◌then◌else◌, length,
  drop,
}
use lottery.Prelude.Text.{Text, codes, is_empty, trim_space}
use lottery.Prelude.Int.{ℤ, pos, wrap_int}
use lottery.Prelude.Dict.{Dict, lookup}
use lottery.Prelude.Time.{Time}
use lottery.Prelude.Sort.{sort_by}
use lottery.Prelude.Float.{
  Real, finite, value_of, add_real, sub_real, less_real, real_of_int, int_of_real,
}
use lottery.Quota.Money.{Money}
use lottery.Quota.Policy.{usd_money}
use lottery.Website.{
  Any, int_value, uint_value, float_value, other_value, Dashboard, effective_draw_limit,
  spend_bonus_draws,
}

-- anyInt, but for json.Number, which no decoded dashboard holds
unfoldable pub any_int : Any → Option ℤ
any_int (int_value n) = some n
any_int (uint_value n) = some (wrap_int (pos n))
any_int (float_value x) = some (int_of_real x)
any_int other_value = none

-- anyFloat, but for json.Number
unfoldable pub any_float : Any → Option Real
any_float (int_value n) = some (real_of_int n)
any_float (uint_value n) = some (real_of_int (pos n))
any_float (float_value x) = some x
any_float other_value = none

abbrev pub or_else {ℓ} : {A : Type ℓ} → Option A → Option A → Option A
or_else (some a) other = some a
or_else none other = other

abbrev pub bind {ℓ κ} : {A : Type ℓ} {B : Type κ} → Option A → (A → Option B) → Option B
bind none f = none
bind (some a) f = f a

abbrev pub default {ℓ} : {A : Type ℓ} → Option A → A → A
default (some a) fallback = a
default none fallback = fallback

-- The value under the first of the keys that holds a number.
unfoldable pub first_number {ℓ} : {A : Type ℓ} → (Any → Option A) → Dict Any → List Text → Option A
unfolding lookup
first_number read values [] = none
first_number read values (key ∷ keys) =
    or_else (bind (lookup key values) read) (first_number read values keys)

-- firstMapInt
unfoldable pub first_map_int : Dict Any → List Text → ℤ
unfolding first_number any_int
first_map_int values keys = default (first_number any_int values keys) (pos 0)

-- firstMapFloat
unfoldable pub first_map_float : Dict Any → List Text → Option Real
unfolding first_number any_float
first_map_float values keys = first_number any_float values keys

pub record SpendTier : Type 0 where
  pub threshold_usd : Real
  pub draws : ℤ

unfoldable pub tiers_of : List (Dict Any) → List SpendTier
unfolding first_map_float first_map_int
tiers_of [] = []
tiers_of (item ∷ source) = elim (first_map_float item (codes "threshold" ∷ codes "amount" ∷ [])) [
  | none ↦ tiers_of source
  | some threshold ↦
      record {
        threshold_usd = threshold;
        draws = first_map_int item (codes "bonusDraws" ∷ codes "draws" ∷ []);
      }
      ∷ tiers_of source
]

-- parseSpendTiers; sort.Slice leaves the order of equal thresholds open.
unfoldable pub parse_spend_tiers : List (Dict Any) → List SpendTier
unfolding tiers_of
parse_spend_tiers source =
    sort_by (λ p q. less_real p.threshold_usd q.threshold_usd) (tiers_of source)

pub record ActivityReport : Type 0 where
  pub account_id : Text
  pub today_spend_usd : Money
  pub spend_tier_reached : ℤ
  pub spend_tier_total : ℤ
  pub next_spend_threshold_usd : Option Money
  pub next_spend_remaining_usd : Option Money
  pub spend_bonus_draws : ℤ
  pub lucky_points : ℤ
  pub lucky_max_points : ℤ
  pub draw_purchase_cost_usd : Option Money
  pub purchased_today : ℤ
  pub purchase_pending : ℤ
  pub purchase_unknown : ℤ
  pub pass_unlock_cost_usd : Option Money
  pub pass_unlocked : Bool
  pub day_key : Text
  pub queried_at : Time

-- The float64 literal 1e-9.
abbrev nano : Real
nano = value_of 0x3E112E0BE826D695

-- The tier that is not yet reached.
unfoldable pub is_ahead : Real → SpendTier → Bool
is_ahead today_spend tier = less_real (add_real today_spend nano) tier.threshold_usd

-- The loop over the tiers: how many are reached, and the next one.
unfoldable pub tiers_reached : Real → List SpendTier → ℕ × Option SpendTier
unfolding is_ahead
tiers_reached today_spend [] = (0, none)
tiers_reached today_spend (tier ∷ tiers) =
    let rest = tiers_reached today_spend tiers in
    if is_ahead today_spend tier then (0, some tier) else (rest.0 + 1, rest.1)

abbrev first_draws : List SpendTier → ℤ
first_draws [] = pos 0
first_draws (tier ∷ tiers) = tier.draws

-- The draws of the last tier that is reached.
unfoldable pub tier_draws : ℕ → List SpendTier → ℤ
tier_draws reached tiers =
    if leb 1 reached && leb reached (length tiers)
    then first_draws (drop (reached - 1) tiers)
    else pos 0

abbrev pub map_option {ℓ κ} : {A : Type ℓ} {B : Type κ} → (A → B) → Option A → Option B
map_option f none = none
map_option f (some a) = some (f a)

-- buildActivityReport; `now` is the clock.
unfoldable pub build_activity_report : Time → Text → Dashboard → Time → Text → ActivityReport
unfolding parse_spend_tiers tiers_reached tier_draws first_map_int first_map_float
build_activity_report now account_id dashboard queried_at today =
    let today_spend =
      default (map_option value_of dashboard.eligibility.today_spend) (finite (pos 0)) in
    let tiers = parse_spend_tiers dashboard.spend_tiers in
    let reached = tiers_reached today_spend tiers in
    let limit = effective_draw_limit dashboard in
    let usd = λ (raw : Real) (source : Text). usd_money now raw source queried_at in
    record {
      account_id = account_id;
      today_spend_usd = usd today_spend (codes "dashboard.eligibility.today_spend");
      spend_tier_reached = pos reached.0;
      spend_tier_total = pos (length tiers);
      next_spend_threshold_usd =
          map_option (λ tier. usd tier.threshold_usd (codes "dashboard.spend_tiers.threshold"))
            reached.1;
      next_spend_remaining_usd =
          map_option
            (λ tier.
              usd (sub_real tier.threshold_usd today_spend)
                (codes "dashboard.spend_tiers.remaining"))
            reached.1;
      spend_bonus_draws = default (spend_bonus_draws dashboard) (tier_draws reached.0 tiers);
      lucky_points = first_map_int dashboard.lucky (codes "points" ∷ codes "currentPoints" ∷ []);
      lucky_max_points = first_map_int dashboard.lucky (codes "maxPoints" ∷ codes "max" ∷ []);
      draw_purchase_cost_usd =
          map_option (λ cost. usd cost (codes "dashboard.purchase.cost"))
            (first_map_float dashboard.purchase
              (codes "cost" ∷ codes "unitCost" ∷ codes "price" ∷ []));
      purchased_today =
          first_map_int dashboard.purchase (codes "purchasedToday" ∷ codes "todayPurchased" ∷ []);
      purchase_pending = first_map_int dashboard.purchase (codes "pendingCount" ∷ []);
      purchase_unknown = first_map_int dashboard.purchase (codes "unknownCount" ∷ []);
      pass_unlock_cost_usd =
          map_option (λ cost. usd (real_of_int cost) (codes "dashboard.draw_limit.unlock_cost"))
            limit.unlock_cost;
      pass_unlocked = default limit.unlocked false;
      day_key =
          if is_empty (trim_space limit.day_key)
          then trim_space today
          else trim_space limit.day_key;
      queried_at = queried_at;
    }
