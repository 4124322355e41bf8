-- ===== src/Quota/Money.antt =====
-- internal/quota/money.go: the amount that crosses the interfaces.
use lottery.Prelude.Text.{Text, codes}
use lottery.Prelude.Time.{Time}

abbrev pub state_confirmed : Text
state_confirmed = codes "confirmed"

abbrev pub state_unverified : Text
state_unverified = codes "unverified"

abbrev pub state_unavailable : Text
state_unavailable = codes "unavailable"

pub record Money : Type 0 where
  pub currency : Text
  pub value : Text
  pub display : Text
  pub state : Text
  pub source : Text
  pub formula : Text
  pub observed_at : Time
