-- ===== src/Prelude/Time.antt =====
-- time.Time as an instant, counted from Go's zero time. Locations are dropped: UTC() and In() keep
-- the instant, and so are the identity here.
use Prim.Native.Nat.{ℕ}
use mathlib.Core.Bool.{Bool}
use lottery.Prelude.Tests.{ltb, ◌==◌}

abbrev pub Time : Type 0
Time = ℕ

abbrev pub zero_time : Time
zero_time = 0

abbrev pub is_zero : Time → Bool
is_zero t = t == 0

-- t.Before(u), and u.After(t).
abbrev pub before : Time → Time → Bool
before t u = ltb t u
