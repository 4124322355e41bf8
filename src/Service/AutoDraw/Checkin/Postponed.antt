-- ===== src/Service/AutoDraw/Checkin/Postponed.antt =====
-- The test of postponeCheckinPlan against the time of the day.
use lottery.Prelude.{◌*◌, ◌≡◌, ◌&&◌, ◌||◌, arith, ltb, leb}
use lottery.Prelude.Time.{Time}
use lottery.Service.AutoDraw.Checkin.{hour, time_of_day, day_number, truncate_day, gives_up}

-- A check-in is given up for the day in the last hour before midnight in Shanghai, and also from
-- seven to eight in the morning, when midnight is far away: the test truncates to a day of UTC. At
-- all other times it is postponed.
pub gives_up_lem :
    (now : Time)
    → gives_up now ≡ (
        leb (23 * hour) (time_of_day now)
        || (leb (7 * hour) (time_of_day now) && ltb (time_of_day now) (8 * hour)))
unfolding gives_up time_of_day day_number truncate_day
gives_up_lem now = ground arith
