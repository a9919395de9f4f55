-- ===== src/Update/Hours.antt =====
-- When `countinously_update` of main/update.py ends a round.
use rankedftw.Prelude.{arith, ◌%◌, ◌≡◌, ◌+◌, ◌≤◌, ◌<◌, ℕ}
use rankedftw.Prelude.Clock.{hour, day, Time, second}
use rankedftw.Update.Switch.{next_switch, hour_of}

-- For a switch hour below 24, the end of a round is not before the given time and less than a day
-- after it, at that hour and within the first second of it.
next_switch-bounds :
    (now : Time) (switch_hour : ℕ)
    → switch_hour < 24
    → (now ≤ next_switch now switch_hour)
      × (next_switch now switch_hour < now + day)
      × (hour_of (next_switch now switch_hour) ≡ switch_hour)
      × (next_switch now switch_hour % hour < second)
unfolding next_switch
next_switch-bounds now switch_hour h = ground arith
