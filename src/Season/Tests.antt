-- ===== src/Season/Tests.antt =====
-- The queries on the sample table.
use rankedftw.Prelude.Result.{ok}
use rankedftw.Prelude.{refl, false, true, some, ◌≡◌}
use rankedftw.Prelude.Int.{◌+ℤ◌}
use rankedftw.Season.{near_end, near_start, get_prev}
use rankedftw.Season.Sample.{seasons, season_28, season_29}

near_test : (near_start season_28 736298 7 ≡ ok true) × (near_end season_28 736372 7 ≡ ok false)
unfolding near_start near_end
near_test = (refl, refl)

get_prev_test : get_prev seasons season_29 ≡ ok (some season_28)
unfolding get_prev ◌+ℤ◌
get_prev_test = refl
