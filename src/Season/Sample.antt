-- ===== src/Season/Sample.antt =====
-- A table of four seasons: two closed, the open one, and the coming one.
use rankedftw.Prelude.Clock.{Day}
use rankedftw.Store.{SeasonName, titled, blank, Season}
use rankedftw.Prelude.{[], ◌∷◌, some, refl, none, Option, ℕ, arith, List}
use rankedftw.Season.Chain.{IsChain, open_season, closed_season}
use rankedftw.Enums.Version

abbrev pub season_of : ℕ → Option Day → Option Day → ℕ → ℕ → SeasonName → Season
season_of i s e y n t = record {
  id = i;
  start_date = s;
  end_date = e;
  year = y;
  number = n;
  name = t;
  version = Version.lotv;
}

abbrev pub season_27 : Season
season_27 = season_of 27 (some 736200) (some 736290) 2016 4 (titled 2016 4)

abbrev pub season_28 : Season
season_28 = season_of 28 (some 736291) (some 736380) 2016 5 (titled 2016 5)

abbrev pub season_29 : Season
season_29 = season_of 29 (some 736381) none 2017 1 (titled 2017 1)

abbrev pub season_30 : Season
season_30 = season_of 30 none none 0 0 blank

abbrev pub seasons : List Season
seasons = season_27 ∷ season_28 ∷ season_29 ∷ season_30 ∷ []

pub seasons-IsChain : IsChain 27 736200 seasons
seasons-IsChain = closed_season 736290 refl refl refl (omega arith) (
    closed_season 736380 refl refl refl (omega arith)
      (open_season refl refl refl (refl, refl, refl)))
