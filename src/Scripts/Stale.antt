-- ===== src/Scripts/Stale.antt =====
-- tasks/check-api-data-stale.py: for how long the number of games in each region has not changed. What
-- the C++ module counts for a ranking is an argument, as are the time and the season of a ranking.
use rankedftw.Prelude.{
  ℕ, ◌-◌, ◌/◌, ◌==◌, leb, not, Bool, true, false, Option, none, some, List, [], ◌∷◌, if◌then◌else◌,
}
use rankedftw.Prelude.Clock.{Time, day, date}
use rankedftw.Prelude.Int.{ℤ, pos, negsuc, ◌==ℤ◌, ltb_ℤ}
use rankedftw.Prelude.Objects.{filter, get}
use rankedftw.Prelude.Result.{Result, ok, err, or_raise, key_error, index_error, ◌>>=◌}
use rankedftw.Prelude.Sort.{sort_by}
use rankedftw.Season.{near_start}
use rankedftw.Store.{Db, Ranking, Season}
use rankedftw.Store.Rows.{later_first}
use Prim.Native.Nat.{max}

-- The statuses.
abbrev pub fine : ℕ
fine = 0

abbrev pub warning : ℕ
warning = 1

abbrev pub critical : ℕ
critical = 2

-- `games_played`: the count for each region that has one.
abbrev pub Counts : Type 0
Counts = List (ℤ × ℕ)

-- Lookups in a dict, of which the first pair of a key is the last that was set.
abbrev pub look {ℓ} : {V : Type ℓ} → ℤ → List (ℤ × V) → Option V
look k [] = none
look k ((j, v) ∷ d) = if j ==ℤ k then some v else look k d

abbrev pub or_zero : Option ℕ → ℕ
or_zero none = 0
or_zero (some n) = n

-- `latest_count_by_region[region] != counts.get(region)`.
abbrev pub is_other : ℕ → Option ℕ → Bool
is_other latest none = true
is_other latest (some n) = not (latest == n)

abbrev pub differs : Counts → Counts → ℤ → Bool
differs latest counts region = is_other (or_zero (look region latest)) (look region counts)

-- `diff_time_by_region[region] = ranking.data_time` for the regions that differ.
abbrev pub set_times : (ℤ → Bool) → Time → List ℤ → List (ℤ × Time) → List (ℤ × Time)
set_times p time [] times = times
set_times p time (g ∷ gs) times = set_times p time gs (if p g then (g, time) ∷ times else times)

abbrev pub are_none_left : List ℤ → Bool
are_none_left [] = true
are_none_left (g ∷ gs) = false

module _ (games_played : ℕ → Counts) (latest : Counts) where
  -- The loop over the rankings after the first, with the regions that have not differed yet.
  unfoldable pub scan : List Ranking → List ℤ → List (ℤ × Time) → List (ℤ × Time)
  scan [] regions times = times
  scan (r ∷ rs) regions times =
      let p = differs latest (games_played r.id) in
      let left = filter (λ g. not (p g)) regions in
      let now = set_times p r.data_time regions times in
      let rest = scan rs left now in if are_none_left left then now else rest

-- `set(args.regions)`.
abbrev pub is_region : ℤ → List ℤ → Bool
is_region g [] = false
is_region g (h ∷ hs) = if h ==ℤ g then true else is_region g hs

abbrev pub as_set : List ℤ → List ℤ
as_set [] = []
as_set (g ∷ gs) = let rest = as_set gs in if is_region g rest then rest else g ∷ rest

-- `(a - b).days`.
abbrev pub days_of : Time → Time → ℤ
days_of a b = if leb b a then pos ((a - b) / day) else negsuc ((b - a - 1) / day)

abbrev pub level : ℤ → ℕ
level age = if ltb_ℤ (pos 4) age then critical else if ltb_ℤ (pos 1) age then warning else fine

-- The last loop, with the status so far.
unfoldable pub worst : Time → List (ℤ × Time) → List ℤ → ℕ → Result ℕ
worst time times [] status = ok status
worst time times (g ∷ gs) status = do
  diff ← or_raise (look g times) key_error
  worst time times gs (max status (level (days_of time diff)))

-- With no regions the loop over the rankings ends at the first one.
abbrev pub times_of : (ℕ → Counts) → List ℤ → Ranking → List Ranking → List (ℤ × Time)
times_of games_played regions r rs = scan games_played (games_played r.id) rs (as_set regions) []

abbrev pub check_ages : (ℕ → Counts) → List ℤ → List Ranking → Result ℕ
check_ages games_played regions [] = err index_error
check_ages games_played regions (r ∷ rs) =
    worst r.data_time (times_of games_played regions r rs) regions fine

-- `run`: near the start of the season nothing is checked.
abbrev pub unless_near : Bool → Result ℕ → Result ℕ
unless_near true rest = ok fine
unless_near false rest = rest

abbrev pub check_first : (ℕ → Counts) → List ℤ → Time → List Season → List Ranking → Result ℕ
check_first games_played regions now seasons [] = err index_error
check_first games_played regions now seasons (r ∷ rs) = do
  season ← get (λ (s : Season). s.id == r.season_id) seasons
  near ← near_start season (date now) 5
  unless_near near (check_ages games_played regions (r ∷ rs))

unfoldable pub check_stale : (ℕ → Counts) → List ℤ → Time → Db → Result ℕ
check_stale games_played regions now db =
    check_first games_played regions now db.seasons (sort_by later_first db.rankings)
