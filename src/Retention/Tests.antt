-- ===== src/Retention/Tests.antt =====
-- Runs of the deletion on a table of three complete rankings of one season and a new one.
use rankedftw.Retention.Gaps.{delete_old_rankings-Neighbour, Neighbour}
use rankedftw.Prelude.Clock.{day, combine_min}
use rankedftw.Prelude.Sort.{sort_by}
use rankedftw.Retention.Purge.{among_last, delete_old_rankings-keeps, find}
use rankedftw.Retention.{year_2000, delete_old_rankings}
use rankedftw.Prelude.{◌⊎◌, arith, ◌*◌, ◌+◌, refl, ◌≡◌, ◌∷◌, ◌<◌, none, true, map, [], ℕ, List}
use rankedftw.Retention.Links.{delete_old_rankings-IsLinked, IsLinked}
use rankedftw.Retention.Order.{HasKeys}
use rankedftw.Store.{created_status, complete_with_data, RankingStatus, Ranking, Attached, Db}

abbrev ranking : ℕ → ℕ → RankingStatus → Ranking
ranking id days status = record {
  id = id;
  created = combine_min (735700 + days);
  data_time = combine_min (735700 + days);
  min_data_time = combine_min (735700 + days);
  max_data_time = combine_min (735700 + days);
  season_id = 20;
  status = status;
}

abbrev rankings : List Ranking
rankings =
    ranking 1 0 complete_with_data
    ∷ ranking 2 3 complete_with_data
    ∷ ranking 3 6 complete_with_data
    ∷ ranking 4 7 created_status
    ∷ []

abbrev data_of : ℕ → Attached
data_of id = record { id = id; ranking_id = id; content = none }

abbrev db : Db
db = record {
  seasons = [];
  ladders = [];
  caches = [];
  rankings = rankings;
  ranking_data = data_of 1 ∷ data_of 2 ∷ data_of 3 ∷ [];
  ranking_stats = data_of 2 ∷ [];
  next_ladder = 1;
  next_cache = 1;
  next_ranking = 5;
}

db-HasKeys : HasKeys db.rankings
db-HasKeys = ((cc, (cc, (cc, tt))), ((cc, (cc, tt)), ((cc, tt), (tt, tt))))

db-IsLinked : IsLinked db
db-IsLinked = record {
  caches_linked = tt;
  data_linked = (refl, (refl, (refl, tt)));
  stats_linked = (refl, tt);
}

ids_left : map (λ (r : Ranking). r.id) (delete_old_rankings true 1 db).1.rankings ≡ 1 ∷ 3 ∷ 4 ∷ []
unfolding delete_old_rankings
ids_left = refl

delete_old_rankings-keeps_example :
    find 3 (delete_old_rankings true 1 db).1.rankings ≡ find 3 db.rankings
unfolding sort_by
delete_old_rankings-keeps_example =
    delete_old_rankings-keeps 1 db db-HasKeys 0 (ranking 3 6 complete_with_data) refl
      (among_last (omega arith))

delete_old_rankings-Neighbour_example :
    ((ranking 2 3 complete_with_data).data_time < year_2000 + 28 * day)
    ⊎ Neighbour (delete_old_rankings true 1 db).1.rankings (ranking 2 3 complete_with_data)
unfolding delete_old_rankings
delete_old_rankings-Neighbour_example =
    delete_old_rankings-Neighbour 1 db db-HasKeys (ranking 2 3 complete_with_data) refl refl

delete_old_rankings-IsLinked_example : IsLinked (delete_old_rankings true 1 db).1
delete_old_rankings-IsLinked_example = delete_old_rankings-IsLinked true 1 db db-IsLinked
