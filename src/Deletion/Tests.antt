-- ===== src/Deletion/Tests.antt =====
-- A ranking with one source, and the ladders of two seasons.
use rankedftw.Prelude.Int.{pos}
use rankedftw.Deletion.Rankings.{delete_ranking-IsLinked}
use rankedftw.Prelude.{some, refl, none, ◌≡◌, ◌∷◌, true, map, [], Option, ℕ}
use rankedftw.Deletion.{delete_ranking, delete_ladders}
use rankedftw.Deletion.Ladders.{delete_ladders-IsOwned, IsOwned}
use rankedftw.Retention.Links.{IsLinked}
use rankedftw.Store.{Cache, Ranking, Ladder, Db, good, ladder_type, complete_with_data}

abbrev source : ℕ → Option ℕ → Option ℕ → Cache
source id ranking ladder = record {
  id = id;
  url = "ladder";
  bid = id;
  type = ladder_type;
  region = pos 0;
  status = 200;
  created = 0;
  updated = 0;
  text = none;
  retry_count = 0;
  ranking_id = ranking;
  ladder_id = ladder;
}

abbrev ladder_of : ℕ → Ladder
ladder_of season_id = record {
  id = season_id;
  region = pos 0;
  bid = season_id;
  strangeness = good;
  created = 0;
  updated = 0;
  mode = pos 11;
  league = pos 0;
  tier = 0;
  version = pos 2;
  season_id = some season_id;
  first_join = none;
  last_join = none;
  max_points = none;
  member_count = none;
}

abbrev ranking_of : ℕ → Ranking
ranking_of id = record {
  id = id;
  created = 0;
  data_time = 0;
  min_data_time = 0;
  max_data_time = 0;
  season_id = 29;
  status = complete_with_data;
}

abbrev db : Db
db = record {
  seasons = [];
  ladders = ladder_of 28 ∷ ladder_of 29 ∷ [];
  caches =
      source 1 (some 5) none
      ∷ source 2 none (some 28)
      ∷ source 3 none (some 29)
      ∷ source 4 (some 6) none
      ∷ [];
  rankings = ranking_of 5 ∷ ranking_of 6 ∷ [];
  ranking_data = [];
  ranking_stats = [];
  next_ladder = 30;
  next_cache = 5;
  next_ranking = 7;
}

db-IsLinked : IsLinked db
db-IsLinked = record {
  caches_linked = (refl, (refl, (refl, (refl, tt))));
  data_linked = tt;
  stats_linked = tt;
}

caches_left : map (λ (c : Cache). c.id) (delete_ranking true 5 db).1.caches ≡ 2 ∷ 3 ∷ 4 ∷ []
unfolding delete_ranking
caches_left = refl

delete_ranking-IsLinked_example : IsLinked (delete_ranking true 5 db).1
delete_ranking-IsLinked_example = delete_ranking-IsLinked true 5 db db-IsLinked

ladders_left : map (λ (l : Ladder). l.id) (delete_ladders true (29 ∷ []) db).1.ladders ≡ 29 ∷ []
unfolding delete_ladders
ladders_left = refl

delete_ladders-IsOwned_example :
    IsOwned (delete_ladders true (29 ∷ []) db).1.ladders (delete_ladders true (29 ∷ []) db).1.caches
delete_ladders-IsOwned_example =
    delete_ladders-IsOwned true (29 ∷ []) db (refl, (refl, (refl, (refl, tt))))
