-- ===== src/Scripts/Tests.antt =====
-- Runs of the check for stale data on three rankings, and of the repair of a ranking.
use rankedftw.Scripts.Any.{AnyRow}
use rankedftw.Scripts.Linked.{IsSourceOf}
use rankedftw.Scripts.Sourced.{run_repair-AnyRow}
use rankedftw.Refetch.{Cpp, set_data_time}
use rankedftw.Scripts.Repair.{
  choose_caches, is_last_of, RepairRun, run_repair, repair_ranking, distinct, repair_cache,
  repair_caches, repair_chosen, save_repaired,
}
use rankedftw.Scripts.Spared.{id_of_cache, repair_ranking-find}
use rankedftw.Store.Keys.{find}
use rankedftw.Store.Rows.{save_row}
use rankedftw.Enums.{key_get, id_by_keys}
use rankedftw.Enums.Region as Region
use rankedftw.Enums.Mode as Mode
use rankedftw.Prelude.Sort.{sort_by}
use rankedftw.Prelude.{
  arith, inl, Option, some, none, map, ℕ, ◌*◌, ◌==◌, [], ◌∷◌, ◌≡◌, refl, List, if◌then◌else◌,
}
use rankedftw.Prelude.Clock.{day}
use rankedftw.Prelude.Result.{ok, err, map_ok, key_error}
use rankedftw.Scripts.{exit_status, regions_argument}
use rankedftw.Scripts.Ages.{check_ages-verdict, ages_of, differs_at, verdict}
use rankedftw.Scripts.Stale.{Counts, scan, worst, check_ages}
use rankedftw.Store.{Ranking, Cache, Db}
use rankedftw.Store.Sample.{sample_ranking, sample_db, cache_of}

abbrev ranking_of : ℕ → ℕ → Ranking
ranking_of id days = record sample_ranking { id = id; data_time = days * day }

-- The counts of three rankings, of which 9 is the last.
abbrev played_in : ℕ → Counts
played_in id =
    (Region.eu, if id == 7 then 20 else 50) ∷ (Region.am, if id == 9 then 40 else 30) ∷ []

abbrev older_rankings : List Ranking
older_rankings = ranking_of 8 18 ∷ ranking_of 7 14 ∷ []

check_ages_test :
    check_ages played_in (Region.eu ∷ Region.am ∷ []) (ranking_of 9 20 ∷ older_rankings) ≡ ok 2
unfolding scan worst
check_ages_test = refl

-- A region of which the count has always been the same.
same_count_test :
    check_ages played_in (Region.eu ∷ []) (ranking_of 9 20 ∷ ranking_of 8 18 ∷ []) ≡ err key_error
unfolding scan worst
same_count_test = refl

regions_test : regions_argument ("kr" ∷ "eu" ∷ []) ≡ ok (Region.eu ∷ Region.kr ∷ [])
unfolding regions_argument key_get id_by_keys sort_by
regions_test = refl

exit_status_test : exit_status (err key_error) ≡ 1
exit_status_test = refl

check_ages-verdict_example :
    check_ages played_in (Region.eu ∷ Region.am ∷ []) (ranking_of 9 20 ∷ older_rankings)
    ≡ map_ok verdict (
        ages_of
          (λ g. differs_at played_in (played_in 9) g older_rankings)
          (20 * day)
          (Region.eu ∷ Region.am ∷ []))
check_ages-verdict_example =
    check_ages-verdict played_in (Region.eu ∷ Region.am ∷ []) (ranking_of 9 20) older_rankings

abbrev cpp : Cpp
cpp = record {
  load = λ id. ok tt;
  update_with_ladder = λ call. ok tt;
  min_max_data_time = (1000000000, 1500000000);
  save_data = λ id season. ok tt;
  save_stats = λ id. ok tt;
}

abbrev repair_run : RepairRun
repair_run = record { cpp = cpp; members = λ cache size. ok []; check_stop = λ n. ok tt }

-- The cache of a good ladder, a source of another ranking, and one of the ranking itself.
abbrev db : Db
db = record sample_db {
  caches =
      cache_of 1 1 none
      ∷ cache_of 2 2 (some 4)
      ∷ record (cache_of 3 1 (some 5)) { ladder_id = none }
      ∷ [];
  next_cache = 7;
}

-- The ranking gets a copy of the newest cache of the ladder, and lets go of its own.
repaired_test :
    map {B = ℕ × Option ℕ}
      (λ (c : Cache). (c.id, c.ranking_id))
      (repair_ranking repair_run 5 db).1.caches
    ≡ (1, none) ∷ (2, some 4) ∷ (3, none) ∷ (7, some 5) ∷ []
unfolding repair_ranking run_repair repair_chosen repair_caches repair_cache save_repaired distinct
    sort_by Mode.team_size set_data_time save_row
repaired_test = refl

repair_ranking-find_example :
    find id_of_cache 2 (repair_ranking repair_run 5 db).1.caches ≡ some (cache_of 2 2 (some 4))
repair_ranking-find_example =
    repair_ranking-find repair_run 5 2 (cache_of 2 2 (some 4)) db (λ e. grind (arith, e))
      (inl (λ e. absurd cc)) refl

one_chosen : (choose_caches sample_ranking (is_last_of sample_ranking db) db).0 ≡ ok (1 ∷ [])
unfolding distinct sort_by
one_chosen = refl

repair_returns : (run_repair repair_run sample_ranking db).0 ≡ ok tt
unfolding run_repair repair_chosen repair_caches repair_cache save_repaired distinct sort_by
    Mode.team_size set_data_time save_row
repair_returns = refl

run_repair-AnyRow_example :
    AnyRow (IsSourceOf 5 (cache_of 1 1 none)) (run_repair repair_run sample_ranking db).1.caches
run_repair-AnyRow_example =
    run_repair-AnyRow repair_run sample_ranking (cache_of 1 1 none) (1 ∷ []) db refl one_chosen
      (inl refl) repair_returns
