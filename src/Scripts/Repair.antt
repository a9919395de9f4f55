-- ===== src/Scripts/Repair.antt =====
-- tasks/repair_ranking.py: a ranking is built again from its caches, or, if it is the last of its season,
-- from the newest caches of the ladders. Of two caches of one time the query takes the first of the table.
-- The C++ module, what `members_for_ranking` returns or raises, and `check_stop`, by its calls, are arguments.
use rankedftw.Enums.Mode as Mode
use rankedftw.Fetch.Cached.{Member, update_call, of_ranking}
use rankedftw.Fetch.Rows.{is_ladder}
use rankedftw.Prelude.{
  ℕ, ◌+◌, ◌==◌, ◌&&◌, leb, not, Bool, true, false, none, some, List, [], ◌∷◌, ◌++◌, map, length,
  if◌then◌else◌,
}
use rankedftw.Prelude.Int.{◌==ℤ◌}
use rankedftw.Prelude.Objects.{filter, get}
use rankedftw.Prelude.Result.{Result, ok, err, does_not_exist, exception_raised, raise_if}
use rankedftw.Prelude.Sort.{sort_by}
use rankedftw.Refetch.{Cpp, set_data_time}
use rankedftw.Season.{is_none}
use rankedftw.Store.{
  Db, Cache, Ladder, Ranking, Season, RankingStatus, created_status, complete_with_data,
}
use rankedftw.Store.Action.{Action, ◌>>=◌, ◌>>◌, lift, query, modify, pure}
use rankedftw.Store.Rows.{save_cache, save_ranking, later_first}
use rankedftw.Update.Batches.{is_good_strangeness, has_season}
use rankedftw.Update.Copy.{in_sources}

pub record RepairRun : Type 0 where
  pub cpp : Cpp
  pub members : Cache → ℕ → Result (List Member)
  pub check_stop : ℕ → Result (Unit {0})

-- The first query, for the ranking that is the last of its season.
abbrev pub is_ladder_in : ℕ → Cache → Ladder → Bool
is_ladder_in season c l =
    is_ladder c.region c.bid l && is_good_strangeness l.strangeness && has_season season l.season_id

abbrev pub has_rows : List Ladder → Bool
has_rows [] = false
has_rows (l ∷ ls) = true

abbrev pub has_ladder_in : ℕ → Db → Cache → Bool
has_ladder_in season db c = has_rows (filter (is_ladder_in season c) db.ladders)

abbrev pub same_ladder : Cache → Cache → Bool
same_ladder c d = (c.bid == d.bid) && (c.region ==ℤ d.region)

-- `DISTINCT ON (c.bid, c.region)`.
unfoldable pub distinct : List Cache → List Cache
distinct [] = []
distinct (c ∷ cs) = c ∷ filter (λ d. not (same_ladder c d)) (distinct cs)

abbrev pub newer_first : Cache → Cache → Bool
newer_first c d = leb d.updated c.updated

abbrev pub older_first : Cache → Cache → Bool
older_first c d = leb c.updated d.updated

abbrev pub cache_ids : List Cache → List ℕ
cache_ids cs = map (λ (c : Cache). c.id) (sort_by older_first cs)

abbrev pub newest_caches : ℕ → Db → List ℕ
newest_caches season db =
    cache_ids (distinct (sort_by newer_first (filter (has_ladder_in season db) db.caches)))

-- `UPDATE cache SET ranking_id = NULL WHERE ranking_id = ...`.
abbrev pub unlinked : ℕ → Cache → Cache
unlinked ranking c = if of_ranking ranking c.ranking_id then record c { ranking_id = none } else c

abbrev pub unlink_sources : ℕ → Db → Db
unlink_sources ranking db = record db { caches = map (unlinked ranking) db.caches }

abbrev pub is_last_in_season : Ranking → List Ranking → Bool
is_last_in_season ranking [] = false
is_last_in_season ranking (r ∷ rs) = r.id == ranking.id

abbrev pub is_last_of : Ranking → Db → Bool
is_last_of ranking db =
    is_last_in_season ranking
      (sort_by later_first (filter (λ (r : Ranking). r.season_id == ranking.season_id) db.rankings))

abbrev pub choose_caches : Ranking → Bool → Action (List ℕ)
choose_caches ranking true db =
    (ok (newest_caches ranking.season_id db), unlink_sources ranking.id db)
choose_caches ranking false db = (ok (cache_ids (filter (in_sources ranking.id) db.caches)), db)

-- `Ladder.objects.get(...)`, where a missing ladder raises `Exception`.
abbrev pub or_exception : Result Ladder → Result Ladder
or_exception (err does_not_exist) = err exception_raised
or_exception r = r

abbrev pub ladder_for_cache : Ranking → Cache → Db → Result Ladder
ladder_for_cache ranking cache db = or_exception (
    get
      (λ (l : Ladder).
        has_season ranking.season_id l.season_id && is_ladder cache.region cache.bid l)
      db.ladders)

abbrev pub is_unlinked : Cache → Bool
is_unlinked c = is_none c.ranking_id && is_none c.ladder_id

abbrev pub link : Cache → Action Cache
link row db = (ok row, save_cache row db)

-- `cache.id = None; ...; cache.save()`.
abbrev pub create_source : Cache → Action Cache
create_source c db =
    let row = record c { id = db.next_cache; ladder_id = none } in
    (ok row, record db { caches = db.caches ++ row ∷ []; next_cache = db.next_cache + 1 })

-- A cache that is free becomes a source of the ranking, and one that is not becomes it as a copy.
abbrev pub take_cache : ℕ → Cache → Action Cache
take_cache ranking c =
    if is_unlinked c
    then link (record c { ranking_id = some ranking })
    else if not (of_ranking ranking c.ranking_id)
    then create_source (record c { ranking_id = some ranking })
    else pure c

module _ (run : RepairRun) (ranking : Ranking) where
  unfoldable pub repair_cache : ℕ → ℕ → Action (Unit {0})
  repair_cache i id = do
    cache ← query (λ db. get (λ (c : Cache). c.id == id) db.caches)
    lift (run.check_stop i)
    ladder ← query (ladder_for_cache ranking cache)
    source ← take_cache ranking.id cache
    team_size ← lift (Mode.team_size ladder.mode)
    members ← lift (run.members source team_size)
    lift
        (run.cpp.update_with_ladder (update_call source.id source.updated ladder team_size members))

  -- The loop, with the number of the next call of `check_stop`.
  unfoldable pub repair_caches : ℕ → List ℕ → Action (Unit {0})
  repair_caches i [] = pure tt
  repair_caches i (id ∷ ids) = let rest = repair_caches (i + 1) ids in do repair_cache i id; rest

  unfoldable pub save_repaired : Season → ℕ → Action (Unit {0})
  save_repaired season count = do
    timed ← lift (set_data_time season run.cpp.min_max_data_time ranking)
    modify (save_ranking timed)
    lift (run.check_stop count)
    lift (run.cpp.save_data timed.id timed.season_id)
    lift (run.check_stop (count + 1))
    lift (run.cpp.save_stats timed.id)

  unfoldable pub repair_chosen : Season → List ℕ → Action (Unit {0})
  repair_chosen season ids = do repair_caches 0 ids; save_repaired season (length ids)

-- `ranking.status not in [Ranking.CREATED, Ranking.COMPLETE_WITH_DATA]`.
abbrev pub can_repair : RankingStatus → Bool
can_repair created_status = true
can_repair complete_with_data = true
can_repair _ = false

-- `Main.run` after the ranking is found.
unfoldable pub run_repair : RepairRun → Ranking → Action (Unit {0})
run_repair run ranking = do
  lift (raise_if (not (can_repair ranking.status)) exception_raised)
  season ← query (λ db. get (λ (s : Season). s.id == ranking.season_id) db.seasons)
  last ← query (λ db. ok (is_last_of ranking db))
  ids ← choose_caches ranking last
  repair_chosen run ranking season ids

unfoldable pub repair_ranking : RepairRun → ℕ → Action (Unit {0})
repair_ranking run id = do
  ranking ← query (λ db. get (λ (r : Ranking). r.id == id) db.rankings)
  run_repair run ranking
