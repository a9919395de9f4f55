-- ===== src/Deletion.antt =====
-- main/delete.py: the other deletions of `DataDeleter`. The time is an argument, as is the date before
-- which data is purged.
pub mod Rankings
pub mod Ladders
mod Tests
use rankedftw.FetchNew.{sub_time}
use rankedftw.Retention.{not_id, is_attached, is_key}
use rankedftw.Prelude.Objects.{filter, get}
use rankedftw.Prelude.Clock.{day, Time}
use rankedftw.Prelude.{
  ◌||◌, none, [], ◌∷◌, ◌==◌, ◌*◌, some, not, map, ltb, if◌then◌else◌, ◌-◌, ◌&&◌, true, false, ℕ,
  Option, List, Bool,
}
use rankedftw.Store.Action.{Action, query, lift, modify, pure, atomic, ◌>>=◌, ◌>>◌}
use rankedftw.Store.{
  Ranking, Ladder, Db, Cache, CacheType, ladder_type, player_type, player_ladders_type, season_type,
}
use rankedftw.Prelude.Result.{ok, err, raise_if, exception_raised, value_error}

abbrev pub is_null : Option ℕ → Bool
is_null none = true
is_null (some _) = false

abbrev is_ladder_type : CacheType → Bool
is_ladder_type ladder_type = true
is_ladder_type _ = false

abbrev is_player_type : CacheType → Bool
is_player_type player_type = true
is_player_type player_ladders_type = true
is_player_type _ = false

abbrev is_season_type : CacheType → Bool
is_season_type season_type = true
is_season_type _ = false

-- The caches of `delete_old_cache_data`, those last updated before `limit`.
abbrev pub is_unreferenced : Time → Cache → Bool
is_unreferenced limit c =
    is_null c.ladder_id
    && is_null c.ranking_id
    && (c.status == 200)
    && (is_ladder_type c.type || is_player_type c.type || is_season_type c.type)
    && ltb c.updated limit

-- The caches of `agressive_delete_cache_data`.
abbrev pub is_purged : Time → Cache → Bool
is_purged limit c =
    ltb c.updated limit
    || (is_null c.ladder_id && is_null c.ranking_id && is_ladder_type c.type)
    || is_player_type c.type

abbrev pub delete_caches : Bool → (Cache → Bool) → Action (Unit {0})
delete_caches do_delete p = atomic (
    modify
      (λ db. if do_delete then record db { caches = filter (λ c. not (p c)) db.caches } else db))

unfoldable pub delete_old_cache_data : Bool → Time → ℕ → Action (Unit {0})
delete_old_cache_data do_delete now keep_days = atomic (do
  limit ← lift (sub_time now (keep_days * day))
  delete_caches do_delete (is_unreferenced limit))

unfoldable pub agressive_delete_cache_data : Bool → Time → Action (Unit {0})
agressive_delete_cache_data do_delete purge_time = delete_caches do_delete (is_purged purge_time)

-- A cache of the ranking that is linked to a ladder.
abbrev pub is_tied : ℕ → Cache → Bool
is_tied ranking_id c = is_key ranking_id c.ranking_id && not (is_null c.ladder_id)

abbrev pub has_any : List Cache → Bool
has_any [] = false
has_any (c ∷ cs) = true

abbrev pub is_other_source : ℕ → Cache → Bool
is_other_source ranking_id c = not (is_key ranking_id c.ranking_id)

-- The four deletions, of which the last also cascades to rows that the first two have deleted.
abbrev pub drop_data : ℕ → Db → Db
drop_data i db = record db { ranking_data = filter (is_attached i) db.ranking_data }

abbrev pub drop_stats : ℕ → Db → Db
drop_stats i db = record db { ranking_stats = filter (is_attached i) db.ranking_stats }

abbrev pub drop_sources : ℕ → Db → Db
drop_sources i db = record db { caches = filter (is_other_source i) db.caches }

abbrev pub drop_row : ℕ → Db → Db
drop_row i db = drop_data i (drop_stats i (record db { rankings = filter (not_id i) db.rankings }))

abbrev pub when : Bool → (Db → Db) → Action (Unit {0})
when do_delete f = modify (λ db. if do_delete then f db else db)

unfoldable pub delete_ranking : Bool → ℕ → Action (Unit {0})
delete_ranking do_delete pk = atomic (do
  ranking ← query (λ db. get (λ (r : Ranking). r.id == pk) db.rankings)
  tied ← query (λ db. ok (filter (is_tied ranking.id) db.caches))
  lift (raise_if (has_any tied) exception_raised)
  when do_delete (drop_data ranking.id)
  when do_delete (drop_stats ranking.id)
  when do_delete (drop_sources ranking.id)
  when do_delete (drop_row ranking.id))

abbrev pub is_in : ℕ → List ℕ → Bool
is_in i [] = false
is_in i (j ∷ js) = (j == i) || is_in i js

-- `season_id NOT IN %s`, which is not true of a null.
abbrev pub is_stale : List ℕ → Ladder → Bool
is_stale keep_season_ids l = outside l.season_id
  where
    outside : Option ℕ → Bool
    outside none = false
    outside (some i) = not (is_in i keep_season_ids)

-- The ids of the inner query.
abbrev pub stale_ids : List ℕ → List Ladder → List ℕ
stale_ids keep ladders = map (λ (l : Ladder). l.id) (filter (is_stale keep) ladders)

abbrev pub is_source_of : List ℕ → Option ℕ → Bool
is_source_of ids none = false
is_source_of ids (some i) = is_in i ids

abbrev pub drop_ladders : List ℕ → Db → Db
drop_ladders keep db = record db {
  caches =
      filter (λ (c : Cache). not (is_source_of (stale_ids keep db.ladders) c.ladder_id)) db.caches;
  ladders = filter (λ l. not (is_stale keep l)) db.ladders;
}

abbrev pub is_empty : List ℕ → Bool
is_empty [] = true
is_empty (i ∷ is) = false

-- The two statements; an empty tuple makes no valid one.
unfoldable pub delete_ladders : Bool → List ℕ → Action (Unit {0})
delete_ladders do_delete keep_season_ids = atomic (do
  lift (raise_if (do_delete && is_empty keep_season_ids) value_error)
  when do_delete (drop_ladders keep_season_ids))
