-- ===== src/Archive.antt =====
-- main/archive.py: `DataArchiver`, and `iterate_query_chunked` of common/utils.py.
pub mod Chunks
pub mod Files
pub mod Rows
pub mod Load
pub mod Written
pub mod Restored
pub mod Roundtrip
pub mod Loads
pub mod Steps
pub mod Whole
mod Tests
use Prim.Native.String.{String}
use rankedftw.Archive.Chunks.{iterate_query_chunked}
use rankedftw.Archive.Files.{
  Filename, dev_null, ranking_file, caches_file, World, Step, pure, lift, on_db, atomic, with_file,
  write_line, call, ◌>>=◌, ◌>>◌,
}
use rankedftw.Deletion.{drop_sources, is_null, delete_caches}
use rankedftw.FetchNew.{sub_time}
use rankedftw.Prelude.{
  ◌++◌, ℕ, suc, ◌-◌, ◌*◌, ◌/◌, ◌==◌, ◌&&◌, ◌||◌, not, ltb, leb, if◌then◌else◌, Bool, true, false,
  List, [], ◌∷◌, Option, none, some, length,
}
use rankedftw.Prelude.Clock.{Time, day, second, unix_epoch, combine_min}
use rankedftw.Prelude.Int.{ℤ}
use rankedftw.Prelude.Objects.{filter}
use rankedftw.Prelude.Result.{
  Result, ok, err, raise_if, or_raise, map_ok, integrity_error, exception_raised, stopped,
  ◌>>=◌ as bind,
}
use rankedftw.Prelude.Sort.{sort_by}
use rankedftw.Retention.{is_key}
use rankedftw.Retention.Links.{has_ranking}
use rankedftw.Store.{
  Db, Cache, CacheType, ladder_type, player_ladders_type, Ranking, RankingStatus,
  complete_with_data, complete_without_data, Ladder,
}
use rankedftw.Store.Action as Action
use rankedftw.Store.Action.{Action}
use rankedftw.Store.Rows.{save_ranking}

-- The dict of a cache, whose data is a JSON value, or `None` for JSON's null also.
pub record CacheRow (Value Stamp : Type 0) : Type 0 where
  pub id : ℕ
  pub url : String
  pub region : ℤ
  pub bid : ℕ
  pub type : CacheType
  pub status : ℕ
  pub created : Stamp
  pub updated : Stamp
  pub value : Option Value
  pub ladder_id : Option ℕ

-- The metadata on the first line.
pub record Header (Stamp : Type 0) : Type 0 where
  pub version : ℕ
  pub ranking_id : ℕ
  pub season_id : ℕ
  pub created : Stamp
  pub data_time : Stamp
  pub min_data_time : Stamp
  pub max_data_time : Stamp

-- Python's `json` and the text of a time, which are not of this repository: `loads` of a text that may
-- hold null, `dumps(..., indent=4)`, and the two ways on the dicts above, where `dumps` with
-- `allow_nan=False` may raise.
pub record Json : Type 1 where
  pub Value : Type 0
  pub Line : Type 0
  pub Stamp : Type 0
  pub loads : String → Result (Option Value)
  pub dumps : Value → String
  pub dumps_row : CacheRow Value Stamp → Result Line
  pub loads_row : Line → Result (CacheRow Value Stamp)
  pub dumps_header : Header Stamp → Result Line
  pub loads_header : Line → Result (Header Stamp)
  pub isoformat : Time → Stamp
  pub parse_time : Stamp → Time

module _ (json : Json) where
  -- `None if obj.data is None else json.loads(obj.data)`.
  abbrev pub value_of : Option String → Result (Option json.Value)
  value_of none = ok none
  value_of (some text) = json.loads text

  abbrev pub row_with : Cache → Option json.Value → CacheRow json.Value json.Stamp
  row_with c value = record {
    id = c.id;
    url = c.url;
    region = c.region;
    bid = c.bid;
    type = c.type;
    status = c.status;
    created = json.isoformat c.created;
    updated = json.isoformat c.updated;
    value = value;
    ladder_id = c.ladder_id;
  }

  abbrev pub line_of : Cache → Result json.Line
  line_of c = bind (value_of c.text) (λ value. json.dumps_row (row_with c value))

  -- `struct['data']`, as it is put back.
  abbrev pub text_of : Option json.Value → Option String
  text_of none = none
  text_of (some value) = some (json.dumps value)

  -- The arguments of `Cache.objects.create`, with the default of `retry_count`.
  abbrev pub cache_from : Option ℕ → CacheRow json.Value json.Stamp → Cache
  cache_from ranking_id r = record {
    id = r.id;
    url = r.url;
    bid = r.bid;
    type = r.type;
    region = r.region;
    status = r.status;
    created = json.parse_time r.created;
    updated = json.parse_time r.updated;
    text = text_of r.value;
    retry_count = 0;
    ranking_id = ranking_id;
    ladder_id = r.ladder_id;
  }

  abbrev pub read_cache_obj : json.Line → Option ℕ → Result Cache
  read_cache_obj raw ranking_id = map_ok (cache_from ranking_id) (json.loads_row raw)

  abbrev pub header_of : Ranking → Header json.Stamp
  header_of ranking = record {
    version = 1;
    ranking_id = ranking.id;
    season_id = ranking.season_id;
    created = json.isoformat ranking.created;
    data_time = json.isoformat ranking.data_time;
    min_data_time = json.isoformat ranking.min_data_time;
    max_data_time = json.isoformat ranking.max_data_time;
  }

-- The rows of `caches` in chunks of 1024, of which there are less than the fuel.
abbrev pub rows_of : List Cache → Result (List Cache)
rows_of caches =
    or_raise (iterate_query_chunked (λ (c : Cache). c.id) (suc (length caches)) 1024 caches) stopped

abbrev pub sources_of : ℕ → Db → List Cache
sources_of ranking_id db = filter (λ (c : Cache). is_key ranking_id c.ranking_id) db.caches

-- What `DataArchiver` keeps, and the `check_stop` that a run is given.
module _ (json : Json) (dir : String) (remove : Bool) (check_stop : ℕ → Result (Unit {0})) where
  unfoldable pub write_rows : List Cache → Step json.Line (Unit {0})
  write_rows [] = pure tt
  write_rows (c ∷ cs) =
      let rest = write_rows cs in do call check_stop; s ← lift (line_of json c); write_line s; rest

  abbrev pub write_caches : (Db → List Cache) → Step json.Line (Unit {0})
  write_caches caches = do rows ← on_db (Action.query (λ db. rows_of (caches db))); write_rows rows

  -- The name of the file of a ranking.
  abbrev pub archive_name : Ranking → Filename
  archive_name ranking = if remove then dev_null else ranking_file dir ranking.id

  -- What is done while the file is open.
  abbrev pub write_ranking : Ranking → Step json.Line (Unit {0})
  write_ranking ranking = do
    call check_stop
    s ← lift (json.dumps_header (header_of json ranking))
    write_line s
    write_caches (sources_of ranking.id)
    on_db (Action.modify (drop_sources ranking.id))

  unfoldable pub archive_ranking : Ranking → Step json.Line (Unit {0})
  archive_ranking ranking = atomic (do
    with_file (archive_name ranking) (write_ranking ranking)
    on_db (Action.modify (save_ranking (record ranking { status = complete_without_data }))))

  -- Each ranking is the object that the query has read.
  unfoldable pub archive_all : List Ranking → Step json.Line (Unit {0})
  archive_all [] = pure tt
  archive_all (r ∷ rs) = let rest = archive_all rs in archive_ranking r >> rest

  abbrev pub is_with_data : RankingStatus → Bool
  is_with_data complete_with_data = true
  is_with_data _ = false

  abbrev pub is_archivable : Time → Ranking → Bool
  is_archivable limit r = ltb r.data_time limit && is_with_data r.status

  unfoldable pub archive_rankings : Time → Step json.Line (Unit {0})
  archive_rankings now = do
    limit ← lift (sub_time now (100 * day))
    rankings ← on_db (
        Action.query (λ db.
          ok (
            sort_by (λ (r q : Ranking). leb r.id q.id) (filter (is_archivable limit) db.rankings))))
    archive_all rankings

  -- `caches.delete()` runs the query again, on a database that writing the file has not changed.
  abbrev pub move_to_file : (Db → Cache → Bool) → Step json.Line (Unit {0})
  move_to_file p = do
    write_caches (λ db. filter (p db) db.caches)
    on_db (Action.modify (λ db. record db { caches = filter (λ c. not (p db c)) db.caches }))

  abbrev is_player_ladders : CacheType → Bool
  is_player_ladders player_ladders_type = true
  is_player_ladders _ = false

  abbrev is_ladder_cache : CacheType → Bool
  is_ladder_cache ladder_type = true
  is_ladder_cache _ = false

  -- `season_id__lt=LAST_AVAILABLE_SEASON`, which is not true of a null.
  abbrev pub is_unavailable : Option ℕ → Bool
  is_unavailable none = false
  is_unavailable (some season_id) = ltb season_id 28

  abbrev pub has_old_ladder : List Ladder → Option ℕ → Bool
  has_old_ladder ladders none = false
  has_old_ladder [] (some i) = false
  has_old_ladder (l ∷ ls) (some i) =
      (l.id == i && is_unavailable l.season_id) || has_old_ladder ls (some i)

  unfoldable pub archive_unused_caches : Time → Step json.Line Filename
  archive_unused_caches now = atomic (do
    with_file (caches_file dir ((now - combine_min unix_epoch) / second)) (do
      move_to_file (λ db c. is_player_ladders c.type)
      move_to_file (λ db c.
          has_old_ladder db.ladders c.ladder_id && is_null c.ranking_id && is_ladder_cache c.type)
      move_to_file (λ db c. is_null c.ladder_id && is_null c.ranking_id && is_ladder_cache c.type))
    pure (caches_file dir ((now - combine_min unix_epoch) / second)))
