-- ===== src/Archive/Tests.antt =====
-- A ranking with two sources, an archive whose lines are the dicts themselves, and chunks of two rows.
use rankedftw.Archive.Load.{load_rows, load_ranking_archive, load_unused_cache_archive}
use rankedftw.Archive.{
  write_rows, row_with, is_archivable, Json, CacheRow, Header, archive_ranking, archive_rankings,
  sources_of,
}
use rankedftw.Archive.Chunks.{
  chunks_from, IsPositive, iterate_query_chunked, iterate_query_chunked-by_pk, by_pk,
}
use rankedftw.Prelude.Sort.{sort_by, insert_by}
use rankedftw.Prelude.{
  map, ◌+◌, ℕ, ◌*◌, ◌-◌, none, some, List, [], ◌∷◌, ◌++◌, false, ◌≡◌, refl, arith,
}
use rankedftw.Prelude.Result.{integrity_error, Result, ok, err, key_error}
use rankedftw.Store.Rows.{save_row}
use rankedftw.Store.Keys.{IsKeyed}
use Prim.Native.String.{String}
use rankedftw.Archive.Files.{World, ranking_file}
use rankedftw.Archive.Restored.{AllRestored}
use rankedftw.Archive.Roundtrip.{IsSound, cache_pk, archive_ranking-load_ranking_archive}
use rankedftw.Archive.Steps.{Whole}
use rankedftw.Archive.Whole.{archive_rankings-Whole}
use rankedftw.Archive.Written.{IsCodec}
use rankedftw.Deletion.{is_other_source}
use rankedftw.Prelude.Clock.{Time, day}
use rankedftw.Prelude.Objects.{filter}
use rankedftw.Store.{Cache, Db}
use rankedftw.Store.Sample.{sample_db, sample_ranking, cache_of}

data Text : Type 0 where
  row_text : CacheRow String Time → Text
  header_text : Header Time → Text

abbrev row_in : Text → Result (CacheRow String Time)
row_in (row_text r) = ok r
row_in (header_text h) = err key_error

abbrev header_in : Text → Result (Header Time)
header_in (row_text r) = err key_error
header_in (header_text h) = ok h

abbrev plain : Json
plain = record {
  Value = String;
  Line = Text;
  Stamp = Time;
  loads = λ s. ok (some s);
  dumps = λ v. v;
  dumps_row = λ r. ok (row_text r);
  loads_row = row_in;
  dumps_header = λ h. ok (header_text h);
  loads_header = header_in;
  isoformat = λ t. t;
  parse_time = λ t. t;
}

plain-IsCodec : IsCodec plain
plain-IsCodec = record {
  row_read = λ r e. cc;
  header_read = λ h e. cc;
  value_read = λ v. refl;
  time_read = λ t. refl;
}

abbrev db : Db
db = record sample_db {
  caches = cache_of 3 1 (some 5) ∷ cache_of 2 2 none ∷ cache_of 1 1 (some 5) ∷ [];
}

abbrev world : World Text
world = record { db = db; lines = []; closed = []; calls = 0 }

abbrev go_on : ℕ → Result (Unit {0})
go_on n = ok tt

db-IsKeyed : IsKeyed (λ (c : Cache). c.id) db.caches
db-IsKeyed =
    ((λ e. omega (arith, e), (λ e. omega (arith, e), tt)), ((λ e. omega (arith, e), tt), (tt, tt)))

db-IsPositive : IsPositive (λ (c : Cache). c.id) db.caches
db-IsPositive = (omega arith, (omega arith, (omega arith, tt)))

iterate_query_chunked-by_pk_example :
    iterate_query_chunked (λ (c : Cache). c.id) 4 2 db.caches
    ≡ some (by_pk (λ (c : Cache). c.id) db.caches)
iterate_query_chunked-by_pk_example =
    iterate_query_chunked-by_pk (λ (c : Cache). c.id) 4 2 db.caches db-IsKeyed db-IsPositive
      (omega arith) (omega arith)

db-IsSound : IsSound db
db-IsSound = record {
  keyed = db-IsKeyed;
  positive = db-IsPositive;
  linked = (refl, (refl, (refl, tt)));
}

sources_left :
    map
      (λ (c : Cache). c.id)
      (archive_ranking plain "data" false go_on sample_ranking world).1.db.caches
    ≡ 2 ∷ []
unfolding archive_ranking write_rows sort_by insert_by save_row chunks_from
sources_left = refl

archived_ok : (archive_ranking plain "data" false go_on sample_ranking world).0 ≡ ok tt
unfolding archive_ranking write_rows sort_by insert_by save_row chunks_from
archived_ok = refl

archive_ranking-load_ranking_archive_example :
    (lines : List Text) × (ds : List Cache) × ((archive_ranking plain "data" false go_on
        sample_ranking world).1.closed
      ≡ [] ++ ((ranking_file "data" 5, lines) ∷ []))
    × AllRestored plain (some 5) (cache_pk (sources_of 5 db)) ds
    × (load_ranking_archive plain lines
          (archive_ranking plain "data" false go_on sample_ranking world).1.db
        ≡ (
          ok tt,
          record (archive_ranking plain "data" false go_on sample_ranking world).1.db {
            caches = filter (is_other_source 5) db.caches ++ ds;
          },
        ))
archive_ranking-load_ranking_archive_example =
    archive_ranking-load_ranking_archive plain plain-IsCodec "data" go_on sample_ranking world
      db-IsSound archived_ok

-- The line of a cache whose id the table has, after one of a cache that it does not have.
abbrev lines : List Text
lines =
    row_text (row_with plain (cache_of 7 1 none) none)
    ∷ row_text (row_with plain (cache_of 2 1 none) none)
    ∷ []

overwrites_none : (load_unused_cache_archive plain lines db).0 ≡ err integrity_error
unfolding load_rows
overwrites_none = refl

archive_rankings-Whole_example :
    Whole
      (is_archivable plain "data" false go_on (100 * day + 1 - 100 * day))
      5
      db
      (archive_rankings plain "data" false go_on (100 * day + 1) world).1.db
archive_rankings-Whole_example =
    archive_rankings-Whole plain "data" false go_on (100 * day + 1) 5 world (tt, tt)
      (omega arith, tt)
