-- ===== src/Archive/Roundtrip.antt =====
-- A ranking archived by `archive_ranking`, and loaded by `load_ranking_archive`.
use rankedftw.Archive.Load.{has_ladder_row, load_ranking_archive}
use rankedftw.Archive.Restored.{AllRestored, load_rows-AllRestored}
use rankedftw.Prelude.Objects.{filter}
use Prim.Native.String.{String}
use rankedftw.Archive.{
  Json, archive_ranking, write_ranking, archive_name, header_of, sources_of, rows_of,
}
use rankedftw.Archive.Chunks.{by_pk-Ascending, by_pk, IsPositive, iterate_query_chunked-by_pk}
use rankedftw.Archive.Files.{ranking_file, World}
use rankedftw.Archive.Rows.{
  All-filter, Fresh-filter, All-by_pk, Ascending-IsKeyed, All, IsKeyed-filter, IsPositive-filter,
}
use rankedftw.Archive.Written.{IsCodec, Written, write_ranking-Wrote}
use rankedftw.Deletion.{is_other_source, drop_sources}
use rankedftw.Prelude.{
  some, false, length, ◌==◌, suc, Bool-cases, Bool, ℕ, List, [], ◌∷◌, ◌++◌, true, ◌≡◌, refl, inl,
  inr, arith,
}
use rankedftw.Prelude.Result.{Result, ok, Result-cases}
use rankedftw.Retention.{is_key}
use rankedftw.Retention.Links.{has_ranking}
use rankedftw.Store.{Cache, Ranking, Db, complete_without_data}
use rankedftw.Store.Keys.{Apart, IsKeyed}
use rankedftw.Store.Rows.{save_ranking, save_row}

-- The table of the caches: ids of their own over 0, and foreign keys to ladders that are there.
pub record IsSound (db : Db) : Type 0 where
  pub keyed : IsKeyed (λ (c : Cache). c.id) db.caches
  pub positive : IsPositive (λ (c : Cache). c.id) db.caches
  pub linked : All (λ (c : Cache). has_ladder_row db.ladders c.ladder_id ≡ true) db.caches

abbrev pub cache_pk : List Cache → List Cache
cache_pk = by_pk (λ (c : Cache). c.id)

pub rows_of-sources_of :
    (i : ℕ) (db : Db) → IsSound db → rows_of (sources_of i db) ≡ ok (cache_pk (sources_of i db))
rows_of-sources_of i db sound =
    let p : Cache → Bool = λ c. is_key i c.ranking_id in
    rw
      (iterate_query_chunked-by_pk (λ (c : Cache). c.id) (suc (length (sources_of i db))) 1024
        (sources_of i db) (IsKeyed-filter (λ (c : Cache). c.id) p db.caches sound.keyed)
        (IsPositive-filter (λ (c : Cache). c.id) p db.caches sound.positive) (omega arith)
        (omega arith))
      refl

has_ranking-save_row :
    (r : Ranking) (rs : List Ranking)
    → has_ranking r.id (save_row (λ (q : Ranking). q.id) r rs) ≡ true
unfolding save_row
has_ranking-save_row r [] = ground arith
has_ranking-save_row r (q ∷ rs) = elim (Bool-cases (q.id == r.id)) [
  | inl e ↦ rw e (ground arith)
  | inr e ↦ rw (e, e) (has_ranking-save_row r rs)
]

module _ (json : Json) (dir : String) (remove : Bool) (check_stop : ℕ → Result (Unit {0})) where
  abbrev pub archived : Ranking → Db → Db
  archived r db = save_ranking (record r { status = complete_without_data }) (drop_sources r.id db)

  archive_ranking-Written :
      (r : Ranking) (cs : List Cache) (w : World json.Line)
      → rows_of (sources_of r.id w.db) ≡ ok cs
      → (archive_ranking json dir remove check_stop r w).0 ≡ ok tt
      → (l : json.Line) × (ls : List json.Line) × ((archive_ranking json dir remove check_stop r
            w).1.db
          ≡ archived r w.db)
        × ((archive_ranking json dir remove check_stop r w).1.closed
            ≡ w.closed ++ ((archive_name json dir remove check_stop r, l ∷ ls) ∷ []))
        × (json.dumps_header (header_of json r) ≡ ok l)
        × Written json cs ls
  unfolding archive_ranking
  archive_ranking-Written r cs w e h =
      elim (Result-cases (write_ranking json dir remove check_stop r (record w { lines = [] })).0) [
        | inl (done, f) ↦
            let wrote =
              write_ranking-Wrote json dir remove check_stop r cs (record w { lines = [] }) e refl
                f in
            rw (f, wrote.2, wrote.3, wrote.4) (wrote.0, wrote.1, refl, refl, wrote.5, wrote.6)
        | inr (x, f) ↦ absurd (cc (rw f at h))
      ]

module _ (json : Json) (codec : IsCodec json) (dir : String)
    (check_stop : ℕ → Result (Unit {0})) where
  -- Where the texts of `json` are read back as they were written, the ids of the caches are over 0
  -- and each of one row, and their ladders exist: when `archive_ranking` returns and keeps its
  -- file, it has closed one file for the ranking, and `load_ranking_archive` of the lines of that
  -- file returns and adds to the caches that are left one row for each source, in the order of the
  -- ids, which is as it was, the times and the id included, but for the retry count, which is 0,
  -- and a data text that reads as the same value.
  pub archive_ranking-load_ranking_archive :
      (r : Ranking) (w : World json.Line)
      → IsSound w.db
      → (archive_ranking json dir false check_stop r w).0 ≡ ok tt
      → (lines : List json.Line) × (ds : List Cache) × ((archive_ranking json dir false check_stop r
            w).1.closed
          ≡ w.closed ++ ((ranking_file dir r.id, lines) ∷ []))
        × AllRestored json (some r.id) (cache_pk (sources_of r.id w.db)) ds
        × (load_ranking_archive json lines (archive_ranking json dir false check_stop r w).1.db ≡ (
          ok tt,
          record (archive_ranking json dir false check_stop r w).1.db {
            caches = filter (is_other_source r.id) w.db.caches ++ ds;
          },
        ))
  unfolding load_ranking_archive
  archive_ranking-load_ranking_archive r w sound h =
      let p : Cache → Bool = λ c. is_key r.id c.ranking_id in
      let cs = cache_pk (sources_of r.id w.db) in
      let wrote =
        archive_ranking-Written json dir false check_stop r cs w
          (rows_of-sources_of r.id w.db sound) h in
      let now : Db = record (archived json dir false check_stop r w.db) {
        caches = filter (is_other_source r.id) w.db.caches;
      } in
      let loaded =
        load_rows-AllRestored json codec (some r.id) cs wrote.1 now wrote.5
          (Ascending-IsKeyed (λ (c : Cache). c.id) 0 cs
            (by_pk-Ascending (λ (c : Cache). c.id) (sources_of r.id w.db)
              (IsKeyed-filter (λ (c : Cache). c.id) p w.db.caches sound.keyed)
              (IsPositive-filter (λ (c : Cache). c.id) p w.db.caches sound.positive)))
          (All-by_pk (λ (c : Cache). Apart (λ (d : Cache). d.id) c.id now.caches)
            (λ (c : Cache). c.id) (sources_of r.id w.db)
            (Fresh-filter (λ (c : Cache). c.id) p w.db.caches sound.keyed))
          (All-by_pk (λ (c : Cache). has_ladder_row w.db.ladders c.ladder_id ≡ true)
            (λ (c : Cache). c.id) (sources_of r.id w.db)
            (All-filter (λ (c : Cache). has_ladder_row w.db.ladders c.ladder_id ≡ true) p
              w.db.caches sound.linked)) in
      let there =
        has_ranking-save_row (record r { status = complete_without_data }) w.db.rankings in
      (
        wrote.0 ∷ wrote.1,
        loaded.0,
        wrote.3,
        loaded.1,
        rw (wrote.2, codec.header_read (header_of json r) wrote.4, there) loaded.2,
      )
