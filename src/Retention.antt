-- ===== src/Retention.antt =====
-- main/delete.py: which rankings are kept, and what is deleted with the others. The reasons that the
-- code stores with the flags are only logged.
pub mod Flags
pub mod Keeps
pub mod Seasons
pub mod Spacing
pub mod Order
pub mod Purge
pub mod Sources
pub mod Gaps
pub mod Links
mod Tests
use rankedftw.Store.Rows.{is_complete, later_first}
use rankedftw.Prelude.Objects.{filter}
use rankedftw.Prelude.Result.{map_ok, index_error, err, ok, Result}
use rankedftw.Prelude.Sort.{sort_by}
use rankedftw.Prelude.{
  ◌||◌, ◌&&◌, ◌*◌, none, ◌==◌, ◌+◌, zero, some, ltb, [], ◌∷◌, suc, not, map, leb, if◌then◌else◌,
  false, Option, ℕ, true, List, Bool,
}
use rankedftw.Prelude.Clock.{Time, day, combine_min}
use rankedftw.Store.{Db, Ranking, RankingStatus, complete_without_data, Cache, Attached, CacheType}
use rankedftw.Store.Action.{Action, query, lift, modify, pure, atomic, ◌>>=◌, ◌>>◌}

-- An entry of `rrs`: a ranking and its keep flag.
pub record Mark : Type 0 where
  pub ranking : Ranking
  pub keep : Bool

abbrev pub kept : Mark → Mark
kept m = record m { keep = true }

unfoldable pub unmarked : List Ranking → List Mark
unmarked = map (λ (r : Ranking). record { ranking = r; keep = false })

-- `for rr in rrs[:keep_last]`.
unfoldable pub keep_front : ℕ → List Mark → List Mark
keep_front zero rrs = rrs
keep_front (suc n) [] = []
keep_front (suc n) (m ∷ rrs) = kept m ∷ keep_front n rrs

-- `rrs[-1][1] = True`, which raises on an empty list.
unfoldable pub keep_end : List Mark → Result (List Mark)
keep_end [] = err index_error
keep_end (m ∷ []) = ok (kept m ∷ [])
keep_end (m ∷ n ∷ rrs) = map_ok (λ rest. m ∷ rest) (keep_end (n ∷ rrs))

-- The first of each run of rankings of one season.
unfoldable pub keep_seasons : ℕ → List Mark → List Mark
keep_seasons season_id [] = []
keep_seasons season_id (m ∷ rrs) =
    (if m.ranking.season_id == season_id then m else kept m) ∷ keep_seasons m.ranking.season_id rrs

abbrev pub earlier : Mark → Mark → Bool
earlier m n = leb m.ranking.data_time n.ranking.data_time

abbrev pub smaller_id : Mark → Mark → Bool
smaller_id m n = leb m.ranking.id n.ranking.id

abbrev pub without_data : RankingStatus → Bool
without_data complete_without_data = true
without_data _ = false

-- `last_data_time > ranking.data_time + timedelta(days=365) and ranking.status == ...`.
abbrev pub is_archived_old : Time → Ranking → Bool
is_archived_old last_data_time r =
    ltb (r.data_time + 365 * day) last_data_time && without_data r.status

-- The days that must have passed since the last ranking that was kept.
abbrev pub interval : Time → Ranking → ℕ
interval last_data_time r = if is_archived_old last_data_time r then 28 else 7

-- The flag that the loop leaves, where `last_kept` is the data time of the last one kept.
abbrev pub keeps_now : Time → Time → Mark → Bool
keeps_now last_data_time last_kept m =
    m.keep
    || leb (last_kept + 7 * day) m.ranking.data_time
      && leb (last_kept + interval last_data_time m.ranking * day) m.ranking.data_time

-- The loop that keeps a ranking every 7 days, and every 28 days among the old ones.
unfoldable pub keep_spaced : Time → Time → List Mark → List Mark
keep_spaced last_data_time last_kept [] = []
keep_spaced last_data_time last_kept (m ∷ rrs) =
    let keep = keeps_now last_data_time last_kept m in
    record m { keep = keep }
    ∷ keep_spaced last_data_time (if keep then m.ranking.data_time else last_kept) rrs

abbrev pub year_2000 : Time
year_2000 = combine_min 730119

-- `rrs[-1][0].data_time`.
abbrev pub last_time : List Mark → Time
last_time [] = 0
last_time (m ∷ []) = m.ranking.data_time
last_time (m ∷ n ∷ rrs) = last_time (n ∷ rrs)

unfoldable pub spaced_by_time : List Mark → List Mark
spaced_by_time rrs = keep_spaced (last_time rrs) year_2000 rrs

-- The flags, from the complete rankings by descending id to the order of the deletion.
unfoldable pub marks : ℕ → List Ranking → Result (List Mark)
unfolding unmarked keep_front keep_end keep_seasons spaced_by_time sort_by keep_spaced
marks keep_last rankings =
    map_ok (λ rrs. sort_by smaller_id (spaced_by_time (sort_by earlier (keep_seasons 0 rrs))))
      (keep_end (keep_front keep_last (unmarked rankings)))

-- Whether a foreign key is the id.
abbrev pub is_key : ℕ → Option ℕ → Bool
is_key i none = false
is_key i (some j) = j == i

abbrev pub unlink : ℕ → Cache → Cache
unlink ranking_id c = if is_key ranking_id c.ranking_id then record c { ranking_id = none } else c

abbrev pub is_attached : ℕ → Attached → Bool
is_attached ranking_id a = not (a.ranking_id == ranking_id)

abbrev pub not_id : ℕ → Ranking → Bool
not_id ranking_id r = not (r.id == ranking_id)

-- `Ranking.objects.filter(id=...).delete()` with its cascade, after the caches are set free.
unfoldable pub drop_ranking : ℕ → Db → Db
drop_ranking ranking_id db = record db {
  caches = map (unlink ranking_id) db.caches;
  rankings = filter (not_id ranking_id) db.rankings;
  ranking_data = filter (is_attached ranking_id) db.ranking_data;
  ranking_stats = filter (is_attached ranking_id) db.ranking_stats;
}

unfoldable pub drop_unkept : Bool → List Mark → Db → Db
unfolding drop_ranking
drop_unkept do_delete [] db = db
drop_unkept do_delete (m ∷ rrs) db =
    drop_unkept do_delete rrs
      (if m.keep then db else if do_delete then drop_ranking m.ranking.id db else db)

unfoldable pub delete_old_rankings : Bool → ℕ → Action (Unit {0})
unfolding marks drop_unkept
delete_old_rankings do_delete keep_last = atomic (do
  rankings ←
      query (λ db.
        ok (sort_by later_first (filter (λ (r : Ranking). is_complete r.status) db.rankings)))
  rrs ← lift (marks keep_last rankings)
  modify (drop_unkept do_delete rrs))
