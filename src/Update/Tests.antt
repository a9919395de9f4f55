-- ===== src/Update/Tests.antt =====
-- The back off over bad fetches, small queues, and rounds of the update on a small database.
use rankedftw.Enums.Region as Region
use mathlib.Core.List.{Perm, Mem}
use rankedftw.Update.Backlog.{Reach, start, then, test, write, turn, Reach-le}
use rankedftw.Update.Until.{Turn, Timers, update_until}
use rankedftw.Update.Ends.{IsSaved, update_until-IsSaved}
use rankedftw.Update.Copy.{Copying, copy_ranking, in_sources}
use rankedftw.Update.Copied.{content, copy_ranking-sources}
use rankedftw.Update.Switch.{switch_season}
use rankedftw.Update.Partition.{batches-perm}
use rankedftw.Enums.League as League
use rankedftw.Update.Batches.{Thread, start_gm, gm_batch, plat_batch, rest_batch}
use rankedftw.Update.Interleave.{all_items, interleave-perm}
use rankedftw.Update.Fairness.{yielded, yielded-mem}
use rankedftw.Update.Queues.{Queue, interleave, add}
use rankedftw.Prelude.Sort.{sort_by}
use rankedftw.Prelude.Objects.{filter}
use rankedftw.Prelude.Clock.{Time, day, from_unix}
use rankedftw.Refetch.{Cpp}
use rankedftw.Fetch.Cached.{FetchedLadder}
use rankedftw.Store.{Ranking, Ladder, created_status}
use rankedftw.Store.Sample.{sample_db, sample_ranking, good_ladder, cache_of}
use rankedftw.Season.Sample.{season_29}
use rankedftw.Prelude.Result.{ok}
use rankedftw.Update.{Fetched, delay_after}
use rankedftw.Prelude.{
  none, ◌++◌, ◌*◌, some, map, length, [], arith, ◌+◌, replicate, refl, ◌≡◌, ◌∷◌, ◌≤◌, ℕ, List,
}
use rankedftw.Update.Backoff.{AllBad}

abbrev fetched_with : ℕ → Fetched
fetched_with status = record { status = status; queue_length = 0 }

abbrev bad_run : List Fetched
bad_run = replicate 9 (fetched_with 503)

bad_run-AllBad : AllBad bad_run
bad_run-AllBad = (refl, (refl, (refl, (refl, (refl, (refl, (refl, (refl, (refl, tt)))))))))

delays : delay_after 1 bad_run ≡ 257
unfolding delay_after
delays = refl

abbrev cpp : Cpp
cpp = record {
  load = λ id. ok tt;
  update_with_ladder = λ call. ok tt;
  min_max_data_time = (1000000000, 1500000000);
  save_data = λ id season. ok tt;
  save_stats = λ id. ok tt;
}

abbrev now : Time
now = 737000 * day

abbrev fetched : FetchedLadder
fetched = record {
  status = 200;
  fetch_time = now;
  url = "ladder";
  text = some "{}";
  max_points = ok none;
  last_join = ok none;
  member_count = ok 1;
  members_for_ranking = λ size. ok [];
}

-- Two queues with ladders, and one that is empty.
abbrev queues : List (Queue ℕ)
queues = ((1 ∷ 2 ∷ []) ∷ (3 ∷ []) ∷ []) ∷ [] ∷ ((4 ∷ 5 ∷ []) ∷ []) ∷ []

yields : interleave queues ≡ some (1 ∷ 4 ∷ 2 ∷ 5 ∷ 3 ∷ [])
unfolding interleave
yields = refl

interleave-perm_example : (ys : List ℕ) × (interleave queues ≡ some ys) × Perm ys (all_items queues)
interleave-perm_example = interleave-perm queues

yielded-mem_example :
    (ys : List ℕ) × (interleave queues ≡ some ys)
    × ((zs : List ℕ) × (ys ≡ yielded 2 queues ++ zs))
    × Mem 2 (yielded 2 queues)
yielded-mem_example = yielded-mem (1 ∷ []) 2 [] ((3 ∷ []) ∷ []) [] ([] ∷ ((4 ∷ 5 ∷ []) ∷ []) ∷ [])

abbrev waiting : Queue ℕ
waiting = (7 ∷ []) ∷ []

-- A batch is tested, and written after a turn of the fetcher.
abbrev one_batch : Reach {A = ℕ} (waiting, none)
one_batch =
    then (then (then start (test (7 ∷ []) [] refl)) (turn [] (some (7 ∷ [])))) (write (7 ∷ []) [])

Reach-le_example : length waiting ≤ 2
Reach-le_example = Reach-le waiting none one_batch

batches-perm_example :
    Perm
      (gm_batch sample_db.ladders 29 Region.eu
        ++ (plat_batch sample_db.ladders 29 Region.eu ++ rest_batch sample_db.ladders 29 Region.eu))
      (good_ladder ∷ [])
batches-perm_example = batches-perm sample_db.ladders 29 Region.eu

season_kept : (switch_season season_29 sample_db).0 ≡ ok season_29
unfolding switch_season
season_kept = refl

-- A run of two turns, of which the second is past the end.
abbrev turn_at : Time → Turn
turn_at t = record {
  now = t;
  saved_at = t;
  popped = some (good_ladder, fetched);
  fetchers = λ threads. threads;
  cpp = cpp;
  ping = ok tt;
}

abbrev timers : Timers
timers = record {
  last_save = now;
  last_season_check = now;
  last_gm = 0;
  last_plat = 0;
  last_rest = 0;
  threads = [];
  ranking = sample_ranking;
}

abbrev run : List Turn
run = turn_at (now + 1) ∷ []

abbrev saved : Ranking
saved = record sample_ranking {
  data_time = from_unix 1500000000;
  min_data_time = from_unix 1000000000;
  max_data_time = from_unix 1500000000;
}

saved_lem : (update_until now (now + day) [] cpp (ok tt) run sample_ranking sample_db).0 ≡ ok saved
unfolding update_until
saved_lem = refl

update_until-IsSaved_example :
    IsSaved 5 saved (update_until now (now + day) [] cpp (ok tt) run sample_ranking sample_db).1
update_until-IsSaved_example =
    update_until-IsSaved now (now + day) [] cpp (ok tt) run sample_ranking saved sample_db saved_lem

abbrev copying : Copying
copying = record {
  created = now;
  members = λ cache size. ok [];
  update_with_ladder = λ call. ok tt;
}

abbrev copied_ranking : Ranking
copied_ranking = record sample_ranking { id = 6; created = now; status = created_status }

copied_lem : (copy_ranking copying sample_ranking 29 now sample_db).0 ≡ ok copied_ranking
unfolding copy_ranking
copied_lem = refl

copy_ranking-sources_example :
    (map content
        (filter (in_sources 6) (copy_ranking copying sample_ranking 29 now sample_db).1.caches)
      ≡ map content (cache_of 1 1 (some 5) ∷ []))
    × (filter (in_sources 5) (copy_ranking copying sample_ranking 29 now sample_db).1.caches
        ≡ cache_of 1 1 (some 5) ∷ [])
copy_ranking-sources_example =
    copy_ranking-sources copying sample_ranking 29 now copied_ranking sample_db
      (omega arith, (omega arith, tt)) refl (omega arith) copied_lem

-- Two grandmaster ladders: the one that was updated last is the first to be fetched.
abbrev gm_ladder : ℕ → Time → Ladder
gm_ladder id updated = record good_ladder {
  id = id;
  updated = updated;
  league = League.grandmaster;
}

abbrev idle : Thread
idle = record { region = Region.eu; gm_batches = []; plat_batches = []; rest_batches = [] }

abbrev gm_queues : List Thread → List (Queue Ladder)
gm_queues threads = map (λ (t : Thread). t.gm_batches) threads

newest_first :
    interleave (gm_queues (start_gm (gm_ladder 1 10 ∷ gm_ladder 2 20 ∷ []) 29 (idle ∷ [])))
    ≡ some (gm_ladder 2 20 ∷ gm_ladder 1 10 ∷ [])
unfolding interleave add gm_batch sort_by
newest_first = refl
