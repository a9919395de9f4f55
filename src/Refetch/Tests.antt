-- ===== src/Refetch/Tests.antt =====
-- Refetches of a small table.
use rankedftw.Prelude.Sort.{sort_by}
use rankedftw.Season.{is_open, end_time}
use rankedftw.Prelude.{inl, inr, ◌∷◌, [], refl, none, arith, ◌≡◌, ◌*◌, some, true}
use rankedftw.Prelude.Result.{ok}
use rankedftw.Prelude.Clock.{combine_max, day, from_unix, Time}
use rankedftw.Store.{Ranking}
use rankedftw.Fetch.Answers.{LadderAnswer}
use rankedftw.Fetch.Cached.{FetchedLadder}
use rankedftw.Enums.Region as Region
use rankedftw.Store.Keys.{find}
use rankedftw.Store.Sample.{sample_db, sample_ranking, sea_ladder}
use rankedftw.Season.Sample.{season_28, season_29}
use rankedftw.Refetch.{Cpp, set_data_time}
use rankedftw.Refetch.Missing.{MissingRun, refetch_missing, ladder_key, missing_bids}
use rankedftw.Refetch.Past.{PastRun, refetch_past_season}
use rankedftw.Refetch.Due.{refetch_past_season-find}

abbrev pub cpp : Cpp
cpp = record {
  load = λ id. ok tt;
  update_with_ladder = λ call. ok tt;
  min_max_data_time = (1000000000, 1500000000);
  save_data = λ id season. ok tt;
  save_stats = λ id. ok tt;
}

abbrev now : Time
now = 737000 * day

abbrev answer : LadderAnswer
answer = record {
  status = 200;
  fetch_time = now;
  url = "ladder";
  text = some "{}";
  max_points = ok none;
  first_join = ok none;
  last_join = ok none;
  member_count = ok 1;
}

abbrev missing_run : MissingRun
missing_run = record { check_stop = λ count. ok tt; fetch_ladder = λ count bid. answer }

-- The missing ladder is found, and good afterwards.
bids : missing_bids Region.eu 3 now sample_db ≡ 102 ∷ []
unfolding missing_bids sort_by
bids = refl

found_again : (refetch_missing missing_run Region.eu 3 24 now sample_db).0 ≡ ok tt
unfolding refetch_missing sort_by
found_again = refl

abbrev pub fetched : FetchedLadder
fetched = record {
  status = 200;
  fetch_time = now;
  url = "ladder";
  text = some "{}";
  max_points = ok none;
  last_join = ok none;
  member_count = ok 1;
  members_for_ranking = λ size. ok [];
}

abbrev past_run : PastRun
past_run = record { check_stop = λ count. ok tt; fetch_ladder = λ count ladder. fetched; cpp = cpp }

-- The ladder of SEA stays as it was, the other good one is refetched.
refetched : (refetch_past_season past_run season_29 now true sample_db).0 ≡ ok tt
unfolding refetch_past_season sort_by
refetched = refl

refetch_past_season-find_example :
    find ladder_key 3 (refetch_past_season past_run season_29 now true sample_db).1.ladders
    ≡ some sea_ladder
refetch_past_season-find_example =
    refetch_past_season-find past_run season_29 now true sample_db 3 sea_ladder
      ((ground arith, (ground arith, tt)), ((ground arith, tt), (tt, tt))) refl (inr (inl refl))

abbrev timed : Ranking
timed = record sample_ranking {
  data_time = combine_max 736380;
  min_data_time = from_unix 1000000000;
  max_data_time = from_unix 1500000000;
}

timed_lem : set_data_time season_28 cpp.min_max_data_time sample_ranking ≡ ok timed
unfolding set_data_time from_unix end_time is_open
timed_lem = refl
