-- ===== src/Refetch/Missing.antt =====
-- `refetch_missing` of main/refetch.py.
use rankedftw.Prelude.Sort.{sort_by}
use rankedftw.Store.Rows.{save_ladder, save_cache}
use rankedftw.Fetch.Rows.{is_type, is_cache}
use rankedftw.Update.Batches.{is_good_strangeness}
use rankedftw.Prelude.Objects.{filter, get}
use rankedftw.Prelude.Clock.{hour, Time}
use rankedftw.Prelude.Int.{◌==ℤ◌, ℤ}
use rankedftw.Prelude.Result.{
  overflow_error, does_not_exist, or_raise, attribute_error, raise_if, err, ok, Result,
}
use rankedftw.Prelude.{
  ◌-◌, none, not, leb, ◌*◌, some, ◌&&◌, take, ltb, [], ◌+◌, map, false, ◌∷◌, ◌==◌, true, Option, ℕ,
  if◌then◌else◌, List, Bool,
}
use rankedftw.Store.Keys.{find}
use rankedftw.Fetch.Answers.{LadderAnswer, with_columns, info}
use rankedftw.Store.{Ladder, Cache, Db, Strangeness, missing, ladder_type}
use rankedftw.Store.Action.{Action, ◌>>=◌, ◌>>◌, lift, query, modify, atomic, pure}

-- One value for each call, by the place of the ladder in the list.
pub record MissingRun : Type 0 where
  pub check_stop : ℕ → Result (Unit {0})
  pub fetch_ladder : ℕ → ℕ → LadderAnswer

abbrev pub is_missing : Strangeness → Bool
is_missing missing = true
is_missing _ = false

abbrev pub ladder_key : Ladder → ℕ
ladder_key l = l.id

abbrev pub cache_key : Cache → ℕ
cache_key c = c.id

-- `cache.ladder`, and the condition on it, which no cache without a ladder meets.
abbrev pub ladder_behind : List Ladder → Option ℕ → Result Ladder
ladder_behind ladders none = err attribute_error
ladder_behind ladders (some id) = or_raise (find ladder_key id ladders) does_not_exist

abbrev pub ladder_missing : Result Ladder → Bool
ladder_missing (ok l) = is_missing l.strangeness
ladder_missing (err e) = false

abbrev pub is_candidate : ℤ → ℕ → Time → List Ladder → Cache → Bool
is_candidate region max_retries limit ladders c =
    (c.region ==ℤ region)
    && is_type c.type ladder_type
    && ltb c.retry_count max_retries
    && ladder_missing (ladder_behind ladders c.ladder_id)
    && not (ltb limit c.updated)

unfoldable pub missing_bids : ℤ → ℕ → Time → Db → List ℕ
missing_bids region max_retries limit db =
    map (λ (c : Cache). c.bid)
      (take 800 (
        sort_by (λ (c d : Cache). leb d.bid c.bid)
          (filter (is_candidate region max_retries limit db.ladders) db.caches)))

-- The row of the cache and that of the ladder, with the answer.
abbrev pub refetched_cache : LadderAnswer → Cache → Cache
refetched_cache res c = record c {
  status = res.status;
  text = res.text;
  updated = res.fetch_time;
  retry_count = if res.status == 200 then 0 else c.retry_count + 1;
}

unfoldable pub refetched_ladder : LadderAnswer → Ladder → Result Ladder
refetched_ladder res ladder =
    let seen = record ladder { updated = res.fetch_time } in
    if res.status == 200
    then with_columns seen res.max_points res.first_join res.last_join res.member_count
    else ok seen

-- `ladder.info()` is part of the log line on a ladder that is good.
abbrev pub log_outcome : Ladder → Result (Unit {0})
log_outcome ladder = if is_good_strangeness ladder.strangeness then info ladder else ok tt

unfoldable pub refetch_one : ℤ → ℕ → LadderAnswer → Action (Unit {0})
unfolding refetched_ladder info
refetch_one region bid res = atomic (do
  cache ← query (λ db. get (is_cache region ladder_type bid) db.caches)
  ladder ← query (λ db. ladder_behind db.ladders cache.ladder_id)
  seen ← lift (refetched_ladder res ladder)
  modify (save_cache (refetched_cache res cache))
  modify (save_ladder seen)
  lift (log_outcome seen))

unfoldable pub refetch_all : MissingRun → ℤ → ℕ → List ℕ → Action (Unit {0})
unfolding refetch_one
refetch_all run region count [] = pure tt
refetch_all run region count (bid ∷ bids) =
    let rest = refetch_all run region (count + 1) bids in
    let res = run.fetch_ladder count bid in
    do
      lift (run.check_stop count)
      if res.status == 503 then pure tt else (do refetch_one region bid res; rest)

unfoldable pub refetch_missing : MissingRun → ℤ → ℕ → ℕ → Time → Action (Unit {0})
unfolding missing_bids refetch_all
refetch_missing run region max_retries min_age now = do
  lift (raise_if (ltb now (min_age * hour)) overflow_error)
  bids ← query (λ db. ok (missing_bids region max_retries (now - min_age * hour) db))
  refetch_all run region 1 bids
