-- ===== src/FetchNew/Switch.antt =====
-- `update_season_cache` and `fetch_new` of main/fetch_new.py: the season that the API reports against
-- the one of the table, and the fetch of a region after that.
use rankedftw.Store.Rows.{save_cache}
use rankedftw.Fetch.Rows.{create_cache, is_cache}
use rankedftw.Season.Chain.{IsChain}
use rankedftw.Season.{near_start, lte_date, get_current_season}
use rankedftw.Prelude.Objects.{get}
use Prim.Native.String.{String}
use rankedftw.Fetch.Answers.{Run}
use rankedftw.Prelude.Int.{ℤ}
use rankedftw.Prelude.{
  arith, Bool-cases, inl, inr, List, refl, false, ◌+◌, zero, ◌==◌, suc, ◌≡◌, true, if◌then◌else◌,
  Option, none, Bool, ℕ,
}
use rankedftw.Fetch.{on_found, fetch_new_in_region}
use rankedftw.Prelude.Clock.{date, Day, Time}
use rankedftw.Store.{Db, season_type, Season, Cache}
use rankedftw.Store.Action.{Action, lift, query, modify, pure, raise, atomic, continue, ◌>>=◌}
use rankedftw.Prelude.Result.{Result-cases, Result, ok, err, does_not_exist, exception_raised}
use rankedftw.FetchNew.{create_new_season}
use rankedftw.FetchNew.Chain.{create_new_season-IsChain}

-- An answer of `fetch_current_season`, with the methods of `ApiSeason`, which raise on data they do
-- not expect.
pub record SeasonAnswer : Type 0 where
  pub status : ℕ
  pub fetch_time : Time
  pub url : String
  pub text : Option String
  pub season_id : Result ℕ
  pub start_date : Result Day

-- The answers and the calls of `check_stop` by the try, the time, and the region's own fetch.
pub record SeasonRun : Type 0 where
  pub check_stop : ℕ → Result (Unit {0})
  pub answer : ℕ → SeasonAnswer
  pub now : Time
  pub region : ℤ
  pub run : Run

abbrev season_cache : ℤ → SeasonAnswer → Cache
season_cache region res = record {
  id = 0;
  url = res.url;
  bid = 1;
  type = season_type;
  region = region;
  status = res.status;
  created = res.fetch_time;
  updated = res.fetch_time;
  text = res.text;
  retry_count = 0;
  ranking_id = none;
  ladder_id = none;
}

unfoldable pub update_season_cache : ℤ → SeasonAnswer → Action (Unit {0})
update_season_cache region res = do
  found ← query (λ db. ok (get (is_cache region season_type 1) db.caches))
  on_found found (λ c. modify (save_cache (record c { updated = res.fetch_time; text = res.text })))
      (create_cache (season_cache region res))

-- The code for an answer with status 200, which says whether the fetch goes on to the region.
unfoldable pub on_season : Season → Time → SeasonAnswer → Action Bool
unfolding create_new_season
on_season current now res = do
  id ← lift res.season_id
  if current.id == id
      then pure true
      else if current.id + 1 == id
      then (do start ← lift res.start_date; done ← create_new_season current start; pure false)
      else (do
        near ← lift (near_start current (date now) 2)
        if near then pure false else raise exception_raised)

-- The tries of `range(1, 3)`.
unfoldable pub check_season : SeasonRun → Season → ℕ → ℕ → Action Bool
unfolding update_season_cache on_season
check_season r current count zero = pure true
check_season r current count (suc left) =
    let rest = check_season r current (count + 1) left in
    let res = r.answer count in
    do
      stop ← lift (r.check_stop count)
      if res.status == 200
          then (do done ← update_season_cache r.region res; on_season current r.now res)
          else rest

unfoldable pub fetch_new : SeasonRun → Action (Unit {0})
unfolding check_season fetch_new_in_region get_current_season
fetch_new r = do
  (current, goes_on) ← atomic (do
    current ← query (λ db. get_current_season db.seasons)
    goes_on ← check_season r current 1 2
    pure (current, goes_on))
  if goes_on then fetch_new_in_region r.run current r.region else pure tt

-- The API does not report that the next season has started before the current one.
pub record IsOrdered (r : SeasonRun) (current : Season) : Type 0 where
  pub order :
      (count : ℕ) (start : Day)
      → (r.answer count).season_id ≡ ok (current.id + 1)
      → (r.answer count).start_date ≡ ok start
      → lte_date current.start_date start ≡ true

ignored : (out : Result (Unit {0}) × Db) → (continue (λ done. pure false) out).1 ≡ out.1
ignored (ok done, db) = refl
ignored (err e, db) = refl

near_seasons :
    (near : Result Bool) (db : Db)
    → ((lift near >>= λ b. if b then pure false else raise {A = Bool} exception_raised) db).1 ≡ db
near_seasons (ok true) db = refl
near_seasons (ok false) db = refl
near_seasons (err e) db = refl

cached-seasons :
    (region : ℤ) (res : SeasonAnswer) (db : Db)
    → (update_season_cache region res db).1.seasons ≡ db.seasons
unfolding update_season_cache
cached-seasons region res db = found_cases (get (is_cache region season_type 1) db.caches)
  where
    found_cases :
        (found : Result Cache)
        → (on_found found
            (λ c. modify (save_cache (record c { updated = res.fetch_time; text = res.text })))
            (create_cache (season_cache region res))
            db).1.seasons
          ≡ db.seasons
    found_cases (ok c) = refl
    found_cases (err does_not_exist) = refl
    found_cases (err x) = refl

module _ (n : ℕ) (d : Day) (r : SeasonRun) (current : Season) (ordered : IsOrdered r current) where
  abbrev IsReady : List Season → Type 0
  IsReady seasons = IsChain n d seasons × (get_current_season seasons ≡ ok current)

  on_season-IsChain :
      (count : ℕ) (db : Db)
      → IsReady db.seasons
      → IsChain n d (on_season current r.now (r.answer count) db).1.seasons
  unfolding on_season
  on_season-IsChain count db h = elim (Result-cases (r.answer count).season_id) [
    | inr (e, raised) ↦ rw raised h.0
    | inl (id, reported) ↦ elim (Bool-cases (current.id == id)) [
      | inl latest ↦ rw (reported, latest) h.0
      | inr differs ↦ elim (Bool-cases (current.id + 1 == id)) [
        | inr far ↦
            rw (reported, differs, far, near_seasons (near_start current (date r.now) 2) db) h.0
        | inl next ↦ elim (Result-cases (r.answer count).start_date) [
          | inr (e, raised) ↦ rw (reported, differs, next, raised) h.0
          | inl (start, known) ↦
              rw (reported, differs, next, known, ignored (create_new_season current start db))
                (create_new_season-IsChain current start db h.0 h.1
                  (ordered.order count start (ground (arith, reported, next)) known))
        ]
      ]
    ]
  ]

  after_cache :
      (count : ℕ) (out : Result (Unit {0}) × Db)
      → IsReady out.1.seasons
      → IsChain n d (continue (λ done. on_season current r.now (r.answer count)) out).1.seasons
  after_cache count (ok done, db) h = on_season-IsChain count db h
  after_cache count (err e, db) h = h.0

  -- Where the table of seasons is a chain with the given season as its current one, and no answer
  -- that reports the next season has a start date before the start of the current one, the table is
  -- a chain from the same first season after the tries of `fetch_new`, whether or not they raise.
  pub check_season-IsChain :
      (count left : ℕ) (db : Db)
      → IsChain n d db.seasons
      → get_current_season db.seasons ≡ ok current
      → IsChain n d (check_season r current count left db).1.seasons
  unfolding check_season
  check_season-IsChain count zero db c g = c
  check_season-IsChain count (suc left) db c g = elim (Result-cases (r.check_stop count)) [
    | inr (e, raised) ↦ rw raised c
    | inl (go, passed) ↦ elim (Bool-cases ((r.answer count).status == 200)) [
      | inr failed ↦ rw (passed, failed) (check_season-IsChain (count + 1) left db c g)
      | inl arrived ↦
          rw (passed, arrived)
            (after_cache count (update_season_cache r.region (r.answer count) db)
              (rw (cached-seasons r.region (r.answer count) db) (c, g)))
    ]
  ]
