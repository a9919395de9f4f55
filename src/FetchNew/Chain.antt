-- ===== src/FetchNew/Chain.antt =====
-- The table of seasons through `create_new_season` of main/fetch_new.py.
use rankedftw.Prelude.Result.{ok}
use rankedftw.Season.{get_current_season, end_time, lte_date, is_current}
use rankedftw.Store.Rows.{save_ranking, save_row_miss, save_row}
use rankedftw.Prelude.Objects.{only-eq-ok, filter}
use rankedftw.Prelude.Clock.{year, combine_max, second, Time, Day}
use rankedftw.Prelude.{
  ◌==◌, if◌then◌else◌, ◌*◌, ◌-◌, ◌≢◌, refl, true, arith, [], ◌∷◌, ◌+◌, ◌≤◌, ◌≡◌, some, List, ℕ,
}
use rankedftw.Store.{Db, Ranking, Season}
use rankedftw.FetchNew.{late_rankings, fix_rankings, create_new_season, started, empty_season}
use rankedftw.Season.Queries.{get_next_lem, has_id, coming_not_current}
use rankedftw.Season.Chain.{IsChain, IsComing, open_season, closed_season}

abbrev saved : Season → List Season → List Season
saved = save_row (λ (t : Season). t.id)

-- The current season of a chain from `n` has an id of at least `n`.
current_id :
    {n : ℕ} {d : Day} {seasons : List Season} (current : Season)
    → IsChain n d seasons
    → filter is_current seasons ≡ current ∷ []
    → n ≤ current.id
current_id current (open_season {s = s} {rest = rest} i st en c) f =
    ground (arith, coming_not_current _ rest c)
current_id current (closed_season {s = s} {rest = rest} e i st en le c) f =
    ground (arith, current_id current c)

module _ (current : Season) (end_date : Day) where
  abbrev ended : Season
  ended = record current { end_date = some end_date }

  -- The table after the three saves, with the coming season that was found.
  abbrev renewed : Season → List Season → List Season
  renewed coming seasons =
      saved (empty_season (coming.id + 1))
        (saved (started ended coming end_date) (saved ended seasons))

  -- What the saves make of a table that starts with the season `n` on day `d`.
  record Renews (n : ℕ) (d : Day) (seasons : List Season) : Type 0 where
    coming : Season
    next_id : coming.id ≡ current.id + 1
    found : filter (has_id (current.id + 1)) (saved ended seasons) ≡ coming ∷ []
    chain : IsChain n d (renewed coming seasons)
    now : filter is_current (renewed coming seasons) ≡ started ended coming end_date ∷ []

  Renews-coming :
      {n : ℕ} {d : Day} (s : Season) (rest : List Season)
      → s ≡ current
      → s.id ≡ n
      → s.start_date ≡ some d
      → d ≤ end_date
      → IsComing (n + 1) rest
      → Renews n d (s ∷ rest)
  unfolding save_row
  Renews-coming s [] same i st le c = absurd c
  Renews-coming s (next ∷ []) same i st le c =
      let all : renewed next (s ∷ next ∷ [])
          ≡ ended ∷ started ended next end_date ∷ empty_season (next.id + 1) ∷ [] =
        ground arith in
      record {
        coming = next;
        next_id = ground arith;
        found = ground arith;
        chain = rw all (
            closed_season end_date (ground arith) (ground arith) refl le
              (open_season (ground arith) refl (ground arith) (ground arith)));
        now = rw all (ground arith);
      }
  Renews-coming s (next ∷ u ∷ rest) same i st le c = absurd c

  Renews-later :
      {n : ℕ} {d e : Day} (s : Season) (rest : List Season)
      → s.id ≡ n
      → s.start_date ≡ some d
      → s.end_date ≡ some e
      → d ≤ e
      → n + 1 ≤ current.id
      → Renews (n + 1) (e + 1) rest
      → Renews n d (s ∷ rest)
  Renews-later {e = e} s rest i st en le later r =
      let past = λ (x : Season) (ys : List Season) (h : s.id ≢ x.id).
        save_row_miss (λ (t : Season). t.id) x s ys h in
      let all : renewed r.coming (s ∷ rest) ≡ s ∷ renewed r.coming rest = cc (
        past (empty_season (r.coming.id + 1))
            (saved (started ended r.coming end_date) (saved ended rest)) (omega arith),
        past (started ended r.coming end_date) (saved ended rest) (omega arith),
        past ended rest (omega arith),
      ) in
      record {
        coming = r.coming;
        next_id = r.next_id;
        found = rw (past ended rest (omega arith)) (ground (arith, r.found));
        chain = rw all (closed_season e i st en le r.chain);
        now = rw all (ground (arith, r.now));
      }

  chain-Renews :
      {n : ℕ} {d : Day} {seasons : List Season}
      → IsChain n d seasons
      → filter is_current seasons ≡ current ∷ []
      → lte_date current.start_date end_date ≡ true
      → Renews n d seasons
  chain-Renews (open_season {s = s} {rest = rest} i st en c) f h =
      Renews-coming s rest (ground (arith, coming_not_current _ rest c)) i st
        (ground (arith, coming_not_current _ rest c)) c
  chain-Renews (closed_season {s = s} {rest = rest} e i st en le c) f h =
      let later : filter is_current rest ≡ current ∷ [] = ground arith in
      Renews-later s rest i st en le (current_id current c later) (chain-Renews c later h)

seasons-fix_rankings :
    (i : ℕ) (finish : Time) (rankings : List Ranking) (db : Db)
    → (fix_rankings i finish rankings db).1.seasons ≡ db.seasons
unfolding fix_rankings
seasons-fix_rankings i finish [] db = refl
seasons-fix_rankings i finish (r ∷ rankings) db = ground (
  arith,
  seasons-fix_rankings (i + 1) finish rankings
      (save_ranking (record r { data_time = finish - i * second }) db),
)

-- What `create_new_season` does after it has found the coming season.
runs :
    {n : ℕ} {d : Day} (current : Season) (end_date : Day) (db : Db)
    → (r : Renews current end_date n d db.seasons)
    → create_new_season current end_date db
      ≡ fix_rankings 0
          (combine_max end_date)
          (late_rankings current.id (combine_max end_date) db.rankings)
          (record db { seasons = renewed current end_date r.coming db.seasons })
unfolding create_new_season end_time
runs current end_date db r =
    rw (get_next_lem (saved (ended current end_date) db.seasons) (ended current end_date), r.found)

-- Where the table of seasons is a chain, the given season is its current one and the end date is
-- not before its start, the table of seasons is a chain again after the switch, from the same first
-- season, whether or not the change of a data time raises.
pub create_new_season-IsChain :
    {n : ℕ} {d : Day} (current : Season) (end_date : Day) (db : Db)
    → IsChain n d db.seasons
    → get_current_season db.seasons ≡ ok current
    → lte_date current.start_date end_date ≡ true
    → IsChain n d (create_new_season current end_date db).1.seasons
unfolding get_current_season
create_new_season-IsChain current end_date db c g h =
    let r = chain-Renews current end_date c (only-eq-ok (filter is_current db.seasons) g) h in
    rw
      (
        runs current end_date db r,
        seasons-fix_rankings 0 (combine_max end_date)
            (late_rankings current.id (combine_max end_date) db.rankings)
            (record db { seasons = renewed current end_date r.coming db.seasons }),
      )
      r.chain

-- Where the table of seasons is a chain, the given season is its current one and the end date is
-- not before its start, the current season after the switch is the one of the next id. It starts on
-- the day after the end date, in the year of that day, as number 1 or, in the year of the old
-- season, as the number after the old one.
create_new_season-current :
    {n : ℕ} {d : Day} (current : Season) (end_date : Day) (db : Db)
    → IsChain n d db.seasons
    → get_current_season db.seasons ≡ ok current
    → lte_date current.start_date end_date ≡ true
    → (next : Season) × (get_current_season (create_new_season current end_date db).1.seasons
        ≡ ok next)
      × (next.id ≡ current.id + 1)
      × (next.start_date ≡ some (end_date + 1))
      × (next.year ≡ year (end_date + 1))
      × (next.number ≡ (if next.year == current.year then current.number + 1 else 1))
unfolding get_current_season
create_new_season-current current end_date db c g h =
    let r = chain-Renews current end_date c (only-eq-ok (filter is_current db.seasons) g) h in
    (
      started (ended current end_date) r.coming end_date,
      rw (
        runs current end_date db r,
        seasons-fix_rankings 0 (combine_max end_date)
            (late_rankings current.id (combine_max end_date) db.rankings)
            (record db { seasons = renewed current end_date r.coming db.seasons }),
        r.now,
      ),
      r.next_id,
      refl,
      refl,
      refl,
    )
