-- ===== src/Fetch/Regions.antt =====
-- What `fetch_new_in_league` and `fetch_new_in_region` of main/fetch.py make sure of.
use rankedftw.Enums.{ranking_ids}
use rankedftw.Fetch.Tries.{tries_settle, tries_fail, IsRetried}
use rankedftw.Fetch.Ladders.{has_ladder}
use rankedftw.Fetch.Leagues.{
  fetch_league-Extends, Ext-continue, Extends-refl, update_cache-Extends, ensure_tiers-Extends,
  ensure_ladders-Extends, ensure_ladder-Ensured, Extends, IsLadderTable,
}
use rankedftw.Store.{Season, Db}
use rankedftw.Prelude.{
  ◌&&◌, if◌then◌else◌, not, Bool, zero, Option, false, none, ◌+◌, ◌<◌, zero, [], suc, arith, refl,
  ◌∷◌, some, true, get_elem?, ◌≡◌, List, ℕ,
}
use rankedftw.Fetch.{
  fetch_modes, fetch_leagues, fetch_new_in_region, on_league, update_league_cache, save_league,
  fetch_new_in_league, ensure_tiers, ensure_ladder, ensure_ladders,
}
use rankedftw.Fetch.Rows.{Target}
use rankedftw.Prelude.Int.{◌==ℤ◌, ℤ}
use rankedftw.Fetch.Answers.{at_league, tries, at_try, at_tier, LeagueAnswer, Run}
use mathlib.Core.List.{reverse}
use rankedftw.Enums.League
use rankedftw.Enums.Mode
use rankedftw.Enums.Version
use rankedftw.Prelude.Result.{Error, Result, ok, err}
use rankedftw.Store.Action.{pure, rollback, Action, lift, continue, ◌>>=◌, ◌>>◌}

-- The second of two steps does not take away what the first has ensured.
then_has :
    (region : ℤ) (bid : ℕ) (rest : Action (Unit {0})) (r : Result (Unit {0}) × Db)
    → (r.0 ≡ ok tt → has_ladder region bid r.1.ladders ≡ true)
    → IsLadderTable r.1
    → Extends r.1 (rest r.1).1
    → (continue (λ _. rest) r).0 ≡ ok tt
    → has_ladder region bid (continue (λ _. rest) r).1.ladders ≡ true
then_has region bid rest (ok done, now) h t grown fine = (grown t).1 region bid (h refl)
then_has region bid rest (err e, now) h t grown fine = cc fine

-- What the second step ensures whenever it is reached holds after both.
bind_has :
    {A : Type 0} (region : ℤ) (bid : ℕ) (f : A → Action (Unit {0})) (r : Result A × Db)
    → ((a : A)
        → r.0 ≡ ok a
        → (f a r.1).0 ≡ ok tt
        → has_ladder region bid (f a r.1).1.ladders ≡ true)
    → (continue f r).0 ≡ ok tt
    → has_ladder region bid (continue f r).1.ladders ≡ true
bind_has region bid f (ok a, now) h fine = h a refl fine
bind_has region bid f (err e, now) h fine = cc fine

module _ (run : Run) (target : Target) where
  ensure_ladders-has :
      (tier : ℕ) (bids : List ℕ) (i : ℕ) {bid : ℕ} (db : Db)
      → IsLadderTable db
      → (ensure_ladders run target tier bids db).0 ≡ ok tt
      → get_elem? bids i ≡ some bid
      → has_ladder target.region bid (ensure_ladders run target tier bids db).1.ladders ≡ true
  unfolding ensure_ladders
  ensure_ladders-has tier [] i db t fine at = cc at
  ensure_ladders-has tier (b ∷ bids) zero {bid} db t fine at =
      let first = ensure_ladder-Ensured run target tier b db in
      then_has target.region bid (ensure_ladders run target tier bids)
        (ensure_ladder run target tier b db)
        (λ done. let same : b ≡ bid = ground (arith, at) in rw (← same) (first.1 t done))
        (first.0 t).0
        (ensure_ladders-Extends run target tier bids (ensure_ladder run target tier b db).1) fine
  ensure_ladders-has tier (b ∷ bids) (suc i) {bid} db t fine at =
      bind_has target.region bid (λ _. ensure_ladders run target tier bids)
        (ensure_ladder run target tier b db)
        (λ done e later.
          ensure_ladders-has tier bids i (ensure_ladder run target tier b db).1
            ((ensure_ladder-Ensured run target tier b db).0 t).0 later at)
        fine

  module _ (res : LeagueAnswer) where
    ensure_tiers-has :
        (tiers : List ℕ) (j tier : ℕ) (bids : List ℕ) (i : ℕ) {bid : ℕ} (db : Db)
        → IsLadderTable db
        → (ensure_tiers run target res tiers db).0 ≡ ok tt
        → get_elem? tiers j ≡ some tier
        → res.tier_bids tier ≡ ok bids
        → get_elem? bids i ≡ some bid
        → has_ladder target.region bid (ensure_tiers run target res tiers db).1.ladders ≡ true
    unfolding ensure_tiers
    ensure_tiers-has [] j tier bids i db t fine there known at = cc there
    ensure_tiers-has (x ∷ tiers) zero tier bids i {bid} db t fine there known at =
        let same : x ≡ tier = ground (arith, there) in
        let rest = ensure_tiers run target res tiers in
        bind_has target.region bid
          (λ _. lift (res.tier_bids x) >>= λ bids. ensure_ladders run target x bids >> rest)
          (run.check_stop (at_tier target.mode target.league x), db)
          (λ done e later.
            bind_has target.region bid (λ bids. ensure_ladders run target x bids >> rest)
              (res.tier_bids x, db)
              (λ listed l last.
                let same_bids : listed ≡ bids = ground (arith, l, known, same) in
                then_has target.region bid rest (ensure_ladders run target x listed db)
                  (λ went. ensure_ladders-has x listed i db t went (rw same_bids at))
                  (ensure_ladders-Extends run target x listed db t).0
                  (ensure_tiers-Extends run target res tiers
                    (ensure_ladders run target x listed db).1)
                  last)
              later)
          fine
    ensure_tiers-has (x ∷ tiers) (suc j) tier bids i {bid} db t fine there known at =
        let rest = ensure_tiers run target res tiers in
        bind_has target.region bid
          (λ _. lift (res.tier_bids x) >>= λ bids. ensure_ladders run target x bids >> rest)
          (run.check_stop (at_tier target.mode target.league x), db)
          (λ done e later.
            bind_has target.region bid (λ bids. ensure_ladders run target x bids >> rest)
              (res.tier_bids x, db)
              (λ listed l last.
                bind_has target.region bid (λ _. rest) (ensure_ladders run target x listed db)
                  (λ went w end.
                    ensure_tiers-has tiers j tier bids i (ensure_ladders run target x listed db).1
                      (ensure_ladders-Extends run target x listed db t).0 end there known at)
                  last)
              later)
          fine

rollback_ok :
    {A : Type 0} (old : Db) (r : Result A × Db) {a : A}
    → (rollback old r).0 ≡ ok a
    → rollback old r ≡ r
rollback_ok old (ok x, new) e = refl
rollback_ok old (err x, new) e = cc e

rollback_err :
    {A : Type 0} (old : Db) (r : Result A × Db) {e : Error}
    → (rollback old r).0 ≡ err e
    → (rollback old r).1 ≡ old
rollback_err old (ok x, new) h = cc h
rollback_err old (err x, new) h = refl

tier_place : (tier : ℕ) → tier < 3 → get_elem? (0 ∷ 1 ∷ 2 ∷ []) tier ≡ some tier
tier_place zero h = refl
tier_place (suc zero) h = refl
tier_place (suc (suc zero)) h = refl
tier_place (suc (suc (suc n))) h = absurd (omega arith)

module _ (run : Run) (target : Target) (db : Db) where
  saved_has :
      (res : LeagueAnswer) (tier : ℕ) (bids : List ℕ) (i : ℕ) {bid : ℕ}
      → IsLadderTable db
      → tier < 3
      → res.tier_bids tier ≡ ok bids
      → get_elem? bids i ≡ some bid
      → (save_league run target res db).0 ≡ ok tt
      → has_ladder target.region bid (save_league run target res db).1.ladders ≡ true
  unfolding save_league
  saved_has res tier bids i {bid} t below known at fine =
      let tiers = ensure_tiers run target res (0 ∷ 1 ∷ 2 ∷ []) in
      let cached = update_league_cache target res db in
      let both : Result (Unit {0}) × Db = continue (λ _. tiers) cached in
      let same = rollback_ok db both fine in
      rw same (
        bind_has target.region bid (λ _. tiers) cached
          (λ done e later.
            ensure_tiers-has run target res (0 ∷ 1 ∷ 2 ∷ []) tier tier bids i cached.1
              (update_cache-Extends run target res db t).0 later (tier_place tier below) known at)
          (rw same at fine))

  league_raises :
      (found : Result (Option LeagueAnswer)) {e : Error}
      → ((lift found >>= on_league run target) db).0 ≡ err e
      → ((lift found >>= on_league run target) db).1 ≡ db
  unfolding save_league
  league_raises (ok none) h = refl
  league_raises (ok (some res)) h = rollback_err db _ h
  league_raises (err x) h = refl

module _ (run : Run) (target : Target) (db : Db) where
  -- Ids and pairs of region and bid are unique in the table of ladders, `check_stop` does not raise
  -- up to the first answer with status 200, which is one of four and has before it no 503 and, for
  -- the grandmaster league, no 404. If `fetch_new_in_league` then returns, the table has a ladder
  -- of the region for every bid that this answer lists in the tiers 0, 1 and 2.
  pub fetch_new_in_league-has_ladder :
      (k tier : ℕ) (bids : List ℕ) (i : ℕ) (bid : ℕ)
      → IsLadderTable db
      → k < 4
      → ((j : ℕ) → j < k → IsRetried run target.mode target.league (1 + j))
      → run.check_stop (at_try target.mode target.league (1 + k)) ≡ ok tt
      → (run.fetch_league target.mode target.league (1 + k)).status ≡ 200
      → tier < 3
      → (run.fetch_league target.mode target.league (1 + k)).tier_bids tier ≡ ok bids
      → get_elem? bids i ≡ some bid
      → (fetch_new_in_league run target db).0 ≡ ok tt
      → has_ladder target.region bid (fetch_new_in_league run target db).1.ladders ≡ true
  unfolding fetch_new_in_league
  fetch_new_in_league-has_ladder k tier bids i bid t lt earlier goes_on done below known at fine =
      let used = tries_settle run target.mode target.league k 1 4 lt earlier goes_on done in
      rw (used) (
        saved_has run target db (run.fetch_league target.mode target.league (1 + k)) tier bids i t
          below known at (rw used at fine))

  -- Where four tries pass without a raise of `check_stop`, a 200, a 503 or, for the grandmaster
  -- league, a 404, `fetch_new_in_league` returns and changes nothing.
  fetch_new_in_league_skips :
      ((j : ℕ) → j < 4 → IsRetried run target.mode target.league (1 + j))
      → fetch_new_in_league run target db ≡ (ok tt, db)
  unfolding fetch_new_in_league
  fetch_new_in_league_skips h = rw (tries_fail run target.mode target.league 4 1 h) refl

  -- Where `fetch_new_in_league` raises, it has changed nothing.
  fetch_new_in_league_raises :
      (e : Error)
      → (fetch_new_in_league run target db).0 ≡ err e
      → (fetch_new_in_league run target db).1 ≡ db
  unfolding fetch_new_in_league
  fetch_new_in_league_raises e raised =
      league_raises run target db (tries run target.mode target.league 1 4) raised

-- A region: the leagues of all modes, one after the other.
module _ (run : Run) (region : ℤ) (season : Season) (version : ℤ) where
  abbrev one : ℤ → ℤ → Target
  one mode league = record {
    region = region;
    season = season;
    version = version;
    mode = mode;
    league = league;
  }

  step-Extends :
      (mode league : ℤ) (skipped : Bool) (db : Db)
      → Extends db
          ((if skipped
              then pure (tt {0})
              else lift (run.check_stop (at_league mode league))
                >> fetch_new_in_league run (one mode league))
            db).1
  step-Extends mode league true db = Extends-refl db
  step-Extends mode league false db =
      Ext-continue (λ _. fetch_new_in_league run (one mode league))
        (λ _. fetch_league-Extends run (one mode league)) db
        (run.check_stop (at_league mode league), db) (Extends-refl db)

  fetch_leagues-Extends :
      (mode : ℤ) (leagues : List ℤ) (db : Db)
      → Extends db (fetch_leagues run region season version mode leagues db).1
  unfolding fetch_leagues
  fetch_leagues-Extends mode [] db = Extends-refl db
  fetch_leagues-Extends mode (league ∷ leagues) db =
      let skipped = not (version ==ℤ Version.lotv) && (mode ==ℤ Mode.archon) in
      Ext-continue (λ _. fetch_leagues run region season version mode leagues)
        (λ _. fetch_leagues-Extends mode leagues) db _ (step-Extends mode league skipped db)

  fetch_modes-Extends :
      (modes : List ℤ) (db : Db) → Extends db (fetch_modes run region season version modes db).1
  unfolding fetch_modes
  fetch_modes-Extends [] db = Extends-refl db
  fetch_modes-Extends (mode ∷ modes) db =
      let leagues = reverse (ranking_ids League.mapping) in
      Ext-continue (λ _. fetch_modes run region season version modes)
        (λ _. fetch_modes-Extends modes) db
        (fetch_leagues run region season version mode leagues db)
        (fetch_leagues-Extends mode leagues db)

-- Where ids are unique and below the next one and pairs of region and bid are unique in the table
-- of ladders, they are so after `fetch_new_in_region`, whether or not it raises, and no pair of
-- region and bid is gone.
pub fetch_new_in_region-IsLadderTable :
    (run : Run) (season : Season) (region : ℤ) (db : Db)
    → IsLadderTable db
    → IsLadderTable (fetch_new_in_region run season region db).1
      × ((r : ℤ) (bid : ℕ)
          → has_ladder r bid db.ladders ≡ true
          → has_ladder r bid (fetch_new_in_region run season region db).1.ladders ≡ true)
unfolding fetch_new_in_region
fetch_new_in_region-IsLadderTable run season region db =
    fetch_modes-Extends run region season Version.lotv (ranking_ids Mode.mapping) db
