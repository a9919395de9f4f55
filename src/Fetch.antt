-- ===== src/Fetch.antt =====
-- main/fetch.py: the fetch of the leagues of a region, with the ladders that are new.
pub mod Answers
pub mod Rows
pub mod Cached
pub mod Ladders
pub mod Leagues
pub mod Tries
pub mod Regions
pub mod Sources
mod Tests
use rankedftw.Retention.{is_key}
use rankedftw.Store.Rows.{save_ladder, save_cache}
use rankedftw.Prelude.Int.{◌==ℤ◌, ℤ}
use rankedftw.Prelude.Objects.{get}
use rankedftw.Enums.{ranking_ids}
use rankedftw.Fetch.Rows.{
  ladder_cache, create_ladder, league_cache, blank_ladder, create_cache, is_type, is_ladder,
  is_cache, Target,
}
use rankedftw.Fetch.Answers.{at_league, at_tier, LeagueAnswer, tries, info, filled, Run}
use rankedftw.Prelude.{
  ◌||◌, ◌==◌, ◌&&◌, not, none, false, [], ◌∷◌, true, some, if◌then◌else◌, ℕ, Option, Bool, List,
}
use rankedftw.Store.{
  Season, Strangeness, Ladder, Cache, ladder_type, player_type, player_ladders_type, season_type,
  league_type, good, nyd, strange, nop, missing,
}
use rankedftw.Store.Action.{◌>>=◌, ◌>>◌, Action, lift, query, modify, pure, raise, atomic}
use rankedftw.Prelude.Result.{
  system_exit, raise_if, exception_raised, Result, ok, err, does_not_exist,
}
use mathlib.Core.List.{reverse}
use rankedftw.Enums.Version
use rankedftw.Enums.Mode
use rankedftw.Enums.League

-- `try: objects.get(...) except DoesNotExist:`, with the code for the row that is found and the code
-- for none.
abbrev pub on_found {ℓ} :
    {A : Type ℓ} → Result A → (A → Action (Unit {0})) → Action (Unit {0}) → Action (Unit {0})
on_found (ok row) present absent = present row
on_found (err does_not_exist) present absent = absent
on_found (err e) present absent = raise e

-- The sanity check that no cache exists.
abbrev pub no_cache : Result Cache → Action (Unit {0})
no_cache found = on_found found (λ c. raise exception_raised) (pure tt)

unfoldable pub fetch_new_ladder : Run → Target → ℕ → ℕ → Action (Unit {0})
unfolding filled info
fetch_new_ladder run target tier bid = do
  let res = run.fetch_ladder bid
  lift (raise_if (res.status == 503) system_exit)
  found ← query (λ db. ok (get (is_cache target.region ladder_type bid) db.caches))
  no_cache found
  ladder ← lift (filled res (blank_ladder target tier bid res))
  saved ← create_ladder ladder
  create_cache (ladder_cache target bid res saved)
  lift (info saved)

-- `strangeness in (STRANGE, NYD, NOP)`.
abbrev pub is_odd : Strangeness → Bool
is_odd strange = true
is_odd nyd = true
is_odd nop = true
is_odd _ = false

abbrev pub repaired : Target → ℕ → Ladder → Ladder
repaired target tier ladder = record ladder {
  version = target.version;
  mode = target.mode;
  league = target.league;
  tier = tier;
  strangeness = good;
}

-- `ladder.get_ladder_cache()`.
abbrev pub is_source : Ladder → Cache → Bool
is_source ladder c = is_type c.type ladder_type && is_key ladder.id c.ladder_id

abbrev pub get_ladder_cache : List Cache → Ladder → Result Cache
get_ladder_cache caches ladder = get (is_source ladder) caches

unfoldable pub repair : Target → ℕ → Ladder → Action (Unit {0})
unfolding info
repair target tier ladder =
    if is_odd ladder.strangeness || not (ladder.tier == tier)
    then (do
      modify (save_ladder (repaired target tier ladder))
      lift (info (repaired target tier ladder))
      source ← query (λ db. get_ladder_cache db.caches ladder)
      pure tt)
    else pure tt

unfoldable pub ensure_ladder : Run → Target → ℕ → ℕ → Action (Unit {0})
unfolding repair fetch_new_ladder
ensure_ladder run target tier bid = do
  found ← query (λ db. ok (get (is_ladder target.region bid) db.ladders))
  on_found found (repair target tier) (fetch_new_ladder run target tier bid)

-- `for bid in api_league.tier_bids(tier)`, and `for tier in range(3)`.
unfoldable pub ensure_ladders : Run → Target → ℕ → List ℕ → Action (Unit {0})
unfolding ensure_ladder
ensure_ladders run target tier [] = pure tt
ensure_ladders run target tier (bid ∷ bids) =
    let rest = ensure_ladders run target tier bids in do ensure_ladder run target tier bid; rest

unfoldable pub ensure_tiers : Run → Target → LeagueAnswer → List ℕ → Action (Unit {0})
unfolding ensure_ladders
ensure_tiers run target res [] = pure tt
ensure_tiers run target res (tier ∷ tiers) =
    let rest = ensure_tiers run target res tiers in
    do
      lift (run.check_stop (at_tier target.mode target.league tier))
      bids ← lift (res.tier_bids tier)
      ensure_ladders run target tier bids
      rest

unfoldable pub update_league_cache : Target → LeagueAnswer → Action (Unit {0})
update_league_cache target res = do
  found ← query (λ db. ok (get (is_cache target.region league_type res.bid) db.caches))
  on_found found (λ c. modify (save_cache (record c { updated = res.fetch_time; text = res.text })))
      (create_cache (league_cache target res))

unfoldable pub save_league : Run → Target → LeagueAnswer → Action (Unit {0})
unfolding update_league_cache ensure_tiers
save_league run target res =
    atomic (do update_league_cache target res; ensure_tiers run target res (0 ∷ 1 ∷ 2 ∷ []))

abbrev pub on_league : Run → Target → Option LeagueAnswer → Action (Unit {0})
on_league run target none = pure tt
on_league run target (some res) = save_league run target res

unfoldable pub fetch_new_in_league : Run → Target → Action (Unit {0})
unfolding tries save_league
fetch_new_in_league run target = do
  found ← lift (tries run target.mode target.league 1 4)
  on_league run target found

unfoldable pub fetch_leagues : Run → ℤ → Season → ℤ → ℤ → List ℤ → Action (Unit {0})
unfolding fetch_new_in_league
fetch_leagues run region season version mode [] = pure tt
fetch_leagues run region season version mode (league ∷ leagues) =
    let rest = fetch_leagues run region season version mode leagues in
    let target : Target = record {
      region = region;
      season = season;
      version = version;
      mode = mode;
      league = league;
    } in
    do
      if not (version ==ℤ Version.lotv) && (mode ==ℤ Mode.archon)
          then pure tt
          else (do lift (run.check_stop (at_league mode league)); fetch_new_in_league run target)
      rest

unfoldable pub fetch_modes : Run → ℤ → Season → ℤ → List ℤ → Action (Unit {0})
unfolding fetch_leagues ranking_ids
fetch_modes run region season version [] = pure tt
fetch_modes run region season version (mode ∷ modes) =
    let rest = fetch_modes run region season version modes in
    do fetch_leagues run region season version mode (reverse (ranking_ids League.mapping)); rest

unfoldable pub fetch_new_in_region : Run → Season → ℤ → Action (Unit {0})
unfolding fetch_modes ranking_ids
fetch_new_in_region run season region =
    fetch_modes run region season Version.lotv (ranking_ids Mode.mapping)
