-- ===== src/Update/Until.antt =====
-- `UpdateManager.update_until` of main/update.py. A run is the list of its turns, with what the clock,
-- the queue of fetched ladders and the C++ module give to each; after the last of them `check_stop` is
-- true.
use rankedftw.Prelude.{
  none, false, ◌==◌, ◌+◌, some, [], ◌∷◌, not, ltb, ◌*◌, Option, List, Bool, ℕ, if◌then◌else◌,
}
use rankedftw.Prelude.Clock.{second, day, Time}
use rankedftw.Prelude.Result.{index_error, err, ok, Result}
use rankedftw.Update.Save.{save_ranked}
use rankedftw.Update.Batches.{Thread, start_gm, start_plat, start_rest}
use rankedftw.Refetch.{Cpp}
use rankedftw.Refetch.Past.{subtract}
use rankedftw.Fetch.Cached.{FetchedLadder, update_ladder_cache}
use rankedftw.Season.{get_current_season}
use rankedftw.Store.{Ranking, Db, Ladder}
use rankedftw.Store.Action.{Action, ◌>>=◌, ◌>>◌, lift, query, pure, atomic}

-- `now` at the start of the turn, the time after a save, what `pop` gives, none for `IndexError`, and
-- what the fetchers leave of the queues meanwhile.
pub record Turn : Type 0 where
  pub now : Time
  pub saved_at : Time
  pub popped : Option (Ladder × FetchedLadder)
  pub fetchers : List Thread → List Thread
  pub cpp : Cpp
  pub ping : Result (Unit {0})

pub record Timers : Type 0 where
  pub last_save : Time
  pub last_season_check : Time
  pub last_gm : Time
  pub last_plat : Time
  pub last_rest : Time
  pub threads : List Thread
  pub ranking : Ranking

abbrev pub minute : ℕ
minute = 60 * second

-- `now - last > delta`.
abbrev pub passed : Time → Time → ℕ → Bool
passed now last delta = ltb (last + delta) now

-- The check of the season, with whether the loop breaks.
unfoldable pub check_current : Time → Timers → Action (Bool × Timers)
unfolding get_current_season
check_current now t =
    if passed now t.last_season_check (30 * minute)
    then (do
      current ← query (λ db. get_current_season db.seasons)
      pure (not (t.ranking.season_id == current.id), record t { last_season_check = now }))
    else pure (false, t)

unfoldable pub save_when_due : Turn → Timers → Action Timers
unfolding save_ranked
save_when_due turn t =
    if passed turn.now t.last_save minute
    then (do
      ranking ← save_ranked turn.cpp turn.ping t.ranking
      pure (record t { ranking = ranking; last_save = turn.saved_at }))
    else pure t

-- The starts of the three batches.
abbrev pub gm_when_due : Time → List Ladder → Timers → Timers
gm_when_due now ladders t =
    if passed now t.last_gm minute
    then record t { last_gm = now; threads = start_gm ladders t.ranking.season_id t.threads }
    else t

abbrev pub plat_when_due : Time → List Ladder → Timers → Timers
plat_when_due now ladders t =
    if passed now t.last_plat (10 * minute)
    then record t { last_plat = now; threads = start_plat ladders t.ranking.season_id t.threads }
    else t

abbrev pub rest_when_due : Time → List Ladder → Timers → Timers
rest_when_due now ladders t =
    if passed now t.last_rest (60 * minute)
    then record t { last_rest = now; threads = start_rest ladders t.ranking.season_id t.threads }
    else t

unfoldable pub start_when_due : Time → List Ladder → Timers → Timers
start_when_due now ladders t =
    rest_when_due now ladders (plat_when_due now ladders (gm_when_due now ladders t))

-- `except IndexError`, which also takes one that the update raises.
abbrev pub catch_index_error : Result (Unit {0}) × Db → Result (Unit {0}) × Db
catch_index_error (err index_error, db) = (ok tt, db)
catch_index_error r = r

abbrev pub update_popped : Cpp → ℕ → Option (Ladder × FetchedLadder) → Action (Unit {0})
update_popped cpp ranking none db = catch_index_error (err index_error, db)
update_popped cpp ranking (some (ladder, res)) db =
    catch_index_error (atomic (update_ladder_cache cpp.update_with_ladder ranking ladder res) db)

-- The part of a turn that comes after the two tests that may break the loop.
unfoldable pub do_turn : Turn → Timers → Action Timers
unfolding save_when_due start_when_due update_ladder_cache
do_turn turn t = do
  saved ← save_when_due turn (record t { threads = turn.fetchers t.threads })
  started ← query (λ db. ok (start_when_due turn.now db.ladders saved))
  update_popped turn.cpp started.ranking.id turn.popped
  pure started

unfoldable pub turns : Time → List Turn → Timers → Action Timers
unfolding do_turn check_current
turns until [] t = pure t
turns until (turn ∷ later) t =
    let next = turns until later in
    if ltb until turn.now
    then pure t
    else (check_current turn.now t >>= λ checked.
        if checked.0 then pure checked.1 else (do_turn turn checked.1 >>= next))

-- The timers at the start, the loop, and the save at its end.
unfoldable pub update_until :
    Time → Time → List Thread → Cpp → Result (Unit {0}) → List Turn → Ranking → Action Ranking
unfolding turns save_ranked
update_until start until threads cpp ping run ranking = do
  long_ago ← lift (subtract start (20 * day))
  ended ← turns until run (record {
    last_save = start;
    last_season_check = start;
    last_gm = long_ago;
    last_plat = long_ago;
    last_rest = long_ago;
    threads = threads;
    ranking = ranking;
  })
  save_ranked cpp ping ended.ranking
