-- ===== src/Update/Save.antt =====
-- `UpdateManager.save_ranking` of main/update.py. The ping of the ranking server is an argument: what
-- it raises other than the `OSError` that is logged.
use rankedftw.Store.Rows.{save_ranking}
use rankedftw.Prelude.{List, ℕ}
use rankedftw.Prelude.Result.{does_not_exist, or_raise, Result}
use rankedftw.Refetch.{Cpp, set_data_time}
use rankedftw.Store.{Ranking, Season, complete_with_data}
use rankedftw.Store.Keys.{find}
use rankedftw.Store.Action.{Action, ◌>>=◌, ◌>>◌, lift, query, modify, pure}

abbrev pub season_key : Season → ℕ
season_key s = s.id

abbrev pub ranking_key : Ranking → ℕ
ranking_key r = r.id

-- `season.reload()`: the row as it is now.
abbrev pub reload : ℕ → List Season → Result Season
reload id seasons = or_raise (find season_key id seasons) does_not_exist

unfoldable pub save_ranked : Cpp → Result (Unit {0}) → Ranking → Action Ranking
unfolding set_data_time
save_ranked cpp ping ranking = do
  season ← query (λ db. reload ranking.season_id db.seasons)
  timed ← lift (set_data_time season cpp.min_max_data_time ranking)
  lift (cpp.save_data timed.id timed.season_id)
  lift (cpp.save_stats timed.id)
  modify (save_ranking (record timed { status = complete_with_data }))
  lift ping
  pure (record timed { status = complete_with_data })
