-- ===== src/Update/Copy.antt =====
-- main/update.py, `countinously_update`: the copy of all caches of a ranking to a new one. What
-- `ApiLadder(lc.data, lc.url).members_for_ranking` returns or raises is an argument.
use rankedftw.Store.Rows.{save_cache}
use rankedftw.Prelude.Objects.{get, filter}
use rankedftw.Prelude.{◌+◌, [], ◌∷◌, some, ◌++◌, none, List, Bool, ℕ}
use rankedftw.Prelude.Result.{Result, ok}
use rankedftw.Prelude.Clock.{Time}
use rankedftw.Enums.Mode as Mode
use rankedftw.Fetch.Cached.{Member, UpdateCall, update_call, of_ranking}
use rankedftw.Fetch.Rows.{is_ladder}
use rankedftw.Store.{Ranking, Cache, created_status}
use rankedftw.Store.Action.{Action, ◌>>=◌, ◌>>◌, lift, query, modify, pure, atomic}

pub record Copying : Type 0 where
  pub created : Time
  pub members : Cache → ℕ → Result (List Member)
  pub update_with_ladder : UpdateCall → Result (Unit {0})

-- `lc.pk = None; ...; lc.save()`, and `new_ranking.sources.add(lc)`.
abbrev pub copied : Time → ℕ → ℕ → Cache → Cache
copied created id old lc = record lc {
  id = id;
  created = created;
  ladder_id = none;
  ranking_id = some old;
}

abbrev pub create_copy : Cache → Action (Unit {0})
create_copy row db =
    (ok tt, record db { caches = db.caches ++ row ∷ []; next_cache = db.next_cache + 1 })

unfoldable pub copy_cache : Copying → ℕ → ℕ → Cache → Action (Unit {0})
unfolding Mode.team_size
copy_cache run old new lc = do
  id ← query (λ db. ok db.next_cache)
  let row = copied run.created id old lc
  create_copy row
  modify (save_cache (record row { ranking_id = some new }))
  ladder ← query (λ db. get (is_ladder lc.region lc.bid) db.ladders)
  team_size ← lift (Mode.team_size ladder.mode)
  members ← lift (run.members row team_size)
  lift (run.update_with_ladder (update_call id lc.updated ladder team_size members))

unfoldable pub copy_caches : Copying → ℕ → ℕ → List Cache → Action (Unit {0})
unfolding copy_cache
copy_caches run old new [] = pure tt
copy_caches run old new (lc ∷ caches) =
    let rest = copy_caches run old new caches in do copy_cache run old new lc; rest

-- `ranking.sources.all()`.
abbrev pub in_sources : ℕ → Cache → Bool
in_sources ranking c = of_ranking ranking c.ranking_id

abbrev pub create_ranking : Ranking → Action Ranking
create_ranking r db =
    let row = record r { id = db.next_ranking } in
    (ok row, record db { rankings = db.rankings ++ row ∷ []; next_ranking = db.next_ranking + 1 })

-- The columns of the new ranking.
abbrev pub following : Ranking → ℕ → Time → Ranking
following ranking season now = record ranking {
  id = 0;
  season_id = season;
  created = now;
  status = created_status;
}

unfoldable pub copy_ranking : Copying → Ranking → ℕ → Time → Action Ranking
unfolding copy_caches
copy_ranking run ranking season now = atomic (do
  new_ranking ← create_ranking (following ranking season now)
  sources ← query (λ db. ok (filter (in_sources ranking.id) db.caches))
  copy_caches run ranking.id new_ranking.id sources
  pure new_ranking)
