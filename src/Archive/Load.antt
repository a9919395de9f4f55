-- ===== src/Archive/Load.antt =====
-- main/archive.py: the methods of `DataArchiver` that read an archive file into the database.
use rankedftw.Archive.{Json, Header, read_cache_obj}
use rankedftw.Prelude.{
  ◌++◌, ℕ, ◌==◌, ◌||◌, not, if◌then◌else◌, Bool, true, false, List, [], ◌∷◌, Option, none, some,
}
use rankedftw.Prelude.Result.{ok, raise_if, integrity_error, exception_raised}
use rankedftw.Retention.Links.{has_ranking}
use rankedftw.Store.{Db, Cache, Ladder}
use rankedftw.Store.Action as Action
use rankedftw.Store.Action.{Action}

abbrev pub has_cache : ℕ → List Cache → Bool
has_cache i [] = false
has_cache i (c ∷ cs) = (c.id == i) || has_cache i cs

abbrev pub has_ladder_row : List Ladder → Option ℕ → Bool
has_ladder_row ladders none = true
has_ladder_row [] (some i) = false
has_ladder_row (l ∷ ls) (some i) = (l.id == i) || has_ladder_row ls (some i)

-- `Cache.objects.create` with an id, which the table must not have, and with the foreign key to the
-- ladder, which the table of ladders must have.
abbrev pub create_with_id : Cache → Action (Unit {0})
create_with_id c =
    Action.◌>>=◌
      (Action.query (λ db.
        raise_if (has_cache c.id db.caches || not (has_ladder_row db.ladders c.ladder_id))
          integrity_error))
      (λ done. Action.modify (λ db. record db { caches = db.caches ++ (c ∷ []) }))

module _ (json : Json) where
  unfoldable pub load_rows : List json.Line → Option ℕ → Action (Unit {0})
  load_rows [] ranking_id = Action.pure tt
  load_rows (row ∷ rows) ranking_id =
      let rest = load_rows rows ranking_id in
      Action.◌>>=◌ (Action.lift (read_cache_obj json row ranking_id))
        (λ c. Action.◌>>◌ (create_with_id c) rest)

  abbrev id_if_known : ℕ → Db → Option ℕ
  id_if_known ranking_id db = if has_ranking ranking_id db.rankings then some ranking_id else none

  -- The lines of a file; of an empty one `next` raises `StopIteration`.
  unfoldable pub load_ranking_archive : List json.Line → Action (Unit {0})
  load_ranking_archive [] = Action.raise exception_raised
  load_ranking_archive (first ∷ rows) =
      Action.◌>>=◌ (Action.lift (json.loads_header first)) (λ (header : Header json.Stamp).
        Action.◌>>=◌ (Action.query (λ db. ok (id_if_known header.ranking_id db)))
          (λ ranking_id. load_rows rows ranking_id))

  abbrev pub load_unused_cache_archive : List json.Line → Action (Unit {0})
  load_unused_cache_archive rows = load_rows rows none
