-- ===== src/Scripts/Sourced.antt =====
-- The repair of a ranking leaves it with a source for each cache that it chose.
use mathlib.Core.Path.{subst}
use rankedftw.Enums.Mode as Mode
use rankedftw.Fetch.Cached.{of_ranking}
use rankedftw.Prelude.{
  map, Bool-cases, ◌∙◌, ap, ℕ, ◌+◌, ◌==◌, ==_iff, not, List, [], ◌∷◌, ◌≡◌, ◌⊎◌, refl, sym, inl, inr,
  some, length, true, false, Bool,
}
use rankedftw.Prelude.Objects.{filter, get, get-eq-ok, only-eq-ok}
use rankedftw.Prelude.Result.{ok, raise_if, exception_raised}
use rankedftw.Scripts.Linked.{
  content, IsSourceOf, HasSource, HasRow, take_cache-HasSource, take_cache-source,
  take_cache-HasRow,
}
use rankedftw.Scripts.Any.{AnyRow}
use rankedftw.Scripts.Repair.{
  RepairRun, unlinked, ladder_for_cache, take_cache, repair_cache, repair_caches, save_repaired,
  repair_chosen, run_repair, choose_caches, can_repair, is_last_of,
}
use rankedftw.Scripts.Spared.{id_of_cache, find-filter, unlinked-id}
use rankedftw.Refetch.{set_data_time}
use rankedftw.Store.Rows.{save_ranking}
use rankedftw.Store.{Db, Cache, Ranking, Season}
use rankedftw.Store.Action.{continue_keeps, continue_ok}
use rankedftw.Store.Keys.{find}

same_ids : (ids given : List ℕ) → ok ids ≡ ok given → ids ≡ given
same_ids ids given e = cc

-- Whether an id is one of a list.
abbrev pub IsIn : ℕ → List ℕ → Type 0
IsIn i [] = ⊥
IsIn i (id ∷ ids) = (i ≡ id) ⊎ IsIn i ids

-- The one row that a query of an id finds is the one row of its own id.
get-filter :
    (id : ℕ) (x : Cache) (cs : List Cache)
    → get (λ (d : Cache). d.id == id) cs ≡ ok x
    → filter (λ (d : Cache). d.id == x.id) cs ≡ x ∷ []
get-filter id x cs one =
    let same : x.id ≡ id = (==_iff x.id id).0 (get-eq-ok (λ (d : Cache). d.id == id) cs one) in
    subst (λ j. filter (λ (d : Cache). d.id == j) cs ≡ x ∷ []) (sym same)
      (only-eq-ok (filter (λ (d : Cache). d.id == id) cs) one)

module _ (run : RepairRun) (ranking : Ranking) where
  module _ (Q : Db → Type 0)
      (step : (x : Cache) (db : Db)
        → filter (λ (d : Cache). d.id == x.id) db.caches ≡ x ∷ []
        → Q db
        → Q (take_cache ranking.id x db).1) where
    repair_cache-keeps : (n id : ℕ) (db : Db) → Q db → Q (repair_cache run ranking n id db).1
    unfolding repair_cache
    repair_cache-keeps n id db h =
        continue_keeps Q _ (get (λ (d : Cache). d.id == id) db.caches, db) h
          (λ x one.
            continue_keeps Q _ (run.check_stop n, db) h
              (λ a f.
                continue_keeps Q _ (ladder_for_cache ranking x db, db) h
                  (λ ladder g.
                    let here = step x db (get-filter id x db.caches one) h in
                    let mid = (take_cache ranking.id x db).1 in
                    continue_keeps Q _ (take_cache ranking.id x db) here (λ source k.
                      continue_keeps Q _ (Mode.team_size ladder.mode, mid) here
                        (λ size l.
                          continue_keeps Q _ (run.members source size, mid) here
                            (λ members m. here))))))

    repair_caches-keeps :
        (n : ℕ) (ids : List ℕ) (db : Db) → Q db → Q (repair_caches run ranking n ids db).1
    unfolding repair_caches
    repair_caches-keeps n [] db h = h
    repair_caches-keeps n (id ∷ ids) db h =
        let here = repair_cache-keeps n id db h in
        continue_keeps Q _ (repair_cache run ranking n id db) here
          (λ done e. repair_caches-keeps (n + 1) ids (repair_cache run ranking n id db).1 here)

  module _ (c : Cache) where
    abbrev Sourced : Db → Type 0
    Sourced = HasSource ranking.id c

    repair_cache-source :
        (n id : ℕ) (db : Db)
        → c.id ≡ id
        → (repair_cache run ranking n id db).0 ≡ ok tt
        → HasRow ranking.id c db
        → Sourced (repair_cache run ranking n id db).1
    unfolding repair_cache
    repair_cache-source n id db same_id h (d, here, same) =
        continue_ok Sourced tt _ (get (λ (x : Cache). x.id == id) db.caches, db)
          (λ x one h1.
            let alone = only-eq-ok (filter (λ (x : Cache). x.id == id) db.caches) one in
            let first : x ≡ d = find-filter c.id d x db.caches here (
              subst (λ j. filter (λ (q : Cache). q.id == j) db.caches ≡ x ∷ []) (sym same_id)
                alone) in
            continue_ok Sourced tt _ (run.check_stop n, db)
              (λ a f h2.
                continue_ok Sourced tt _ (ladder_for_cache ranking x db, db)
                  (λ ladder g h3.
                    let now =
                      take_cache-source ranking.id c x db (get-filter id x db.caches one)
                        (ap content first ∙ same) in
                    let mid = (take_cache ranking.id x db).1 in
                    continue_keeps Sourced _ (take_cache ranking.id x db) now (λ source k.
                      continue_keeps Sourced _ (Mode.team_size ladder.mode, mid) now
                        (λ size l.
                          continue_keeps Sourced _ (run.members source size, mid) now
                            (λ members m. now))))
                  h2)
              h1)
          h

    repair_caches-source :
        (n : ℕ) (ids : List ℕ) (db : Db)
        → IsIn c.id ids
        → (repair_caches run ranking n ids db).0 ≡ ok tt
        → HasRow ranking.id c db
        → Sourced (repair_caches run ranking n ids db).1
    unfolding repair_caches
    repair_caches-source n [] db there h row = absurd there
    repair_caches-source n (id ∷ ids) db (inl e) h row =
        continue_ok Sourced tt _ (repair_cache run ranking n id db)
          (λ done f later.
            repair_caches-keeps Sourced (take_cache-HasSource ranking.id c) (n + 1) ids
              (repair_cache run ranking n id db).1 (repair_cache-source n id db e f row))
          h
    repair_caches-source n (id ∷ ids) db (inr there) h row =
        continue_ok Sourced tt _ (repair_cache run ranking n id db)
          (λ done f later.
            repair_caches-source (n + 1) ids (repair_cache run ranking n id db).1 there later (
              repair_cache-keeps (HasRow ranking.id c) (take_cache-HasRow ranking.id c) n id db
                row))
          h

    save_repaired-Sourced :
        (season : Season) (n : ℕ) (db : Db)
        → Sourced db
        → Sourced (save_repaired run ranking season n db).1
    unfolding save_repaired
    save_repaired-Sourced season n db h =
        continue_keeps Sourced _ (set_data_time season run.cpp.min_max_data_time ranking, db) h
          (λ timed e.
            let now = save_ranking timed db in
            continue_keeps Sourced _ (run.check_stop n, now) h
              (λ a e.
                continue_keeps Sourced _ (run.cpp.save_data timed.id timed.season_id, now) h
                  (λ b e. continue_keeps Sourced _ (run.check_stop (n + 1), now) h (λ d e. h))))

    find-unlinked_row :
        (cs : List Cache)
        → find id_of_cache c.id cs ≡ some c
        → find id_of_cache c.id (map (unlinked ranking.id) cs) ≡ some (unlinked ranking.id c)
    find-unlinked_row [] h = absurd cc
    find-unlinked_row (x ∷ cs) h = elim (Bool-cases (x.id == c.id)) [
      | inl e ↦
          let found : some x ≡ some c = rw e at h in
          let first : x ≡ c = cc in
          let key : ((unlinked ranking.id x).id == c.id) ≡ true =
            ap (λ j. j == c.id) (unlinked-id ranking.id x) ∙ e in
          rw key (ap (λ d. some (unlinked ranking.id d)) first)
      | inr e ↦
          let key : ((unlinked ranking.id x).id == c.id) ≡ false =
            ap (λ j. j == c.id) (unlinked-id ranking.id x) ∙ e in
          rw key (find-unlinked_row cs (rw e at h))
    ]

    content-unlinked : content (unlinked ranking.id c) ≡ content c
    content-unlinked = elim (Bool-cases (of_ranking ranking.id c.ranking_id)) [
      | inl e ↦ rw e refl
      | inr e ↦ rw e refl
    ]

    choose_caches-HasRow :
        (last : Bool) (db : Db)
        → find id_of_cache c.id db.caches ≡ some c
        → HasRow ranking.id c (choose_caches ranking last db).1
    choose_caches-HasRow true db h =
        (unlinked ranking.id c, find-unlinked_row db.caches h, content-unlinked)
    choose_caches-HasRow false db h = (c, h, refl)

    -- For any database, any ranking and any cache that its id finds: where the id is one of those
    -- that the repair of the ranking chooses, and the repair returns, the ranking has a source
    -- whose columns, but for the id and the two links, are those that the cache had.
    pub run_repair-AnyRow :
        (ids : List ℕ) (db : Db)
        → find id_of_cache c.id db.caches ≡ some c
        → (choose_caches ranking (is_last_of ranking db) db).0 ≡ ok ids
        → IsIn c.id ids
        → (run_repair run ranking db).0 ≡ ok tt
        → AnyRow (IsSourceOf ranking.id c) (run_repair run ranking db).1.caches
    unfolding run_repair repair_chosen
    run_repair-AnyRow ids db here chosen there h =
        let last = is_last_of ranking db in
        let mid = (choose_caches ranking last db).1 in
        continue_ok Sourced tt _ (raise_if (not (can_repair ranking.status)) exception_raised, db)
          (λ a e h1.
            continue_ok Sourced tt _
              (get (λ (s : Season). s.id == ranking.season_id) db.seasons, db)
              (λ season e h2.
                continue_ok Sourced tt _ (choose_caches ranking last db)
                  (λ given e h3.
                    let same : ids ≡ given = same_ids ids given (sym chosen ∙ e) in
                    continue_ok Sourced tt _ (repair_caches run ranking 0 given mid)
                      (λ done f h4.
                        save_repaired-Sourced season (length given)
                          (repair_caches run ranking 0 given mid).1
                          (repair_caches-source 0 given mid (subst (IsIn c.id) same there) f
                            (choose_caches-HasRow last db here)))
                      h3)
                  h2)
              h1)
          h
