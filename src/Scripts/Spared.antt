-- ===== src/Scripts/Spared.antt =====
-- Which caches a repair of a ranking leaves as they are.
use rankedftw.Season.{is_none}
use rankedftw.Fetch.Cached.{of_ranking}
use mathlib.Core.Bool.{true≢false}
use rankedftw.Enums.Mode as Mode
use rankedftw.Refetch.{set_data_time}
use rankedftw.Store.Rows.{save_ranking}
use rankedftw.Prelude.{
  ◌⊎◌, none, arith, Option, ℕ, not, ◌+◌, ◌==◌, ==_iff, Bool, true, false, some, List, [], ◌∷◌, ◌++◌,
  map, length, ◌≡◌, ◌≢◌, refl, ap, ◌∙◌, sym, inl, inr, Bool-cases,
}
use rankedftw.Prelude.Objects.{filter, get, get-eq-ok, only-eq-ok}
use rankedftw.Prelude.Result.{raise_if, exception_raised}
use rankedftw.Scripts.Repair.{
  RepairRun, can_repair, is_last_of, ladder_for_cache, unlinked, choose_caches, is_unlinked,
  take_cache, repair_cache, repair_caches, save_repaired, repair_chosen, run_repair, repair_ranking,
}
use rankedftw.Store.{Db, Cache, Ranking, Season}
use rankedftw.Store.Action.{continue_keeps}
use rankedftw.Store.Keys.{find, find-save_row_ne}

abbrev pub id_of_cache : Cache → ℕ
id_of_cache c = c.id

pub find-append :
    (i : ℕ) (c d : Cache) (cs : List Cache)
    → find id_of_cache i cs ≡ some c
    → find id_of_cache i (cs ++ (d ∷ [])) ≡ some c
find-append i c d [] h = absurd cc
find-append i c d (x ∷ cs) h = elim (Bool-cases (x.id == i)) [
  | inl e ↦ rw e (rw e at h)
  | inr e ↦ rw e (find-append i c d cs (rw e at h))
]

-- The one row of an id is the row that is found.
pub find-filter :
    (i : ℕ) (c x : Cache) (cs : List Cache)
    → find id_of_cache i cs ≡ some c
    → filter (λ (d : Cache). d.id == i) cs ≡ x ∷ []
    → x ≡ c
find-filter i c x [] h one = absurd cc
find-filter i c x (y ∷ cs) h one = elim (Bool-cases (y.id == i)) [
  | inl e ↦
      let found : some y ≡ some c = rw e at h in
      let first : y ∷ filter (λ (d : Cache). d.id == i) cs ≡ x ∷ [] = rw e at one in cc
  | inr e ↦ find-filter i c x cs (rw e at h) (rw e at one)
]

pub unlinked-id : (ranking : ℕ) (d : Cache) → (unlinked ranking d).id ≡ d.id
unlinked-id ranking d = elim (Bool-cases (of_ranking ranking d.ranking_id)) [
  | inl e ↦ rw e refl
  | inr e ↦ rw e refl
]

module _ (ranking i : ℕ) (c : Cache) (other : of_ranking ranking c.ranking_id ≡ false)
    (linked : is_unlinked c ≡ false) where
  find-unlinked :
      (cs : List Cache)
      → find id_of_cache i cs ≡ some c
      → find id_of_cache i (map (unlinked ranking) cs) ≡ some c
  find-unlinked [] h = absurd cc
  find-unlinked (x ∷ cs) h = elim (Bool-cases (x.id == i)) [
    | inl e ↦
        let found : some x ≡ some c = rw e at h in
        let same : x ≡ c = cc in rw (unlinked-id ranking x, e, same, other) refl
    | inr e ↦ rw (unlinked-id ranking x, e) (find-unlinked cs (rw e at h))
  ]

  -- The row of the cache is what it was.
  abbrev Spares : Db → Type 0
  Spares db = find id_of_cache i db.caches ≡ some c

  take_cache-Spares :
      (x : Cache) (db : Db) → (x.id ≡ i → x ≡ c) → Spares db → Spares (take_cache ranking x db).1
  take_cache-Spares x db own h = elim (Bool-cases (is_unlinked x)) [
    | inl free ↦
        let row : Cache = record x { ranking_id = some ranking } in
        let no : x.id ≢ i = λ e. true≢false (sym free ∙ ap is_unlinked (own e) ∙ linked) in
        rw free (find-save_row_ne id_of_cache i row db.caches no ∙ h)
    | inr bound ↦ elim (Bool-cases (of_ranking ranking x.ranking_id)) [
      | inl mine ↦ rw (bound, mine) h
      | inr their ↦ rw (bound, their) (find-append i c _ db.caches h)
    ]
  ]

module _ (run : RepairRun) (ranking : Ranking) (i : ℕ) (c : Cache)
    (other : of_ranking ranking.id c.ranking_id ≡ false) (linked : is_unlinked c ≡ false) where
  abbrev Kept : Db → Type 0
  Kept = Spares ranking.id i c other linked

  repair_cache-Kept : (n id : ℕ) (db : Db) → Kept db → Kept (repair_cache run ranking n id db).1
  unfolding repair_cache
  repair_cache-Kept n id db h =
      continue_keeps Kept _ (get (λ (d : Cache). d.id == id) db.caches, db) h
        (λ x one.
          let mine : x.id ≡ id =
            (==_iff x.id id).0 (get-eq-ok (λ (d : Cache). d.id == id) db.caches one) in
          let own : x.id ≡ i → x ≡ c = λ hit. find-filter i c x db.caches h (
            rw (sym mine ∙ hit) at
              (only-eq-ok (filter (λ (d : Cache). d.id == id) db.caches) one)) in
          continue_keeps Kept _ (run.check_stop n, db) h
            (λ a f.
              continue_keeps Kept _ (ladder_for_cache ranking x db, db) h
                (λ ladder g.
                  let here : Kept (take_cache ranking.id x db).1 =
                    take_cache-Spares ranking.id i c other linked x db own h in
                  continue_keeps Kept _ (take_cache ranking.id x db) here (λ source k.
                    let mid = (take_cache ranking.id x db).1 in
                    continue_keeps Kept _ (Mode.team_size ladder.mode, mid) here
                      (λ size l.
                        continue_keeps Kept _ (run.members source size, mid) here
                          (λ members m. here))))))

  repair_caches-Kept :
      (n : ℕ) (ids : List ℕ) (db : Db) → Kept db → Kept (repair_caches run ranking n ids db).1
  unfolding repair_caches
  repair_caches-Kept n [] db h = h
  repair_caches-Kept n (id ∷ ids) db h =
      let here = repair_cache-Kept n id db h in
      continue_keeps Kept _ (repair_cache run ranking n id db) here
        (λ done e. repair_caches-Kept (n + 1) ids (repair_cache run ranking n id db).1 here)

  save_repaired-Kept :
      (season : Season) (n : ℕ) (db : Db) → Kept db → Kept (save_repaired run ranking season n db).1
  unfolding save_repaired
  save_repaired-Kept season n db h =
      continue_keeps Kept _ (set_data_time season run.cpp.min_max_data_time ranking, db) h
        (λ timed e.
          let now = save_ranking timed db in
          continue_keeps Kept _ (run.check_stop n, now) h
            (λ a e.
              continue_keeps Kept _ (run.cpp.save_data timed.id timed.season_id, now) h
                (λ b e. continue_keeps Kept _ (run.check_stop (n + 1), now) h (λ d e. h))))

  choose_caches-Kept : (last : Bool) (db : Db) → Kept db → Kept (choose_caches ranking last db).1
  choose_caches-Kept true db h = find-unlinked ranking.id i c other linked db.caches h
  choose_caches-Kept false db h = h

  repair_chosen-Kept :
      (season : Season) (ids : List ℕ) (db : Db)
      → Kept db
      → Kept (repair_chosen run ranking season ids db).1
  unfolding repair_chosen
  repair_chosen-Kept season ids db h =
      let here = repair_caches-Kept 0 ids db h in
      continue_keeps Kept _ (repair_caches run ranking 0 ids db) here (λ done e.
        save_repaired-Kept season (length ids) (repair_caches run ranking 0 ids db).1 here)

  run_repair-find :
      (db : Db)
      → find id_of_cache i db.caches ≡ some c
      → find id_of_cache i (run_repair run ranking db).1.caches ≡ some c
  unfolding run_repair
  run_repair-find db h =
      continue_keeps Kept _ (raise_if (not (can_repair ranking.status)) exception_raised, db) h
        (λ a e.
          continue_keeps Kept _ (get (λ (s : Season). s.id == ranking.season_id) db.seasons, db) h
            (λ season e.
              let last = is_last_of ranking db in
              let here = choose_caches-Kept last db h in
              continue_keeps Kept _ (choose_caches ranking last db) here
                (λ ids e. repair_chosen-Kept season ids (choose_caches ranking last db).1 here)))

of_ranking_other : (id : ℕ) (o : Option ℕ) → o ≢ some id → of_ranking id o ≡ false
of_ranking_other id none h = refl
of_ranking_other id (some j) h = elim (Bool-cases (j == id)) [
  | inl e ↦ absurd (h (ap (λ k. some k) ((==_iff j id).0 e)))
  | inr e ↦ e
]

is_none_other : (o : Option ℕ) → o ≢ none → is_none o ≡ false
is_none_other none h = absurd (h refl)
is_none_other (some j) h = refl

-- A cache that is a source or the cache of a ladder.
abbrev pub IsUsed : Cache → Type 0
IsUsed c = (c.ranking_id ≢ none) ⊎ (c.ladder_id ≢ none)

IsUsed-is_unlinked : (c : Cache) → IsUsed c → is_unlinked c ≡ false
IsUsed-is_unlinked c (inl h) = rw (is_none_other c.ranking_id h) refl
IsUsed-is_unlinked c (inr h) = ground (arith, is_none_other c.ladder_id h)

-- For any database, any ranking id, and any cache that is not a source of that ranking and is a
-- source of another or the cache of a ladder: the repair of the ranking, whether or not it raises,
-- leaves the row of the cache as it was.
pub repair_ranking-find :
    (run : RepairRun) (id i : ℕ) (c : Cache) (db : Db)
    → c.ranking_id ≢ some id
    → IsUsed c
    → find id_of_cache i db.caches ≡ some c
    → find id_of_cache i (repair_ranking run id db).1.caches ≡ some c
unfolding repair_ranking
repair_ranking-find run id i c db other used h =
    continue_keeps (λ now. find id_of_cache i now.caches ≡ some c) _
      (get (λ (r : Ranking). r.id == id) db.rankings, db) h
      (λ r one.
        let same : r.id ≡ id =
          (==_iff r.id id).0 (get-eq-ok (λ (r : Ranking). r.id == id) db.rankings one) in
        run_repair-find run r i c (rw same (of_ranking_other id c.ranking_id other))
          (IsUsed-is_unlinked c used) db h)
