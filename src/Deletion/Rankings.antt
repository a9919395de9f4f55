-- ===== src/Deletion/Rankings.antt =====
-- `delete_ranking` of main/delete.py: the rankings and the rows that refer to them.
use rankedftw.Retention.{not_id, is_attached}
use rankedftw.Prelude.Objects.{get-eq-ok, filter, get}
use rankedftw.Retention.Purge.{find-filter, find}
use rankedftw.Retention.Links.{
  has_ranking-filter, has_target, CachesLinked, rows-drop, RowsLinked, IsLinked,
}
use rankedftw.Deletion.{
  is_tied, has_any, is_other_source, drop_stats, drop_sources, drop_row, drop_data, when,
  delete_ranking,
}
use rankedftw.Prelude.{
  arith, none, [], Option-cases, ◌∷◌, ◌&&◌, refl, ==_iff, ◌⊎◌, ◌==◌, if◌then◌else◌, Bool-cases, ◌≡◌,
  inl, inr, false, true, List, ℕ, Bool,
}
use rankedftw.Store.{Cache, Ranking, Db, Attached}
use rankedftw.Store.Action.{Action, atomic, lift, ◌>>◌}
use rankedftw.Prelude.Result.{Result-cases, Error, Result, ok, err, raise_if, exception_raised}

abbrev dropped : ℕ → Db → Db
dropped i db = drop_row i (drop_sources i (drop_stats i (drop_data i db)))

RowsLinked-filter :
    (p : Attached → Bool) (rs : List Ranking) (rows : List Attached)
    → RowsLinked rs rows
    → RowsLinked rs (filter p rows)
RowsLinked-filter p rs [] h = tt
RowsLinked-filter p rs (a ∷ rows) h = elim (Bool-cases (p a)) [
  | inl stays ↦ rw stays (h.0, RowsLinked-filter p rs rows h.1)
  | inr goes ↦ rw goes (RowsLinked-filter p rs rows h.1)
]

target-other :
    (i : ℕ) (rs : List Ranking) (c : Cache)
    → is_other_source i c ≡ true
    → has_target rs c.ranking_id ≡ true
    → has_target (filter (not_id i) rs) c.ranking_id ≡ true
target-other i rs c other h = elim (Option-cases c.ranking_id) [
  | inl e ↦ rw e refl
  | inr (k, e) ↦
      let differs : (k == i) ≡ false = ground (arith, other, e) in
      rw e (has_ranking-filter i k rs (ground (arith, differs)) (cc (h, e)))
]

CachesLinked-filter :
    (i : ℕ) (rs : List Ranking) (cs : List Cache)
    → CachesLinked rs cs
    → CachesLinked (filter (not_id i) rs) (filter (is_other_source i) cs)
CachesLinked-filter i rs [] h = tt
CachesLinked-filter i rs (c ∷ cs) h = elim (Bool-cases (is_other_source i c)) [
  | inl other ↦ rw other (target-other i rs c other h.0, CachesLinked-filter i rs cs h.1)
  | inr source ↦ rw source (CachesLinked-filter i rs cs h.1)
]

dropped-IsLinked : (i : ℕ) (db : Db) → IsLinked db → IsLinked (dropped i db)
dropped-IsLinked i db h = record {
  caches_linked = CachesLinked-filter i db.rankings db.caches h.caches_linked;
  data_linked =
      rows-drop i db.rankings (filter (is_attached i) db.ranking_data)
        (RowsLinked-filter (is_attached i) db.rankings db.ranking_data h.data_linked);
  stats_linked =
      rows-drop i db.rankings (filter (is_attached i) db.ranking_stats)
        (RowsLinked-filter (is_attached i) db.rankings db.ranking_stats h.stats_linked);
}

-- How a deletion ends: with a raise and no change, or with the rows deleted.
abbrev Ended : Bool → ℕ → Db → Result (Unit {0}) × Db → Type 0
Ended do_delete pk db r =
    (((e : Error) × (r.0 ≡ err e)) × (r.1 ≡ db))
    ⊎ ((r.0 ≡ ok tt) × (r.1 ≡ (if do_delete then dropped pk db else db)))

abbrev steps : Bool → ℕ → Action (Unit {0})
steps do_delete i = do
  when do_delete (drop_data i)
  when do_delete (drop_stats i)
  when do_delete (drop_sources i)
  when do_delete (drop_row i)

steps-Ended :
    (do_delete : Bool) (i : ℕ) (db : Db) (r : Result (Unit {0}))
    → Ended do_delete i db (atomic (lift r >> steps do_delete i) db)
steps-Ended true i db (ok done) = inr (refl, refl)
steps-Ended false i db (ok done) = inr (refl, refl)
steps-Ended do_delete i db (err e) = inl ((e, refl), refl)

delete_ranking-Ended :
    (do_delete : Bool) (pk : ℕ) (db : Db) → Ended do_delete pk db (delete_ranking do_delete pk db)
unfolding delete_ranking
delete_ranking-Ended do_delete pk db =
    elim (Result-cases (get (λ (r : Ranking). r.id == pk) db.rankings)) [
      | inl (r, e) ↦
          let same : r.id ≡ pk =
            (==_iff r.id pk).0 (get-eq-ok (λ (q : Ranking). q.id == pk) db.rankings e) in
          rw (e, same)
            (steps-Ended do_delete pk db
              (raise_if (has_any (filter (is_tied pk) db.caches)) exception_raised))
      | inr (x, e) ↦ rw e (inl ((x, refl), refl))
    ]

-- Whether code has returned.
abbrev pub is_done : Result (Unit {0}) → Bool
is_done (ok done) = true
is_done (err e) = false

module _ (do_delete : Bool) (pk : ℕ) (db : Db) where
  -- Where every foreign key to a ranking is null or the id of a ranking, it is so after
  -- `delete_ranking`, dry or not, and whether or not it raises.
  pub delete_ranking-IsLinked : IsLinked db → IsLinked (delete_ranking do_delete pk db).1
  delete_ranking-IsLinked h = elim (delete_ranking-Ended do_delete pk db) [
    | inl (raised, same) ↦ rw same h
    | inr (fine, same) ↦ elim (Bool-cases do_delete) [
      | inl really ↦ rw (same, really) (dropped-IsLinked pk db h)
      | inr dry ↦ rw (same, dry) h
    ]
  ]

  -- After `delete_ranking` the row of an id is what it was, except for the id that is deleted where
  -- the run is not dry and returns: that id has no row.
  delete_ranking-find :
      (k : ℕ)
      → find k (delete_ranking do_delete pk db).1.rankings ≡ (
          if (do_delete && is_done (delete_ranking do_delete pk db).0) && (pk == k)
          then none
          else find k db.rankings)
  delete_ranking-find k = elim (delete_ranking-Ended do_delete pk db) [
    | inl ((e, raised), same) ↦ rw (same, raised) (ground arith)
    | inr (fine, same) ↦ elim (Bool-cases do_delete) [
      | inl really ↦ rw (same, fine, really) (find-filter pk k db.rankings)
      | inr dry ↦ rw (same, fine, dry) refl
    ]
  ]
