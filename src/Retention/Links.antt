-- ===== src/Retention/Links.antt =====
-- The rows that refer to a ranking, through the deletion.
use rankedftw.Prelude.Objects.{filter}
use rankedftw.Store.Action.{modify, ◌>>=◌, lift, atomic}
use rankedftw.Retention.Order.{complete_rankings}
use rankedftw.Prelude.Result.{err, ok, Result}
use rankedftw.Store.{Cache, Attached, Ranking, Db}
use rankedftw.Prelude.{
  refl, Option-cases, none, some, map, inr, arith, [], ◌≡◌, ◌||◌, true, inl, ◌==◌, false, Option,
  Bool-cases, ◌∷◌, ℕ, List, Bool,
}
use rankedftw.Retention.{
  drop_ranking, drop_unkept, delete_old_rankings, unlink, is_attached, not_id, marks, Mark,
}

-- Whether a ranking of the table has the id.
abbrev pub has_ranking : ℕ → List Ranking → Bool
has_ranking k [] = false
has_ranking k (r ∷ rs) = r.id == k || has_ranking k rs

abbrev pub has_target : List Ranking → Option ℕ → Bool
has_target rs none = true
has_target rs (some k) = has_ranking k rs

abbrev pub CachesLinked : List Ranking → List Cache → Type 0
CachesLinked rs [] = Unit
CachesLinked rs (c ∷ cs) = (has_target rs c.ranking_id ≡ true) × CachesLinked rs cs

abbrev pub RowsLinked : List Ranking → List Attached → Type 0
RowsLinked rs [] = Unit
RowsLinked rs (a ∷ rows) = (has_ranking a.ranking_id rs ≡ true) × RowsLinked rs rows

-- Every foreign key to a ranking is null or the id of a ranking.
pub record IsLinked (db : Db) : Type 0 where
  pub caches_linked : CachesLinked db.rankings db.caches
  pub data_linked : RowsLinked db.rankings db.ranking_data
  pub stats_linked : RowsLinked db.rankings db.ranking_stats

pub has_ranking-filter :
    (j k : ℕ) (rs : List Ranking)
    → (j == k) ≡ false
    → has_ranking k rs ≡ true
    → has_ranking k (filter (not_id j) rs) ≡ true
has_ranking-filter j k [] n h = h
has_ranking-filter j k (r ∷ rs) n h = ground (arith, has_ranking-filter j k rs n)

target-unlink :
    (j : ℕ) (rs : List Ranking) (c : Cache)
    → has_target rs c.ranking_id ≡ true
    → has_target (filter (not_id j) rs) (unlink j c).ranking_id ≡ true
target-unlink j rs c h = elim (Option-cases c.ranking_id) [
  | inl e ↦ rw e refl
  | inr (k, e) ↦ elim (Bool-cases (k == j)) [
    | inl same ↦ rw (e, same) refl
    | inr other ↦ rw (e, other) (has_ranking-filter j k rs (ground arith) (cc (h, e)))
  ]
]

caches-drop :
    (j : ℕ) (rs : List Ranking) (cs : List Cache)
    → CachesLinked rs cs
    → CachesLinked (filter (not_id j) rs) (map (unlink j) cs)
caches-drop j rs [] h = tt
caches-drop j rs (c ∷ cs) h = (target-unlink j rs c h.0, caches-drop j rs cs h.1)

pub rows-drop :
    (j : ℕ) (rs : List Ranking) (rows : List Attached)
    → RowsLinked rs rows
    → RowsLinked (filter (not_id j) rs) (filter (is_attached j) rows)
rows-drop j rs [] h = tt
rows-drop j rs (a ∷ rows) h = elim (Bool-cases (a.ranking_id == j)) [
  | inl same ↦ rw same (rows-drop j rs rows h.1)
  | inr other ↦
      rw other (has_ranking-filter j a.ranking_id rs (ground arith) h.0, rows-drop j rs rows h.1)
]

IsLinked-drop_ranking : (j : ℕ) (db : Db) → IsLinked db → IsLinked (drop_ranking j db)
unfolding drop_ranking
IsLinked-drop_ranking j db h = record {
  caches_linked = caches-drop j db.rankings db.caches h.caches_linked;
  data_linked = rows-drop j db.rankings db.ranking_data h.data_linked;
  stats_linked = rows-drop j db.rankings db.ranking_stats h.stats_linked;
}

IsLinked-drop_unkept :
    (really : Bool) (rrs : List Mark) (db : Db) → IsLinked db → IsLinked (drop_unkept really rrs db)
unfolding drop_unkept
IsLinked-drop_unkept really [] db h = h
IsLinked-drop_unkept true (m ∷ rrs) db h = elim (Bool-cases m.keep) [
  | inl stays ↦ rw stays (IsLinked-drop_unkept true rrs db h)
  | inr goes ↦ rw goes (
      IsLinked-drop_unkept true rrs (drop_ranking m.ranking.id db)
        (IsLinked-drop_ranking m.ranking.id db h))
]
IsLinked-drop_unkept false (m ∷ rrs) db h = elim (Bool-cases m.keep) [
  | inl stays ↦ rw stays (IsLinked-drop_unkept false rrs db h)
  | inr goes ↦ rw goes (IsLinked-drop_unkept false rrs db h)
]

IsLinked-result :
    (really : Bool) (db : Db) (found : Result (List Mark))
    → IsLinked db
    → IsLinked (atomic (lift found >>= λ rrs. modify (drop_unkept really rrs)) db).1
IsLinked-result really db (ok rrs) h = IsLinked-drop_unkept really rrs db h
IsLinked-result really db (err e) h = h

-- Where every foreign key to a ranking is null or the id of a ranking, it is so after the deletion,
-- dry or not.
pub delete_old_rankings-IsLinked :
    (do_delete : Bool) (n : ℕ) (db : Db)
    → IsLinked db
    → IsLinked (delete_old_rankings do_delete n db).1
unfolding delete_old_rankings
delete_old_rankings-IsLinked do_delete n db h =
    IsLinked-result do_delete db (marks n (complete_rankings db.rankings)) h
