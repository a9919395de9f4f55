-- ===== src/Retention/Purge.antt =====
-- What `delete_old_rankings` leaves in the table of rankings.
use rankedftw.Store.Action.{modify, ◌>>=◌, lift, atomic}
use rankedftw.Store.Rows.{is_complete}
use rankedftw.Retention.Seasons.{flag_season}
use rankedftw.Prelude.Result.{Result, index_error, ok, err}
use rankedftw.Retention.Keeps.{Absent-final, flag_end, marks_lem, flag_front, Distinct-final, final}
use rankedftw.Retention.Order.{
  NoRanking-sort_by, NoRanking-filter, Absent-unmarked, is_listed, NoRanking, IsDescending-complete,
  HasKeys-complete, HasKeys-IsKeyed, complete_rankings, HasKeys,
}
use rankedftw.Prelude.Objects.{List-cases, filter}
use rankedftw.Store.{Ranking, Db}
use rankedftw.Prelude.{
  ==_iff, Bool-cases, inr, zero, inl, ◌⊎◌, suc, ◌≤◌, ◌≢◌, length, ◌+◌, get_elem?, ◌<◌, refl, arith,
  [], ◌∷◌, ◌==◌, none, if◌then◌else◌, false, ◌≡◌, true, some, List, Bool, ℕ, Option,
}
use rankedftw.Retention.{marks, delete_old_rankings, Mark, drop_ranking, drop_unkept, not_id}
use rankedftw.Retention.Flags.{flag, Absent, Distinct}

-- The ranking of an id.
abbrev pub find : ℕ → List Ranking → Option Ranking
find k [] = none
find k (r ∷ rs) = if r.id == k then some r else find k rs

pub find-filter :
    (j k : ℕ) (rs : List Ranking)
    → find k (filter (not_id j) rs) ≡ (if j == k then none else find k rs)
find-filter j k [] = ground arith
find-filter j k (r ∷ rs) = ground (arith, find-filter j k rs)

abbrev pub is_dropped : Option Bool → Bool
is_dropped (some false) = true
is_dropped _ = false

flag-Absent : (k : ℕ) (rrs : List Mark) → Absent k rrs → flag k rrs ≡ none
unfolding flag
flag-Absent k [] h = refl
flag-Absent k (m ∷ rrs) h = ground (arith, h.0, flag-Absent k rrs h.1)

find-drop_ranking :
    (j k : ℕ) (db : Db)
    → find k (drop_ranking j db).rankings ≡ (if j == k then none else find k db.rankings)
unfolding drop_ranking
find-drop_ranking j k db = find-filter j k db.rankings

-- The rankings whose flag is not set are gone, and all others are as they were.
find-drop_unkept :
    (k : ℕ) (rrs : List Mark) (db : Db)
    → Distinct rrs
    → find k (drop_unkept true rrs db).rankings
      ≡ (if is_dropped (flag k rrs) then none else find k db.rankings)
unfolding drop_unkept flag
find-drop_unkept k [] db d = refl
find-drop_unkept k (m ∷ rrs) db d = ground (
  arith,
  find-drop_unkept k rrs db d.1,
  find-drop_unkept k rrs (drop_ranking m.ranking.id db) d.1,
  find-drop_ranking m.ranking.id k db,
  flag-Absent m.ranking.id rrs d.0,
)

runs :
    (n : ℕ) (db : Db) (r : Ranking) (rs : List Ranking)
    → complete_rankings db.rankings ≡ r ∷ rs
    → delete_old_rankings true n db ≡ (ok tt, drop_unkept true (final n (r ∷ rs)) db)
unfolding delete_old_rankings
runs n db r rs e = rw (e, marks_lem n r rs)

marks_nil : (n : ℕ) → marks n [] ≡ err index_error
unfolding marks
marks_nil zero = refl
marks_nil (suc n) = refl

drop_dry : (rrs : List Mark) (db : Db) → drop_unkept false rrs db ≡ db
unfolding drop_unkept
drop_dry [] db = refl
drop_dry (m ∷ rrs) db = ground (arith, drop_dry rrs db)

dry_result :
    (db : Db) (found : Result (List Mark))
    → (atomic (lift found >>= λ rrs. modify (drop_unkept false rrs)) db).1 ≡ db
dry_result db (ok rrs) = drop_dry rrs db
dry_result db (err e) = refl

-- A dry run changes no table, and neither does a run where no ranking is complete.
pub delete_old_rankings_unchanged :
    (do_delete : Bool) (n : ℕ) (db : Db)
    → (do_delete ≡ false) ⊎ (complete_rankings db.rankings ≡ [])
    → (delete_old_rankings do_delete n db).1 ≡ db
unfolding delete_old_rankings
delete_old_rankings_unchanged do_delete n db (inl dry) =
    rw dry (dry_result db (marks n (complete_rankings db.rankings)))
delete_old_rankings_unchanged do_delete n db (inr none_complete) = rw (none_complete, marks_nil n)

-- Why a ranking at place `i` of the complete rankings, the latest first, is to stay: it is one of
-- the last `n`, it is the first of all, or it is the last one of its season.
pub data IsProtected (n : ℕ) (rs : List Ranking) (i : ℕ) (r : Ranking) : Type 0 where
  among_last : i < n → IsProtected n rs i r
  first_of_all : i + 1 ≡ length rs → IsProtected n rs i r
  last_of_season :
      r.season_id ≢ 0
      → ((j : ℕ) (q : Ranking) → get_elem? rs j ≡ some q → q.season_id ≡ r.season_id → q.id ≤ r.id)
      → IsProtected n rs i r

unlisted :
    (k : ℕ) (rs : List Ranking) {r : Ranking}
    → HasKeys rs
    → find k rs ≡ some r
    → is_complete r.status ≡ false
    → NoRanking k (filter is_listed rs)
unlisted k [] h e i = cc
unlisted k (q ∷ rs) {r} h e i = elim (Bool-cases (q.id == k)) [
  | inl here ↦
      let same : q ≡ r = ground arith in
      let out : is_complete q.status ≡ false = rw same i in
      rw out (NoRanking-filter is_listed k rs (rw (← (==_iff q.id k).0 here) h.0))
  | inr there ↦ ground (arith, unlisted k rs {r = r} h.1)
]

module _ (n : ℕ) (db : Db) (keys : HasKeys db.rankings) where
  abbrev listed : List Ranking
  listed = complete_rankings db.rankings

  protected_flag :
      (i : ℕ) (r : Ranking)
      → get_elem? listed i ≡ some r
      → IsProtected n listed i r
      → flag r.id (final n listed) ≡ some true
  protected_flag i r e (among_last lt) =
      flag_front n listed (HasKeys-IsKeyed listed (HasKeys-complete db.rankings keys)) i e lt
  protected_flag i r e (first_of_all l) =
      flag_end n listed (HasKeys-IsKeyed listed (HasKeys-complete db.rankings keys)) i e l
  protected_flag i r e (last_of_season real last) =
      flag_season n listed (HasKeys-IsKeyed listed (HasKeys-complete db.rankings keys))
        (IsDescending-complete db.rankings keys) i r e real last

  pub find_after :
      (k : ℕ) (r : Ranking) (rs : List Ranking)
      → listed ≡ r ∷ rs
      → find k (delete_old_rankings true n db).1.rankings
        ≡ (if is_dropped (flag k (final n listed)) then none else find k db.rankings)
  find_after k r rs e =
      rw (runs n db r rs e, ← e)
        (find-drop_unkept k (final n listed) db
          (Distinct-final n listed (HasKeys-IsKeyed listed (HasKeys-complete db.rankings keys))))

  -- Ids are unique in the table of rankings. After the deletion the row of an id is unchanged where
  -- it is, among the complete rankings by descending id, one of the first `n`, the last, or one of
  -- a season that is not 0 with the greatest id of its season.
  pub delete_old_rankings-keeps :
      (i : ℕ) (r : Ranking)
      → get_elem? listed i ≡ some r
      → IsProtected n listed i r
      → find r.id (delete_old_rankings true n db).1.rankings ≡ find r.id db.rankings
  delete_old_rankings-keeps i r e why = elim (List-cases listed) [
    | inl nothing ↦ let gone : get_elem? [] i ≡ some r = rw nothing at e in cc gone
    | inr (q, rs, shape) ↦ rw (find_after r.id q rs shape, protected_flag i r e why)
  ]

  -- Ids are unique in the table of rankings. A ranking that is not complete is still in the table
  -- after the deletion.
  delete_old_rankings-incomplete :
      (r : Ranking)
      → find r.id db.rankings ≡ some r
      → is_complete r.status ≡ false
      → find r.id (delete_old_rankings true n db).1.rankings ≡ some r
  delete_old_rankings-incomplete r e incomplete = elim (List-cases listed) [
    | inl nothing ↦ rw (delete_old_rankings_unchanged true n db (inr nothing)) e
    | inr (q, rs, shape) ↦
        rw
          (
            find_after r.id q rs shape,
            flag-Absent r.id (final n listed) (
                Absent-final n listed r.id (
                  Absent-unmarked r.id listed (
                    NoRanking-sort_by r.id (filter is_listed db.rankings)
                      (unlisted r.id db.rankings keys e incomplete)))),
          )
          e
  ]
