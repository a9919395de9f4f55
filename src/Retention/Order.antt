-- ===== src/Retention/Order.antt =====
-- The rankings that `delete_old_rankings` looks at: the complete ones by descending id.
use rankedftw.Store.Rows.{is_complete, later_first}
use rankedftw.Prelude.Objects.{filter}
use rankedftw.Prelude.Sort.{sort_by, insert_by}
use rankedftw.Store.{Ranking}
use rankedftw.Prelude.{sym, arith, [], ◌≢◌, ◌∷◌, Bool, ℕ, List}
use rankedftw.Retention.{unmarked}
use rankedftw.Retention.Flags.{Absent}
use rankedftw.Retention.Keeps.{IsKeyed}
use rankedftw.Retention.Seasons.{IsDescending}

abbrev pub is_listed : Ranking → Bool
is_listed r = is_complete r.status

abbrev pub complete_rankings : List Ranking → List Ranking
complete_rankings rs = sort_by later_first (filter is_listed rs)

-- No ranking of the list has the id.
abbrev pub NoRanking : ℕ → List Ranking → Type 0
NoRanking k [] = Unit
NoRanking k (r ∷ rs) = (r.id ≢ k) × NoRanking k rs

abbrev pub HasKeys : List Ranking → Type 0
HasKeys [] = Unit
HasKeys (r ∷ rs) = NoRanking r.id rs × HasKeys rs

pub Absent-unmarked : (k : ℕ) (rs : List Ranking) → NoRanking k rs → Absent k (unmarked rs)
unfolding unmarked
Absent-unmarked k [] h = tt
Absent-unmarked k (r ∷ rs) h = (h.0, Absent-unmarked k rs h.1)

pub HasKeys-IsKeyed : (rs : List Ranking) → HasKeys rs → IsKeyed rs
unfolding unmarked
HasKeys-IsKeyed [] h = tt
HasKeys-IsKeyed (r ∷ rs) h = (Absent-unmarked r.id rs h.0, HasKeys-IsKeyed rs h.1)

pub NoRanking-filter :
    (p : Ranking → Bool) (k : ℕ) (rs : List Ranking) → NoRanking k rs → NoRanking k (filter p rs)
NoRanking-filter p k [] h = tt
NoRanking-filter p k (r ∷ rs) h = ground (arith, NoRanking-filter p k rs h.1)

pub HasKeys-filter : (p : Ranking → Bool) (rs : List Ranking) → HasKeys rs → HasKeys (filter p rs)
HasKeys-filter p [] h = tt
HasKeys-filter p (r ∷ rs) h =
    ground (arith, HasKeys-filter p rs h.1, NoRanking-filter p r.id rs h.0)

NoRanking-insert_by :
    (k : ℕ) (r : Ranking) (rs : List Ranking)
    → r.id ≢ k
    → NoRanking k rs
    → NoRanking k (insert_by later_first r rs)
unfolding insert_by
NoRanking-insert_by k r [] n h = (n, tt)
NoRanking-insert_by k r (q ∷ rs) n h = ground (arith, NoRanking-insert_by k r rs n h.1)

pub NoRanking-sort_by :
    (k : ℕ) (rs : List Ranking) → NoRanking k rs → NoRanking k (sort_by later_first rs)
unfolding sort_by
NoRanking-sort_by k [] h = tt
NoRanking-sort_by k (r ∷ rs) h =
    NoRanking-insert_by k r (sort_by later_first rs) h.0 (NoRanking-sort_by k rs h.1)

HasKeys-insert_by :
    (r : Ranking) (rs : List Ranking)
    → NoRanking r.id rs
    → HasKeys rs
    → HasKeys (insert_by later_first r rs)
unfolding insert_by
HasKeys-insert_by r [] h d = (tt, tt)
HasKeys-insert_by r (q ∷ rs) h d =
    ground
      (arith, HasKeys-insert_by r rs h.1 d.1, NoRanking-insert_by q.id r rs (λ e. h.0 (sym e)) d.0)

HasKeys-sort_by : (rs : List Ranking) → HasKeys rs → HasKeys (sort_by later_first rs)
unfolding sort_by
HasKeys-sort_by [] h = tt
HasKeys-sort_by (r ∷ rs) h =
    HasKeys-insert_by r (sort_by later_first rs) (NoRanking-sort_by r.id rs h.0)
      (HasKeys-sort_by rs h.1)

IsDescending-insert_by :
    (r : Ranking) (rs : List Ranking)
    → NoRanking r.id rs
    → IsDescending rs
    → IsDescending (insert_by later_first r rs)
unfolding insert_by
IsDescending-insert_by r [] h d = tt
IsDescending-insert_by r (q ∷ []) h d = ground (arith, h.0)
IsDescending-insert_by r (q ∷ p ∷ rs) h d =
    ground (arith, h.0, h.1.0, IsDescending-insert_by r (p ∷ rs) h.1 d.1)

IsDescending-sort_by : (rs : List Ranking) → HasKeys rs → IsDescending (sort_by later_first rs)
unfolding sort_by
IsDescending-sort_by [] h = tt
IsDescending-sort_by (r ∷ rs) h =
    IsDescending-insert_by r (sort_by later_first rs) (NoRanking-sort_by r.id rs h.0)
      (IsDescending-sort_by rs h.1)

-- Where ids are unique in the table, they are unique and strictly descending in the list.
pub HasKeys-complete : (rs : List Ranking) → HasKeys rs → HasKeys (complete_rankings rs)
HasKeys-complete rs h = HasKeys-sort_by (filter is_listed rs) (HasKeys-filter is_listed rs h)

pub IsDescending-complete : (rs : List Ranking) → HasKeys rs → IsDescending (complete_rankings rs)
IsDescending-complete rs h =
    IsDescending-sort_by (filter is_listed rs) (HasKeys-filter is_listed rs h)
