-- ===== src/Retention/Sources.antt =====
-- The entries of the lists of `delete_old_rankings` of main/delete.py as rows of the table, and the
-- place of an entry by its id.
use rankedftw.Store.Rows.{later_first}
use rankedftw.Prelude.Objects.{filter}
use rankedftw.Prelude.Sort.{sort_by, insert_by}
use rankedftw.Store.{Ranking}
use rankedftw.Prelude.{
  refl, inr, inl, ◌==◌, zero, suc, Bool-cases, some, arith, [], ◌≡◌, ◌∷◌, get_elem?, ℕ, List, Bool,
}
use rankedftw.Retention.{Mark, unmarked}
use rankedftw.Retention.Flags.{flag, Grows}
use rankedftw.Retention.Order.{NoRanking, HasKeys, is_listed, complete_rankings}
use rankedftw.Retention.Purge.{find}

abbrev pub Sourced : List Ranking → List Mark → Type 0
Sourced rs [] = Unit
Sourced rs (m ∷ a) = (find m.ranking.id rs ≡ some m.ranking) × Sourced rs a

abbrev Rows : List Ranking → List Ranking → Type 0
Rows rs [] = Unit
Rows rs (q ∷ qs) = (find q.id rs ≡ some q) × Rows rs qs

Rows-cons : (r : Ranking) (rs qs : List Ranking) → NoRanking r.id qs → Rows rs qs → Rows (r ∷ rs) qs
Rows-cons r rs [] n h = tt
Rows-cons r rs (q ∷ qs) n h = ground (arith, n.0, h.0, Rows-cons r rs qs n.1 h.1)

Rows-self : (rs : List Ranking) → HasKeys rs → Rows rs rs
Rows-self [] h = tt
Rows-self (r ∷ rs) h = (ground arith, Rows-cons r rs rs h.0 (Rows-self rs h.1))

Rows-filter : (rs qs : List Ranking) → Rows rs qs → Rows rs (filter is_listed qs)
Rows-filter rs [] h = tt
Rows-filter rs (q ∷ qs) h = ground (arith, h.0, Rows-filter rs qs h.1)

Rows-insert_by :
    (rs : List Ranking) (q : Ranking) (qs : List Ranking)
    → find q.id rs ≡ some q
    → Rows rs qs
    → Rows rs (insert_by later_first q qs)
unfolding insert_by
Rows-insert_by rs q [] e h = (e, tt)
Rows-insert_by rs q (x ∷ qs) e h = ground (arith, h.0, Rows-insert_by rs q qs e h.1)

Rows-sort_by : (rs qs : List Ranking) → Rows rs qs → Rows rs (sort_by later_first qs)
unfolding sort_by
Rows-sort_by rs [] h = tt
Rows-sort_by rs (q ∷ qs) h =
    Rows-insert_by rs q (sort_by later_first qs) h.0 (Rows-sort_by rs qs h.1)

Sourced-unmarked : (rs qs : List Ranking) → Rows rs qs → Sourced rs (unmarked qs)
unfolding unmarked
Sourced-unmarked rs [] h = tt
Sourced-unmarked rs (q ∷ qs) h = (h.0, Sourced-unmarked rs qs h.1)

pub Sourced-complete :
    (rs : List Ranking) → HasKeys rs → Sourced rs (unmarked (complete_rankings rs))
Sourced-complete rs h =
    Sourced-unmarked rs (complete_rankings rs)
      (Rows-sort_by rs (filter is_listed rs) (Rows-filter rs rs (Rows-self rs h)))

pub Sourced-Grows : (rs : List Ranking) (a b : List Mark) → Grows a b → Sourced rs a → Sourced rs b
Sourced-Grows rs [] [] g h = tt
Sourced-Grows rs [] (n ∷ b) g h = absurd g
Sourced-Grows rs (m ∷ a) [] g h = absurd g
Sourced-Grows rs (m ∷ a) (n ∷ b) g h = (rw g.0 h.0, Sourced-Grows rs a b g.2 h.1)

module _ (le : Mark → Mark → Bool) (rs : List Ranking) where
  Sourced-insert_by :
      (m : Mark) (a : List Mark)
      → find m.ranking.id rs ≡ some m.ranking
      → Sourced rs a
      → Sourced rs (insert_by le m a)
  unfolding insert_by
  Sourced-insert_by m [] e h = (e, tt)
  Sourced-insert_by m (x ∷ a) e h = ground (arith, h.0, Sourced-insert_by m a e h.1)

  pub Sourced-sort_by : (a : List Mark) → Sourced rs a → Sourced rs (sort_by le a)
  unfolding sort_by
  Sourced-sort_by [] h = tt
  Sourced-sort_by (m ∷ a) h = Sourced-insert_by m (sort_by le a) h.0 (Sourced-sort_by a h.1)

pub Sourced-elem :
    (rs : List Ranking) (a : List Mark) (i : ℕ) {m : Mark}
    → Sourced rs a
    → get_elem? a i ≡ some m
    → find m.ranking.id rs ≡ some m.ranking
Sourced-elem rs [] i h e = cc
Sourced-elem rs (x ∷ a) zero h e = ground (arith, h.0)
Sourced-elem rs (x ∷ a) (suc i) h e = Sourced-elem rs a i h.1 e

-- The place of a flag.
pub flag_place :
    (k : ℕ) (a : List Mark) (b : Bool)
    → flag k a ≡ some b
    → (i : ℕ) × (m : Mark) × (get_elem? a i ≡ some m) × (m.ranking.id ≡ k) × (m.keep ≡ b)
unfolding flag
flag_place k [] b e = cc
flag_place k (x ∷ a) b e = elim (Bool-cases (x.ranking.id == k)) [
  | inl here ↦ (0, x, refl, ground arith, ground arith)
  | inr there ↦
      let (i, m, at, has, set) = flag_place k a b (ground arith) in (suc i, m, at, has, set)
]
