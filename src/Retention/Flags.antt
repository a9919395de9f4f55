-- ===== src/Retention/Flags.antt =====
-- The flag of a ranking, by its id, through the steps that set flags and the sorts in between.
use rankedftw.Prelude.Sort.{sort_by, insert_by}
use rankedftw.Store.{Ranking}
use rankedftw.Prelude.Result.{ok}
use rankedftw.Prelude.Clock.{Time}
use rankedftw.Prelude.{
  sym, ◌==◌, refl, if◌then◌else◌, ap, true, none, ◌≢◌, zero, some, arith, [], Bool, ◌≡◌, ◌∷◌, suc,
  Option, ℕ, List,
}
use rankedftw.Retention.{Mark, kept, keep_front, keep_end, keep_seasons, keep_spaced}

-- The flag of the first entry of an id.
unfoldable pub flag : ℕ → List Mark → Option Bool
flag k [] = none
flag k (m ∷ rrs) = if m.ranking.id == k then some m.keep else flag k rrs

-- No entry has the id; no two entries have the same id.
abbrev pub Absent : ℕ → List Mark → Type 0
Absent k [] = Unit
Absent k (m ∷ rrs) = (m.ranking.id ≢ k) × Absent k rrs

abbrev pub Distinct : List Mark → Type 0
Distinct [] = Unit
Distinct (m ∷ rrs) = Absent m.ranking.id rrs × Distinct rrs

-- A list that holds the same rankings in the same places, and keeps what was kept.
abbrev pub Grows : List Mark → List Mark → Type 0
Grows [] [] = Unit
Grows [] (_ ∷ _) = ⊥
Grows (_ ∷ _) [] = ⊥
Grows (m ∷ rrs) (n ∷ rrs') =
    (n.ranking ≡ m.ranking) × (m.keep ≡ true → n.keep ≡ true) × Grows rrs rrs'

pub Absent-Grows : (k : ℕ) (a b : List Mark) → Grows a b → Absent k a → Absent k b
Absent-Grows k [] [] g h = tt
Absent-Grows k [] (n ∷ b) g h = absurd g
Absent-Grows k (m ∷ a) [] g h = absurd g
Absent-Grows k (m ∷ a) (n ∷ b) g h = (rw g.0 h.0, Absent-Grows k a b g.2 h.1)

pub Distinct-Grows : (a b : List Mark) → Grows a b → Distinct a → Distinct b
Distinct-Grows [] [] g h = tt
Distinct-Grows [] (n ∷ b) g h = absurd g
Distinct-Grows (m ∷ a) [] g h = absurd g
Distinct-Grows (m ∷ a) (n ∷ b) g h =
    (rw g.0 (Absent-Grows m.ranking.id a b g.2 h.0), Distinct-Grows a b g.2 h.1)

pub flag-Grows : (k : ℕ) (a b : List Mark) → Grows a b → flag k a ≡ some true → flag k b ≡ some true
unfolding flag
flag-Grows k [] [] g h = h
flag-Grows k [] (n ∷ b) g h = absurd g
flag-Grows k (m ∷ a) [] g h = absurd g
flag-Grows k (m ∷ a) (n ∷ b) g h =
    ground (arith, flag-Grows k a b g.2, ap (λ (r : Ranking). r.id) g.0)

Grows-refl : (a : List Mark) → Grows a a
Grows-refl [] = tt
Grows-refl (m ∷ a) = (refl, (λ h. h), Grows-refl a)

pub Grows-keep_front : (n : ℕ) (a : List Mark) → Grows a (keep_front n a)
unfolding keep_front
Grows-keep_front zero a = Grows-refl a
Grows-keep_front (suc n) [] = tt
Grows-keep_front (suc n) (m ∷ a) = (refl, (λ h. refl), Grows-keep_front n a)

-- What `keep_end` makes of a list that is not empty.
abbrev pub end_kept : Mark → List Mark → List Mark
end_kept m [] = kept m ∷ []
end_kept m (n ∷ rrs) = m ∷ end_kept n rrs

pub keep_end_lem : (m : Mark) (rrs : List Mark) → keep_end (m ∷ rrs) ≡ ok (end_kept m rrs)
unfolding keep_end
keep_end_lem m [] = refl
keep_end_lem m (n ∷ rrs) = rw (keep_end_lem n rrs)

pub Grows-end_kept : (m : Mark) (rrs : List Mark) → Grows (m ∷ rrs) (end_kept m rrs)
Grows-end_kept m [] = (refl, (λ h. refl), tt)
Grows-end_kept m (n ∷ rrs) = (refl, (λ h. h), Grows-end_kept n rrs)

pub Grows-keep_seasons : (s : ℕ) (a : List Mark) → Grows a (keep_seasons s a)
unfolding keep_seasons
Grows-keep_seasons s [] = tt
Grows-keep_seasons s (m ∷ a) =
    (ground arith, ground arith, Grows-keep_seasons m.ranking.season_id a)

pub Grows-keep_spaced : (l : Time) (a : List Mark) (k : Time) → Grows a (keep_spaced l k a)
unfolding keep_spaced
Grows-keep_spaced l [] k = tt
Grows-keep_spaced l (m ∷ a) k = (ground arith, ground arith, Grows-keep_spaced l a _)

module _ (le : Mark → Mark → Bool) where
  Absent-insert_by :
      (k : ℕ) (m : Mark) (a : List Mark)
      → m.ranking.id ≢ k
      → Absent k a
      → Absent k (insert_by le m a)
  unfolding insert_by
  Absent-insert_by k m [] n h = (n, tt)
  Absent-insert_by k m (x ∷ a) n h = ground (arith, Absent-insert_by k m a n h.1)

  pub Absent-sort_by : (k : ℕ) (a : List Mark) → Absent k a → Absent k (sort_by le a)
  unfolding sort_by
  Absent-sort_by k [] h = tt
  Absent-sort_by k (m ∷ a) h = Absent-insert_by k m (sort_by le a) h.0 (Absent-sort_by k a h.1)

  Distinct-insert_by :
      (m : Mark) (a : List Mark) → Absent m.ranking.id a → Distinct a → Distinct (insert_by le m a)
  unfolding insert_by
  Distinct-insert_by m [] h d = (tt, tt)
  Distinct-insert_by m (x ∷ a) h d = ground (
    arith,
    Distinct-insert_by m a h.1 d.1,
    Absent-insert_by x.ranking.id m a (λ e. h.0 (sym e)) d.0,
  )

  pub Distinct-sort_by : (a : List Mark) → Distinct a → Distinct (sort_by le a)
  unfolding sort_by
  Distinct-sort_by [] h = tt
  Distinct-sort_by (m ∷ a) h =
      Distinct-insert_by m (sort_by le a) (Absent-sort_by m.ranking.id a h.0)
        (Distinct-sort_by a h.1)

  flag-insert_by :
      (k : ℕ) (m : Mark) (a : List Mark)
      → Absent m.ranking.id a
      → flag k (insert_by le m a) ≡ (if m.ranking.id == k then some m.keep else flag k a)
  unfolding insert_by flag
  flag-insert_by k m [] h = refl
  flag-insert_by k m (x ∷ a) h = ground (arith, flag-insert_by k m a h.1)

  -- A sort moves no flag.
  pub flag-sort_by : (k : ℕ) (a : List Mark) → Distinct a → flag k (sort_by le a) ≡ flag k a
  unfolding sort_by flag
  flag-sort_by k [] h = refl
  flag-sort_by k (m ∷ a) h =
      rw (
        flag-insert_by k m (sort_by le a) (Absent-sort_by m.ranking.id a h.0),
        flag-sort_by k a h.1,
      )
