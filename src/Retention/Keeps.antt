-- ===== src/Retention/Keeps.antt =====
-- Which rankings the steps of `delete_old_rankings` keep: the last ones and the first.
use rankedftw.Prelude.Result.{ok}
use rankedftw.Prelude.Sort.{sort_by}
use rankedftw.Store.{Ranking}
use rankedftw.Prelude.{
  arith, ap, ◌<◌, ◌+◌, length, get_elem?, ◌∙◌, refl, zero, true, suc, some, ◌≡◌, [], ◌≢◌, ◌∷◌, ℕ,
  List,
}
use rankedftw.Retention.{
  Mark, kept, keep_front, keep_end, keep_seasons, keep_spaced, unmarked, marks, spaced_by_time,
  earlier, smaller_id, year_2000, last_time,
}
use rankedftw.Retention.Flags.{
  Absent-Grows, Absent-sort_by, flag-sort_by, flag-Grows, keep_end_lem, Grows-keep_spaced,
  Grows-keep_front, Grows-keep_seasons, Distinct-sort_by, Grows-end_kept, Distinct-Grows, flag,
  Absent, Distinct, Grows, end_kept,
}

abbrev pub ended : List Mark → List Mark
ended [] = []
ended (m ∷ rrs) = end_kept m rrs

pub Grows-ended : (a : List Mark) → Grows a (ended a)
Grows-ended [] = tt
Grows-ended (m ∷ a) = Grows-end_kept m a

keep_end-ended : (a : List Mark) → a ≢ [] → keep_end a ≡ ok (ended a)
keep_end-ended [] h = absurd (h refl)
keep_end-ended (m ∷ a) h = keep_end_lem m a

-- The list before the first sort, and the one of the deletion.
abbrev pub seasoned : ℕ → List Ranking → List Mark
seasoned n rs = keep_seasons 0 (ended (keep_front n (unmarked rs)))

abbrev pub final : ℕ → List Ranking → List Mark
final n rs = sort_by smaller_id (spaced_by_time (sort_by earlier (seasoned n rs)))

front-ne-nil : (n : ℕ) (r : Ranking) (rs : List Ranking) → keep_front n (unmarked (r ∷ rs)) ≢ []
unfolding keep_front unmarked
front-ne-nil zero r rs = cc
front-ne-nil (suc n) r rs = cc

pub marks_lem : (n : ℕ) (r : Ranking) (rs : List Ranking) → marks n (r ∷ rs) ≡ ok (final n (r ∷ rs))
unfolding marks
marks_lem n r rs = rw (keep_end-ended (keep_front n (unmarked (r ∷ rs))) (front-ne-nil n r rs))

abbrev pub IsKeyed : List Ranking → Type 0
IsKeyed rs = Distinct (unmarked rs)

module _ (n : ℕ) (rs : List Ranking) (keyed : IsKeyed rs) where
  fronted : List Mark
  fronted = keep_front n (unmarked rs)

  pub Distinct-seasoned : Distinct (seasoned n rs)
  Distinct-seasoned =
      Distinct-Grows _ _ (Grows-keep_seasons 0 (ended (keep_front n (unmarked rs)))) (
        Distinct-Grows _ _ (Grows-ended (keep_front n (unmarked rs)))
          (Distinct-Grows _ _ (Grows-keep_front n (unmarked rs)) keyed))

  pub Distinct-final : Distinct (final n rs)
  unfolding spaced_by_time
  Distinct-final =
      let timed = sort_by earlier (seasoned n rs) in
      Distinct-sort_by smaller_id (keep_spaced (last_time timed) year_2000 timed) (
        Distinct-Grows timed _ (Grows-keep_spaced (last_time timed) timed year_2000)
          (Distinct-sort_by earlier (seasoned n rs) Distinct-seasoned))

  -- What is kept before the first sort is kept to the end.
  pub flag-final : (k : ℕ) → flag k (seasoned n rs) ≡ some true → flag k (final n rs) ≡ some true
  unfolding spaced_by_time
  flag-final k h =
      let timed = sort_by earlier (seasoned n rs) in
      let grown = Grows-keep_spaced (last_time timed) timed year_2000 in
      flag-sort_by smaller_id k (keep_spaced (last_time timed) year_2000 timed)
        (Distinct-Grows timed _ grown (Distinct-sort_by earlier (seasoned n rs) Distinct-seasoned))
      ∙ flag-Grows k timed _ grown (flag-sort_by earlier k (seasoned n rs) Distinct-seasoned ∙ h)

  flag-ended :
      (k : ℕ)
      → flag k (ended (keep_front n (unmarked rs))) ≡ some true
      → flag k (final n rs) ≡ some true
  flag-ended k h =
      flag-final k (flag-Grows k _ _ (Grows-keep_seasons 0 (ended (keep_front n (unmarked rs)))) h)

Absent-elem :
    (k : ℕ) (a : List Mark) (i : ℕ) {m : Mark}
    → Absent k a
    → get_elem? a i ≡ some m
    → m.ranking.id ≢ k
Absent-elem k [] i h e = cc
Absent-elem k (x ∷ a) zero h e = ground (arith, h.0)
Absent-elem k (x ∷ a) (suc i) h e = Absent-elem k a i h.1 e

-- The flag of an entry at a place.
pub flag_elem :
    (a : List Mark) (i : ℕ) {m : Mark}
    → Distinct a
    → get_elem? a i ≡ some m
    → flag m.ranking.id a ≡ some m.keep
unfolding flag
flag_elem [] i d e = cc
flag_elem (x ∷ a) zero d e = ground arith
flag_elem (x ∷ a) (suc i) d e =
    ground (arith, flag_elem a i d.1 e, Absent-elem x.ranking.id a i d.0 e)

front_elem :
    (n : ℕ) (rs : List Ranking) (i : ℕ) {r : Ranking}
    → i < n
    → get_elem? rs i ≡ some r
    → get_elem? (keep_front n (unmarked rs)) i ≡ some (record { ranking = r; keep = true })
unfolding keep_front unmarked
front_elem zero rs i lt e = absurd (omega arith)
front_elem (suc n) [] i lt e = cc
front_elem (suc n) (r ∷ rs) zero lt e = ground arith
front_elem (suc n) (r ∷ rs) (suc i) lt e = front_elem n rs i (omega arith) e

end_elem :
    (a : List Mark) (i : ℕ) {m : Mark}
    → i + 1 ≡ length a
    → get_elem? a i ≡ some m
    → get_elem? (ended a) i ≡ some (kept m)
end_elem [] i l e = cc
end_elem (x ∷ []) zero l e = ground arith
end_elem (x ∷ []) (suc i) l e = cc
end_elem (x ∷ y ∷ a) zero l e = absurd (omega arith)
end_elem (x ∷ y ∷ a) (suc i) l e = end_elem (y ∷ a) i (omega arith) e

pub front_place :
    (n : ℕ) (rs : List Ranking) (i : ℕ) {r : Ranking}
    → get_elem? rs i ≡ some r
    → (m : Mark) × (get_elem? (keep_front n (unmarked rs)) i ≡ some m) × (m.ranking ≡ r)
unfolding keep_front unmarked
front_place n [] i e = cc
front_place zero (r ∷ rs) zero e = (_, refl, ground arith)
front_place zero (r ∷ rs) (suc i) e = front_place zero rs i e
front_place (suc n) (r ∷ rs) zero e = (_, refl, ground arith)
front_place (suc n) (r ∷ rs) (suc i) e = front_place n rs i e

length-front : (n : ℕ) (rs : List Ranking) → length (keep_front n (unmarked rs)) ≡ length rs
unfolding keep_front unmarked
length-front zero [] = refl
length-front (suc n) [] = refl
length-front zero (r ∷ rs) = ap suc (length-front zero rs)
length-front (suc n) (r ∷ rs) = ap suc (length-front n rs)

module _ (n : ℕ) (rs : List Ranking) (keyed : IsKeyed rs) (i : ℕ) {r : Ranking}
    (at : get_elem? rs i ≡ some r) where
  Distinct-front : Distinct (keep_front n (unmarked rs))
  Distinct-front = Distinct-Grows _ _ (Grows-keep_front n (unmarked rs)) keyed

  -- The first `n` rankings of the list are kept.
  pub flag_front : i < n → flag r.id (final n rs) ≡ some true
  flag_front lt = flag-ended n rs keyed r.id (
      flag-Grows r.id _ _ (Grows-ended (keep_front n (unmarked rs)))
        (flag_elem (keep_front n (unmarked rs)) i Distinct-front (front_elem n rs i lt at)))

  -- The last ranking of the list is kept.
  pub flag_end : i + 1 ≡ length rs → flag r.id (final n rs) ≡ some true
  flag_end l =
      let (m, e, same) = front_place n rs i at in
      let placed = end_elem (keep_front n (unmarked rs)) i (omega (arith, length-front n rs)) e in
      flag-ended n rs keyed r.id (
        rw (← same) (
          flag_elem (ended (keep_front n (unmarked rs))) i
            (Distinct-Grows _ _ (Grows-ended (keep_front n (unmarked rs))) Distinct-front) placed))

-- An id that the list lacks has no flag.
pub Absent-final :
    (n : ℕ) (rs : List Ranking) (k : ℕ) → Absent k (unmarked rs) → Absent k (final n rs)
unfolding spaced_by_time
Absent-final n rs k h =
    let timed = sort_by earlier (seasoned n rs) in
    Absent-sort_by smaller_id k (keep_spaced (last_time timed) year_2000 timed) (
      Absent-Grows k timed _ (Grows-keep_spaced (last_time timed) timed year_2000) (
        Absent-sort_by earlier k (seasoned n rs) (
          Absent-Grows k _ _ (Grows-keep_seasons 0 (ended (keep_front n (unmarked rs)))) (
            Absent-Grows k _ _ (Grows-ended (keep_front n (unmarked rs)))
              (Absent-Grows k _ _ (Grows-keep_front n (unmarked rs)) h)))))
