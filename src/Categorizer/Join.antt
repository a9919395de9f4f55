-- ===== src/Categorizer/Join.antt =====
-- The guesses from the join times and from the fetch time, over a table of seasons that is a chain.
use native.Mathlib.Decide.{dec_lt}
use rankedftw.Categorizer.{
  same_season, next_season, far_season, get_season_based_on_join_times, Guess,
}
use rankedftw.Prelude.Int.{negsuc, pos, ℤ}
use rankedftw.Prelude.Result.{cat_error, err, ok, Result}
use rankedftw.Season.{is_open, near_end, near_start, get_next, get_active, is_active_at}
use rankedftw.Prelude.Objects.{filter}
use rankedftw.Prelude.Clock.{date, Time, Day}
use rankedftw.Store.{Season}
use rankedftw.Prelude.{
  ◌+◌, ap, inr, inl, Bool-cases, arith, [], ◌∷◌, ◌≤◌, ◌<◌, none, ◌⊎◌, some, List, ◌≡◌, ℕ, Option,
}
use rankedftw.Season.Chain.{IsComing, IsChain, open_season, closed_season}
use rankedftw.Season.Queries.{
  get_next_lem, active_in_chain, Covers, has_id, before_chain, coming_inactive,
}

abbrev Dated : Option Day → Type 0
Dated none = ⊥
Dated (some d) = Unit

-- The season `s` is `u`, or an earlier one that has ended.
abbrev Precedes : Season → Season → Type 0
Precedes s u = (s ≡ u) ⊎ ((s.id < u.id) × Dated s.end_date)

active_id :
    {n : ℕ} {d : Day} {seasons : List Season} (t : Day) (s : Season)
    → IsChain n d seasons
    → filter (is_active_at t) seasons ≡ s ∷ []
    → n ≤ s.id
active_id t s (open_season {s = h} {rest = rest} i st en c) f =
    ground (arith, coming_inactive _ t rest c)
active_id t s (closed_season {s = h} {rest = rest} e i st en le c) f =
    elim (Bool-cases (is_active_at t h)) [
      | inl act ↦ ground arith
      | inr off ↦ let deeper = active_id t s c (ground arith) in omega (arith, deeper)
    ]

active-Precedes :
    {n : ℕ} {d : Day} {seasons : List Season} (t t' : Day) (s u : Season)
    → IsChain n d seasons
    → t ≤ t'
    → filter (is_active_at t) seasons ≡ s ∷ []
    → filter (is_active_at t') seasons ≡ u ∷ []
    → Precedes s u
active-Precedes t t' s u (open_season {s = h} {rest = rest} i st en c) le f g =
    ground (arith, coming_inactive _ t rest c, coming_inactive _ t' rest c)
active-Precedes t t' s u (closed_season {s = h} {rest = rest} e i st en se c) le f g =
    elim (Bool-cases (is_active_at t h)) [
      | inl first ↦ elim (Bool-cases (is_active_at t' h)) [
        | inl second ↦ inl (ground arith)
        | inr later ↦
            let deeper = active_id t' u c (ground arith) in
            let same : h ≡ s = ground arith in
            inr (rw (← same) (omega (arith, deeper)), rw (← same, en) tt)
      ]
      | inr off ↦ elim (Bool-cases (is_active_at t' h)) [
        | inl second ↦ ground (arith, before_chain t c)
        | inr later ↦ active-Precedes t t' s u c le (ground arith) (ground arith)
      ]
    ]

coming_id : (n k : ℕ) (rest : List Season) → IsComing n rest → k < n → filter (has_id k) rest ≡ []
coming_id n k [] h lt = absurd h
coming_id n k (s ∷ []) h lt = ground arith
coming_id n k (s ∷ u ∷ rest) h lt = absurd h

earlier_id :
    {n : ℕ} {d : Day} {seasons : List Season} (k : ℕ)
    → IsChain n d seasons
    → k < n
    → filter (has_id k) seasons ≡ []
earlier_id k (open_season {s = s} {rest = rest} i st en c) h = ground (arith, coming_id _ k rest c)
earlier_id k (closed_season {s = s} {rest = rest} e i st en le c) h = ground (arith, earlier_id k c)

-- Up to the id of an active season every id of the chain has one row.
row_in_chain :
    {n : ℕ} {d : Day} {seasons : List Season} (k : ℕ) (t : Day) (u : Season)
    → IsChain n d seasons
    → n ≤ k
    → k ≤ u.id
    → filter (is_active_at t) seasons ≡ u ∷ []
    → (s : Season) × (filter (has_id k) seasons ≡ s ∷ []) × (s.id ≡ k)
row_in_chain k t u (open_season {s = s} {rest = rest} i st en c) lo hi f = (
  s,
  ground (arith, coming_inactive _ t rest c, coming_id _ k rest c),
  ground (arith, coming_inactive _ t rest c),
)
row_in_chain {n = n} k t u (closed_season {s = s} {rest = rest} e i st en le c) lo hi f =
    elim (dec_lt n k) [
      | no here ↦ (s, ground (arith, earlier_id k c), omega arith)
      | yes above ↦ elim (Bool-cases (is_active_at t s)) [
        | inl act ↦
            let same : s ≡ u = ground arith in
            absurd (omega (arith, ap (λ (x : Season). x.id) same))
        | inr off ↦
            let (v, found, has) = row_in_chain k t u c (omega arith) hi (ground arith) in
            (v, ground (arith, found), has)
      ]
    ]

-- 0, or -1 or 1.
abbrev pub IsValid : ℤ → Type 0
IsValid (pos n) = n ≤ 1
IsValid (negsuc n) = n ≤ 0

-- What the join times of a ladder say, where `first` and `last` are the seasons of the two joins.
abbrev pub Says : Season → Season → Result Guess → Type 0
Says first last (ok (none, v)) = ⊥
Says first last (ok (some s, v)) = (first.id ≤ s.id) × (s.id ≤ last.id) × IsValid v
Says first last (err cat_error) = first.id < last.id
Says first last (err _) = ⊥

module _ (first last : Season) (d d' : Day) (started_first : Dated first.start_date)
    (started_last : Dated last.start_date) where
  same_season-Says : first ≡ last → Says first last (same_season first last d d')
  unfolding same_season near_start near_end is_open
  same_season-Says same = ground arith

  next_season-Says :
      first.id + 1 ≡ last.id → Dated first.end_date → Says first last (next_season first last d d')
  unfolding next_season near_start near_end
  next_season-Says e closed = ground arith

  far_season-Says :
      (seasons : List Season) (between : Season)
      → first.id < last.id
      → Dated first.end_date
      → (first.id + 2 ≡ last.id
          → (get_next seasons first ≡ ok (some between)) × (between.id ≡ first.id + 1))
      → Says first last (far_season seasons first last d d')
  unfolding far_season near_start near_end
  far_season-Says seasons between lt closed found = ground arith

Covers-Dated : (s : Season) (t : Day) → Covers s t → Dated s.start_date
Covers-Dated s t c = ground arith

module _ {n : ℕ} {d : Day} (seasons : List Season) (first_join last_join : Time)
    (first last : Season) (chain : IsChain n d seasons) (order : first_join ≤ last_join)
    (active_first : filter (is_active_at (date first_join)) seasons ≡ first ∷ [])
    (active_last : filter (is_active_at (date last_join)) seasons ≡ last ∷ [])
    (covers_first : Covers first (date first_join))
    (covers_last : Covers last (date last_join)) where
  first_found : get_active seasons (date first_join) ≡ ok (some first)
  unfolding get_active
  first_found = rw active_first

  last_found : get_active seasons (date last_join) ≡ ok (some last)
  unfolding get_active
  last_found = rw active_last

  next_found :
      first.id < last.id
      → (between : Season) × (get_next seasons first ≡ ok (some between))
        × (between.id ≡ first.id + 1)
  next_found lt =
      let low = active_id (date first_join) first chain active_first in
      let (s, found, has) =
        row_in_chain (first.id + 1) (date last_join) last chain (omega (arith, low)) (omega arith)
          active_last in
      (s, rw (get_next_lem seasons first, found), has)

  lookups-Says :
      Precedes first last
      → Says first last (get_season_based_on_join_times seasons first_join last_join)
  unfolding get_season_based_on_join_times
  lookups-Says (inl same) = ground (
    arith,
    first_found,
    last_found,
    same_season-Says first last (date first_join) (date last_join)
        (Covers-Dated first _ covers_first) (Covers-Dated last _ covers_last) same,
  )
  lookups-Says (inr (lt, closed)) =
      let (between, found, has) = next_found lt in
      ground (
        arith,
        first_found,
        last_found,
        next_season-Says first last (date first_join) (date last_join)
            (Covers-Dated first _ covers_first) (Covers-Dated last _ covers_last),
        far_season-Says first last (date first_join) (date last_join)
            (Covers-Dated first _ covers_first) (Covers-Dated last _ covers_last) seasons between lt
            closed (λ _. (found, has)),
      )

-- The table of seasons is a chain whose first season has started by the first join, and the last
-- join is not before it. Then both joins fall into a season, no query and no `None` raises, and the
-- result is a season between those two with a `valid` of 0, 1 or -1, or a `CatError` if they
-- differ.
pub join_times-Says :
    {n : ℕ} {d : Day} (seasons : List Season) (first_join last_join : Time)
    → IsChain n d seasons
    → d ≤ date first_join
    → first_join ≤ last_join
    → (first last : Season) × (get_active seasons (date first_join) ≡ ok (some first))
      × (get_active seasons (date last_join) ≡ ok (some last))
      × Says first last (get_season_based_on_join_times seasons first_join last_join)
join_times-Says seasons first_join last_join c lo le =
    let (first, f, cf) = active_in_chain (date first_join) c lo in
    let (last, l, cl) = active_in_chain (date last_join) c (omega arith) in
    (
      first,
      last,
      first_found seasons first_join last_join first last c le f l cf cl,
      last_found seasons first_join last_join first last c le f l cf cl,
      lookups-Says seasons first_join last_join first last c le f l cf cl
          (active-Precedes (date first_join) (date last_join) first last c (omega arith) f l),
    )
