-- ===== src/Season/Queries.antt =====
-- The queries of `Season` of main/models.py on a table that is a chain.
use rankedftw.Prelude.Int.{eq_of_parts, int_laws, ◌+ℤ◌, pos}
use native.Mathlib.Decide.{dec_lt}
use rankedftw.Prelude.Result.{ok}
use rankedftw.Prelude.Objects.{get, filter}
use rankedftw.Prelude.{◌==◌, ◌+◌, Bool, arith, ◌∷◌, some, none, [], ◌≤◌, ◌<◌, true, ◌≡◌, List, ℕ}
use rankedftw.Season.{
  missing_to_none, get_next, get_current_season, get_active, is_active_at, is_current, lte_date,
  gte_date_or_null,
}
use rankedftw.Season.Chain.{IsChain, IsComing, open_season, closed_season}
use rankedftw.Store.{Season}
use rankedftw.Prelude.Clock.{Day}

-- A season that has started by the day and has not ended before it.
abbrev pub Covers : Season → Day → Type 0
Covers s t = (lte_date s.start_date t ≡ true) × (gte_date_or_null s.end_date t ≡ true)

pub coming_inactive :
    (n : ℕ) (t : Day) (rest : List Season) → IsComing n rest → filter (is_active_at t) rest ≡ []
coming_inactive n t [] h = absurd h
coming_inactive n t (s ∷ []) h = ground arith
coming_inactive n t (s ∷ u ∷ rest) h = absurd h

pub before_chain :
    {n : ℕ} {d : Day} {seasons : List Season} (t : Day)
    → IsChain n d seasons
    → t < d
    → filter (is_active_at t) seasons ≡ []
before_chain t (open_season {s = s} {rest = rest} i st en c) h =
    ground (arith, coming_inactive _ t rest c)
before_chain t (closed_season {s = s} {rest = rest} e i st en le c) h =
    ground (arith, before_chain t c)

-- In a chain of seasons, `get_active` finds no season for a day before the first season.
get_active-before :
    {n : ℕ} {d : Day} {seasons : List Season} (t : Day)
    → IsChain n d seasons
    → t < d
    → get_active seasons t ≡ ok none
unfolding get_active
get_active-before t c h = rw (before_chain t c h)

pub active_in_chain :
    {n : ℕ} {d : Day} {seasons : List Season} (t : Day)
    → IsChain n d seasons
    → d ≤ t
    → (s : Season) × (filter (is_active_at t) seasons ≡ s ∷ []) × Covers s t
active_in_chain t (open_season {s = s} {rest = rest} i st en c) h =
    (s, ground (arith, coming_inactive _ t rest c), ground arith)
active_in_chain {d = d} t (closed_season {s = s} {rest = rest} e i st en le c) h =
    elim (dec_lt e t) [
      | yes after ↦
          let (u, found, covers) = active_in_chain t c (omega arith) in
          (u, ground (arith, found), covers)
      | no within ↦ (s, ground (arith, before_chain t c), ground arith)
    ]

-- In a chain of seasons, from the first day of its first season on, `get_active` finds a season
-- that covers the day.
get_active-IsChain :
    {n : ℕ} {d : Day} {seasons : List Season} (t : Day)
    → IsChain n d seasons
    → d ≤ t
    → (s : Season) × (get_active seasons t ≡ ok (some s)) × Covers s t
unfolding get_active
get_active-IsChain t c h = let (s, found, covers) = active_in_chain t c h in (s, rw found, covers)

pub coming_not_current :
    (n : ℕ) (rest : List Season) → IsComing n rest → filter is_current rest ≡ []
coming_not_current n [] h = absurd h
coming_not_current n (s ∷ []) h = ground arith
coming_not_current n (s ∷ u ∷ rest) h = absurd h

current_in_chain :
    {n : ℕ} {d : Day} {seasons : List Season}
    → IsChain n d seasons
    → (s : Season) × (filter is_current seasons ≡ s ∷ []) × (s.end_date ≡ none)
current_in_chain (open_season {s = s} {rest = rest} i st en c) =
    (s, ground (arith, coming_not_current _ rest c), en)
current_in_chain (closed_season {s = s} {rest = rest} e i st en le c) =
    let (u, found, opened) = current_in_chain c in (u, ground (arith, found), opened)

-- In a chain of seasons `get_current_season` finds a season, and it is open.
get_current_season-IsChain :
    {n : ℕ} {d : Day} {seasons : List Season}
    → IsChain n d seasons
    → (s : Season) × (get_current_season seasons ≡ ok s) × (s.end_date ≡ none)
unfolding get_current_season
get_current_season-IsChain c = let (s, found, opened) = current_in_chain c in (s, rw found, opened)

pos_next : (n : ℕ) → (pos n +ℤ pos 1) ≡ pos (n + 1)
pos_next n = omega (int_laws, eq_of_parts (pos n +ℤ pos 1) (pos (n + 1)))

abbrev pub has_id : ℕ → Season → Bool
has_id n s = s.id == n

-- The next season is the row of the next id.
pub get_next_lem :
    (seasons : List Season) (s : Season)
    → get_next seasons s ≡ missing_to_none (get (has_id (s.id + 1)) seasons)
unfolding get_next
get_next_lem seasons s = simp pos_next
