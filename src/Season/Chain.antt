-- ===== src/Season/Chain.antt =====
-- The shape that the table of seasons keeps: in the order of their ids the seasons follow one
-- another without a gap in ids or days, then comes the open season, then one coming season.
use rankedftw.Prelude.{ℕ, ◌+◌, ◌≤◌, ◌≡◌, none, some, List, [], ◌∷◌}
use rankedftw.Prelude.Clock.{Day}
use rankedftw.Store.{Season}

-- The one season after the open one.
abbrev pub IsComing : ℕ → List Season → Type 0
IsComing n [] = ⊥
IsComing n (s ∷ []) = (s.id ≡ n) × (s.start_date ≡ none) × (s.end_date ≡ none)
IsComing n (s ∷ t ∷ rest) = ⊥

-- The seasons from the one of id `n`, which starts on day `d`.
pub data IsChain : ℕ → Day → List Season → Type 0 where
  open_season :
      {n : ℕ} {d : Day} {s : Season} {rest : List Season}
      → s.id ≡ n
      → s.start_date ≡ some d
      → s.end_date ≡ none
      → IsComing (n + 1) rest
      → IsChain n d (s ∷ rest)
  closed_season :
      {n : ℕ} {d : Day} {s : Season} {rest : List Season} (e : Day)
      → s.id ≡ n
      → s.start_date ≡ some d
      → s.end_date ≡ some e
      → d ≤ e
      → IsChain (n + 1) (e + 1) rest
      → IsChain n d (s ∷ rest)
