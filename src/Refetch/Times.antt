-- ===== src/Refetch/Times.antt =====
-- The times that `Ranking.set_data_time` of main/models.py sets.
use rankedftw.Prelude.Result.{ok}
use rankedftw.Store.{Ranking, Season}
use Prim.Native.Nat.{min}
use rankedftw.Season.{end_time, is_open}
use rankedftw.Prelude.{refl, inr, sym, inl, Option-cases, some, some, ◌≡◌, arith, ◌≤◌, ℕ}
use rankedftw.Prelude.Clock.{combine_max, Day, from_unix}
use rankedftw.Refetch.{set_data_time}

min-left : (a b : ℕ) → min a b ≤ a
min-left a b = omega arith

min-right : (a b : ℕ) → min a b ≤ b
min-right a b = omega arith

-- Where `set_data_time` returns, the data time is at most the greatest time of the ranked data, and
-- at most the end of the season where the season has one.
set_data_time-le :
    (season : Season) (times : ℕ × ℕ) (ranking timed : Ranking)
    → set_data_time season times ranking ≡ ok timed
    → (timed.data_time ≤ timed.max_data_time)
      × (timed.max_data_time ≡ from_unix times.1)
      × ((d : Day) → season.end_date ≡ some d → timed.data_time ≤ combine_max d)
unfolding set_data_time from_unix is_open end_time
set_data_time-le season (a, b) ranking timed h = elim (Option-cases season.end_date) [
  | inl e ↦
      let start = record ranking {
        min_data_time = from_unix a;
        max_data_time = from_unix b;
        data_time = from_unix b;
      } in
      let same : ok start ≡ ok timed = rw e at h in
      let is : start ≡ timed = cc in
      rw (sym is) (omega arith, refl, λ d f. let no : ⊥ = cc in absurd no)
  | inr (d, e) ↦
      let start = record ranking {
        min_data_time = from_unix a;
        max_data_time = from_unix b;
        data_time = min (from_unix b) (combine_max d);
      } in
      let same : ok start ≡ ok timed = rw e at h in
      let is : start ≡ timed = cc in
      rw (sym is) (
        min-left (from_unix b) (combine_max d),
        refl,
        λ c f. let day : d ≡ c = cc in rw (sym day) (min-right (from_unix b) (combine_max d)),
      )
]
