-- ===== src/Views/Modified.antt =====
-- When a client that has the statistics is told that they have not been modified.
use rankedftw.Enums.{stat_v1_ids}
use rankedftw.Enums.Mode as Mode
use rankedftw.Prelude.{
  ℕ, ◌≤◌, ◌*◌, ◌/◌, ◌==◌, leb, Bool, true, false, Option, none, some, ◌≡◌, ◌↔◌, inl, inr, refl, ap,
  arith, Bool-cases,
}
use rankedftw.Prelude.Clock.{Time, second}
use rankedftw.Prelude.Int.{ℤ}
use rankedftw.Prelude.Result.{Result, ok, err}
use rankedftw.Views.Statistics.{
  StatsResponse, StatsAnswer, no_such_mode, responds, is_stat_mode, if_modified, stats_response,
  http_date, unix_of, stats_raw,
}
use Prim.Native.String.{String}

leb_iff : (a b : ℕ) → (leb a b ≡ true) ↔ (a ≤ b)
leb_iff a b = ground arith

abbrev pub is_not_modified : Result StatsAnswer → Bool
is_not_modified (ok (responds r)) = r.status == 304
is_not_modified (ok no_such_mode) = false
is_not_modified (err e) = false

if_modified-last_modified :
    (b : Bool) (u now : Time) (stats : Result String) (r : StatsResponse)
    → if_modified b u now stats ≡ ok (responds r)
    → r.last_modified ≡ http_date u
if_modified-last_modified true u now stats r h =
    let same : r ≡ stats_response u now 304 none = cc in ap (λ q. q.last_modified) same
if_modified-last_modified false u now (ok text) r h =
    let same : r ≡ stats_response u now 200 (some text) = cc in ap (λ q. q.last_modified) same
if_modified-last_modified false u now (err e) r h = absurd cc

is_not_modified-if_modified :
    (b : Bool) (u now : Time) (stats : Result String)
    → is_not_modified (if_modified b u now stats) ≡ b
is_not_modified-if_modified true u now stats = refl
is_not_modified-if_modified false u now (ok text) = refl
is_not_modified-if_modified false u now (err e) = refl

-- For any mode, and any two requests for its statistics, of which the second gives back the time of
-- modification in the first one's response: the second is answered with 304 exactly when the last
-- update at the second is not after the second, rounded down, of the last update at the first.
pub stats_raw-again :
    (ranking_stats : ℤ → Result String) (mode : ℤ) (first_updated last_updated first_now now : Time)
    (header : Option ℕ) (r : StatsResponse)
    → stats_raw ranking_stats mode first_updated first_now header ≡ ok (responds r)
    → (is_not_modified (stats_raw ranking_stats mode last_updated now (some r.last_modified))
        ≡ true)
      ↔ (unix_of last_updated ≤ unix_of first_updated / second * second)
unfolding stats_raw
stats_raw-again ranking_stats mode first_updated last_updated first_now now header r h =
    elim (Bool-cases (is_stat_mode mode (stat_v1_ids Mode.mapping))) [
      | inl e ↦
          let seconds =
            if_modified-last_modified _ first_updated first_now (ranking_stats mode) r
              (rw e at h) in
          rw
            (
              e,
              seconds,
              is_not_modified-if_modified
                  (leb (unix_of last_updated) (http_date first_updated * second)) last_updated now
                  (ranking_stats mode),
            )
            (leb_iff (unix_of last_updated) (http_date first_updated * second))
      | inr e ↦ absurd (let no : ok no_such_mode ≡ ok (responds r) = rw e at h in cc)
    ]
