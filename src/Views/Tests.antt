-- ===== src/Views/Tests.antt =====
-- Statistics that were updated at a whole second and half a second later, and the page that shows them.
use rankedftw.Enums.{key_get, id_get, id_by_keys, ranking_ids, stat_v1_ids}
use rankedftw.Enums.Mode as Mode
use rankedftw.Enums.Race as Race
use rankedftw.Prelude.{
  List, ℕ, ◌+◌, ◌*◌, ◌/◌, ◌≤◌, true, false, some, none, [], ◌∷◌, ◌≡◌, ◌↔◌, refl, Option,
}
use rankedftw.Prelude.Clock.{Time, second}
use rankedftw.Prelude.Int.{ℤ}
use rankedftw.Prelude.Result.{Result, ok, err, client_error, map_ok}
use rankedftw.Views.{call_client}
use rankedftw.Views.Modified.{is_not_modified, stats_raw-again}
use rankedftw.Views.Statistics.{stats_raw, responds, stats_response, unix_of, stats_page, StatsPage}
use Prim.Native.String.{String}

abbrev stats_of : ℤ → Result String
stats_of mode = ok "stats"

abbrev updated : Time
updated = 62135596800000000 + 1500000000 * second

first_answer :
    stats_raw stats_of Mode.team_1v1 updated (updated + second) none
    ≡ ok (responds (stats_response updated (updated + second) 200 (some "stats")))
unfolding stats_raw stat_v1_ids
first_answer = refl

-- Half a second within the second that the header names, the same statistics are sent again.
half_second :
    is_not_modified
      (stats_raw stats_of Mode.team_1v1 (updated + 500000) (updated + second) (some 1500000000))
    ≡ false
unfolding stats_raw stat_v1_ids
half_second = refl

stats_raw-again_example :
    (is_not_modified (stats_raw stats_of Mode.team_1v1 updated (updated + second) (some 1500000000))
      ≡ true)
    ↔ (unix_of updated ≤ unix_of updated / second * second)
stats_raw-again_example =
    stats_raw-again stats_of Mode.team_1v1 updated updated (updated + second) (updated + second)
      none (stats_response updated (updated + second) 200 (some "stats")) first_answer

abbrev races_of : Option StatsPage → List ℤ
races_of none = []
races_of (some page) = page.races

-- The unknown race is the last.
races_test :
    map_ok races_of (stats_page "1v1")
    ≡ ok (Race.zerg ∷ Race.protoss ∷ Race.terran ∷ Race.random ∷ Race.unknown ∷ [])
unfolding stats_page key_get id_by_keys ranking_ids Mode.team_size id_get
races_test = refl

abbrev fails_for : ℕ → Result ℕ
fails_for c = err client_error

-- A call that raises drops the object, and the next one makes another.
client_test : (call_client (ok 2) fails_for (some 1)).1 ≡ none
client_test = refl
