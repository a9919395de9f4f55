-- ===== src/Update/Batches.antt =====
-- main/update.py: the batches of ladders that `FetchManager` gives to the thread of each region. A
-- batch is the list of its query; the deque that is made of it is in Update/Queues' order.
use rankedftw.Prelude.Int.{◌==ℤ◌, leb_ℤ, ℤ}
use mathlib.Core.List.{reverse}
use rankedftw.Prelude.{
  none, ◌==◌, some, not, false, [], ◌∷◌, ◌&&◌, true, leb, Option, ℕ, List, Bool,
}
use rankedftw.Enums.League as League
use rankedftw.Enums.Mode as Mode
use rankedftw.Update.Queues.{Queue, add}
use rankedftw.Prelude.Sort.{sort_by}
use rankedftw.Prelude.Objects.{filter}
use rankedftw.Store.{Ladder, Strangeness, good}

pub record Thread : Type 0 where
  pub region : ℤ
  pub gm_batches : Queue Ladder
  pub plat_batches : Queue Ladder
  pub rest_batches : Queue Ladder

abbrev pub is_good_strangeness : Strangeness → Bool
is_good_strangeness good = true
is_good_strangeness _ = false

abbrev pub has_season : ℕ → Option ℕ → Bool
has_season season none = false
has_season season (some id) = id == season

-- `region=region, strangeness=Ladder.GOOD, season=self.ranking.season`.
abbrev pub is_good : ℤ → ℕ → Ladder → Bool
is_good region season l =
    (l.region ==ℤ region) && is_good_strangeness l.strangeness && has_season season l.season_id

abbrev pub is_plat : Ladder → Bool
is_plat l = leb_ℤ League.platinum l.league

abbrev pub is_gm : Ladder → Bool
is_gm l = l.league ==ℤ League.grandmaster

abbrev pub is_1v1 : Ladder → Bool
is_1v1 l = l.mode ==ℤ Mode.team_1v1

abbrev pub in_gm : ℤ → ℕ → Ladder → Bool
in_gm region season l = is_good region season l && is_gm l

abbrev pub in_plat : ℤ → ℕ → Ladder → Bool
in_plat region season l = is_good region season l && is_plat l && is_1v1 l && not (is_gm l)

abbrev pub in_rest : ℤ → ℕ → Ladder → Bool
in_rest region season l = is_good region season l && not (is_1v1 l && is_plat l) && not (is_gm l)

-- `order_by('updated')`.
abbrev pub by_updated : List Ladder → List Ladder
by_updated ladders = sort_by (λ (l m : Ladder). leb l.updated m.updated) ladders

unfoldable pub gm_batch : List Ladder → ℕ → ℤ → List Ladder
gm_batch ladders season region = by_updated (filter (in_gm region season) ladders)

unfoldable pub plat_batch : List Ladder → ℕ → ℤ → List Ladder
plat_batch ladders season region = by_updated (filter (in_plat region season) ladders)

unfoldable pub rest_batch : List Ladder → ℕ → ℤ → List Ladder
rest_batch ladders season region = by_updated (filter (in_rest region season) ladders)

-- `deque(...)` of a query, as the list from its right end: the last row is the first that is popped.
abbrev pub deque : List Ladder → List Ladder
deque ladders = reverse ladders

-- `start_gm`, `start_plat` and `start_rest` on the threads.
abbrev pub start_gm : List Ladder → ℕ → List Thread → List Thread
start_gm ladders season [] = []
start_gm ladders season (t ∷ threads) =
    record t { gm_batches = add (deque (gm_batch ladders season t.region)) t.gm_batches }
    ∷ start_gm ladders season threads

abbrev pub start_plat : List Ladder → ℕ → List Thread → List Thread
start_plat ladders season [] = []
start_plat ladders season (t ∷ threads) =
    record t { plat_batches = add (deque (plat_batch ladders season t.region)) t.plat_batches }
    ∷ start_plat ladders season threads

abbrev pub start_rest : List Ladder → ℕ → List Thread → List Thread
start_rest ladders season [] = []
start_rest ladders season (t ∷ threads) =
    record t { rest_batches = add (deque (rest_batch ladders season t.region)) t.rest_batches }
    ∷ start_rest ladders season threads
