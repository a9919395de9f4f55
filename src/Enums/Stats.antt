-- ===== src/Enums/Stats.antt =====
-- The statistics of a ranking: the counts that `EnumMeta` sets against the ids that `EnumBase`
-- lists, and `RankingStats.raw_v1_index` of main/models.py.
use native.Mathlib.Decide.{dec_lt}
use rankedftw.Prelude.{sym, ℕ, ◌+◌, ◌*◌, ◌≤◌, ◌<◌, ◌≡◌, ap, none, List, [], ◌∷◌, arith, length}
use rankedftw.Prelude.Int.{leb_ℤ}
use rankedftw.Prelude.Sort.{length-sort_by}
use rankedftw.Enums.{
  Row, Meta, meta_loop, meta_row, enum_meta, stat_ids_upto, stat_v0_ids, stat_v1_ids,
}
use rankedftw.Enums.Race
use rankedftw.Enums.League
use rankedftw.Enums.Region
use rankedftw.Enums.Version

meta_loop_counts :
    (rows : List Row) (m : Meta)
    → ((meta_loop rows m).v0_stat_count ≡ m.v0_stat_count + length (stat_ids_upto 0 rows))
      × ((meta_loop rows m).v1_stat_count ≡ m.v1_stat_count + length (stat_ids_upto 1 rows))
unfolding meta_loop stat_ids_upto
meta_loop_counts [] m = omega arith
meta_loop_counts (r ∷ rows) m = ground (arith, meta_loop_counts rows (meta_row r m))

-- Over any table, the counts that the loop of the metaclass keeps are the numbers of ids that
-- `stat_v0_ids` and `stat_v1_ids` list.
enum_meta-counts :
    (rows : List Row)
    → ((enum_meta rows).v0_stat_count ≡ length (stat_v0_ids rows))
      × ((enum_meta rows).v1_stat_count ≡ length (stat_v1_ids rows))
unfolding enum_meta stat_v0_ids stat_v1_ids
enum_meta-counts rows =
    let counts =
      meta_loop_counts rows
        (record { default_id = none; default_key = none; v0_stat_count = 0; v1_stat_count = 0 }) in
    (omega (arith, counts.0), omega (arith, counts.1, length-sort_by leb_ℤ (stat_ids_upto 1 rows)))

-- `Version.V1_STAT_COUNT` and the like.
abbrev v1_stat_count : List Row → ℕ
v1_stat_count rows = (enum_meta rows).v1_stat_count

-- `RankingStats.V1_DATA_COUNT`.
unfoldable pub v1_data_count : ℕ
unfolding enum_meta
v1_data_count =
    v1_stat_count Version.mapping
    * v1_stat_count Region.mapping
    * v1_stat_count League.mapping
    * v1_stat_count Race.mapping

unfoldable pub raw_v1_index : ℕ → ℕ → ℕ → ℕ → ℕ → ℕ
unfolding enum_meta
raw_v1_index data_size version_index region_index league_index race_index =
    data_size
      * version_index
      * v1_stat_count Region.mapping
      * v1_stat_count League.mapping
      * v1_stat_count Race.mapping
    + data_size * region_index * v1_stat_count League.mapping * v1_stat_count Race.mapping
    + data_size * league_index * v1_stat_count Race.mapping
    + data_size * race_index

raw_v1_index_lem : (d v r l c : ℕ) → raw_v1_index d v r l c ≡ d * (175 * v + 35 * r + 5 * l + c)
unfolding raw_v1_index
raw_v1_index_lem d v r l c = omega arith

mul_step : (d x y : ℕ) → x < y → d * x + d ≤ d * y
mul_step d x y h = grind arith

cells_in_order : (d x y i j : ℕ) → i < d → d * x + i ≡ d * y + j → y ≤ x
cells_in_order d x y i j hi e = elim (dec_lt x y) [
  | yes h ↦ absurd (omega (arith, mul_step d x y h))
  | no h ↦ omega arith
]

-- A position in the data is that of one cell and one place in the cell.
cell_unique : (d x y i j : ℕ) → i < d → j < d → d * x + i ≡ d * y + j → (x ≡ y) × (i ≡ j)
cell_unique d x y i j hi hj e =
    let same : x ≡ y =
      omega (arith, cells_in_order d x y i j hi e, cells_in_order d y x j i hj (sym e)) in
    (same, omega (arith, ap (λ (n : ℕ). d * n) same))

-- What the indices of the statistics are: the places of versions, regions, leagues and races.
pub record InStats (version_index region_index league_index race_index : ℕ) : Type 0 where
  pub version : version_index < v1_stat_count Version.mapping
  pub region : region_index < v1_stat_count Region.mapping
  pub league : league_index < v1_stat_count League.mapping
  pub race : race_index < v1_stat_count Race.mapping

-- For indices of versions, regions, leagues and races that are in the statistics, each place within
-- a cell of `data_size` numbers is a position below `data_size` times `V1_DATA_COUNT`.
raw_v1_index-lt :
    (d v r l c i : ℕ) → InStats v r l c → i < d → raw_v1_index d v r l c + i < d * v1_data_count
unfolding enum_meta v1_data_count
raw_v1_index-lt d v r l c i h hi =
    rw raw_v1_index_lem (omega (arith, mul_step d (175 * v + 35 * r + 5 * l + c) 525 (omega arith)))

-- For indices of versions, regions, leagues and races that are in the statistics and places within
-- a cell, two equal positions have equal indices and places: no two cells overlap.
raw_v1_index-injective :
    (d v r l c i v' r' l' c' i' : ℕ)
    → InStats v r l c
    → InStats v' r' l' c'
    → i < d
    → i' < d
    → raw_v1_index d v r l c + i ≡ raw_v1_index d v' r' l' c' + i'
    → (v ≡ v') × (r ≡ r') × (l ≡ l') × (c ≡ c') × (i ≡ i')
unfolding enum_meta
raw_v1_index-injective d v r l c i v' r' l' c' i' h h' hi hi' e =
    let same =
      cell_unique d (175 * v + 35 * r + 5 * l + c) (175 * v' + 35 * r' + 5 * l' + c') i i' hi hi'
        (rw (← raw_v1_index_lem d v r l c, ← raw_v1_index_lem d v' r' l' c') e) in
    omega (arith, same.0, same.1)
