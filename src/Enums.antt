-- ===== src/Enums.antt =====
-- The enums of main/models.py: `EnumMeta`, `EnumBase` and the tables of `Race`, `League`, `Region`,
-- `Version` and `Mode`, one module each. The class attributes that the metaclass sets for a row
-- (`Mode.TEAM_1V1`) are constants of that module (`Mode.team_1v1`).
pub mod Race
pub mod League
pub mod Region
pub mod Version
pub mod Mode
pub mod Lookup
pub mod Stats
mod Tests
use Prim.Native.String.{String}
use text.Mathlib.Text.{◌==◌ as str_eq}
use rankedftw.Prelude.{
  ℕ, zero, suc, ◌+◌, ◌*◌, Bool, true, false, Option, none, some, List, [], ◌∷◌, map, leb, ◌==◌,
  if◌then◌else◌, length,
}
use rankedftw.Prelude.Int.{ℤ, pos, negsuc, leb_ℤ, ◌==ℤ◌}
use rankedftw.Prelude.Result.{Result, or_raise, key_error}
use rankedftw.Prelude.Sort.{sort_by}

-- A row of `mapping`: constant base, id, key, cased name, default, index, stat version.
pub record Row : Type 0 where
  pub var : String
  pub id : ℤ
  pub key : String
  pub name : String
  pub default : Bool
  pub index : Option ℕ
  pub stat_version : Option ℕ

abbrev pub row : String → ℤ → String → String → Bool → Option ℕ → Option ℕ → Row
row v i k n d x s = record {
  var = v;
  id = i;
  key = k;
  name = n;
  default = d;
  index = x;
  stat_version = s;
}

-- What the loop of `EnumMeta.__init__` keeps, beside the constants that it sets.
pub record Meta : Type 0 where
  pub default_id : Option ℤ
  pub default_key : Option String
  pub v0_stat_count : ℕ
  pub v1_stat_count : ℕ

abbrev count_version : Option ℕ → Meta → Meta
count_version none m = m
count_version (some zero) m = record m {
  v0_stat_count = m.v0_stat_count + 1;
  v1_stat_count = m.v1_stat_count + 1;
}
count_version (some (suc zero)) m = record m { v1_stat_count = m.v1_stat_count + 1 }
count_version (some _) m = m

meta_row : Row → Meta → Meta
meta_row r m =
    count_version r.stat_version
      (if r.default then record m { default_id = some r.id; default_key = some r.key } else m)

meta_loop : List Row → Meta → Meta
unfolding meta_row
meta_loop [] m = m
meta_loop (r ∷ rows) m = meta_loop rows (meta_row r m)

unfoldable pub enum_meta : List Row → Meta
unfolding meta_loop
enum_meta mapping =
    meta_loop mapping
      (record { default_id = none; default_key = none; v0_stat_count = 0; v1_stat_count = 0 })

-- A dict built by a comprehension: a later entry of the same key replaces an earlier one.
module _ {ℓ} {V : Type ℓ} where
  abbrev pub or_else : Option V → Option V → Option V
  or_else (some v) d = some v
  or_else none d = d

  unfoldable pub key_get : String → List (String × V) → Option V
  key_get k [] = none
  key_get k ((j, v) ∷ d) = or_else (key_get k d) (if str_eq j k then some v else none)

  unfoldable pub id_get : ℤ → List (ℤ × V) → Option V
  id_get k [] = none
  id_get k ((j, v) ∷ d) = or_else (id_get k d) (if j ==ℤ k then some v else none)

-- The class properties of `EnumBase`.
unfoldable pub name_by_ids : List Row → List (ℤ × String)
name_by_ids = map (λ (r : Row). (r.id, r.name))

unfoldable pub id_by_keys : List Row → List (String × ℤ)
id_by_keys = map (λ (r : Row). (r.key, r.id))

unfoldable pub key_by_ids : List Row → List (ℤ × String)
key_by_ids = map (λ (r : Row). (r.id, r.key))

unfoldable pub ids : List Row → List ℤ
ids = map (λ (r : Row). r.id)

unfoldable pub keys : List Row → List String
keys = map (λ (r : Row). r.key)

-- `stat_version is not None and stat_version <= v`.
abbrev pub in_stat : ℕ → Option ℕ → Bool
in_stat v none = false
in_stat v (some s) = leb s v

pub stat_ids_upto : ℕ → List Row → List ℤ
stat_ids_upto v [] = []
stat_ids_upto v (r ∷ rows) =
    let rest = stat_ids_upto v rows in if in_stat v r.stat_version then r.id ∷ rest else rest

unfoldable pub stat_v0_ids : List Row → List ℤ
unfolding stat_ids_upto
stat_v0_ids = stat_ids_upto 0

unfoldable pub stat_v1_ids : List Row → List ℤ
unfolding stat_ids_upto sort_by
stat_v1_ids rows = sort_by leb_ℤ (stat_ids_upto 1 rows)

abbrev ranking_row : Option ℕ → ℤ → List ℤ → List ℤ
ranking_row none id rest = rest
ranking_row (some _) id rest = id ∷ rest

unfoldable pub ranking_ids : List Row → List ℤ
ranking_ids [] = []
ranking_ids (r ∷ rows) = ranking_row r.index r.id (ranking_ids rows)
