-- ===== src/Enums/Lookup.antt =====
-- The dicts `key_by_ids` and `id_by_keys` of main/models.py on the tables of the five enums.
use Prim.Native.String.{String}
use text.Mathlib.TextEquality.{eq_iff}
use text.Mathlib.Text.{◌==◌ as str_eq}
use rankedftw.Prelude.{◌≡◌, ◌↔◌, refl, false, none, some, List, [], ◌∷◌, arith}
use rankedftw.Prelude.Int.{ℤ, ◌==ℤ◌, ==ℤ_iff}
use rankedftw.Enums.Race
use rankedftw.Enums.League
use rankedftw.Enums.Region
use rankedftw.Enums.Version
use rankedftw.Enums.Mode
use rankedftw.Enums.{Row, key_get, id_get, id_by_keys, key_by_ids}

-- No row of the list has this id, or this key.
abbrev pub NoId : ℤ → List Row → Type 0
NoId i [] = Unit
NoId i (r ∷ rows) = (r.id ==ℤ i ≡ false) × NoId i rows

abbrev pub NoKey : String → List Row → Type 0
NoKey k [] = Unit
NoKey k (r ∷ rows) = (str_eq r.key k ≡ false) × NoKey k rows

-- Ids and keys are unique in the table.
abbrev pub IsUnique : List Row → Type 0
IsUnique [] = Unit
IsUnique (r ∷ rows) = NoId r.id rows × NoKey r.key rows × IsUnique rows

id_get-NoId : (i : ℤ) (rows : List Row) → NoId i rows → id_get i (key_by_ids rows) ≡ none
unfolding id_get key_by_ids
id_get-NoId i [] h = refl
id_get-NoId i (r ∷ rows) h = rw (id_get-NoId i rows h.1, h.0)

key_get-NoKey : (k : String) (rows : List Row) → NoKey k rows → key_get k (id_by_keys rows) ≡ none
unfolding key_get id_by_keys
key_get-NoKey k [] h = refl
key_get-NoKey k (r ∷ rows) h = rw (key_get-NoKey k rows h.1, h.0)

key_of_id :
    (i : ℤ) (k : String) (rows : List Row)
    → IsUnique rows
    → id_get i (key_by_ids rows) ≡ some k
    → key_get k (id_by_keys rows) ≡ some i
unfolding id_get key_by_ids key_get id_by_keys
key_of_id i k [] h e = cc
key_of_id i k (r ∷ rows) (no_id, no_key, h) e =
    ground
      (arith, key_of_id i k rows h, key_get-NoKey r.key rows no_key, ==ℤ_iff r.id i, eq_iff r.key k)

id_of_key :
    (i : ℤ) (k : String) (rows : List Row)
    → IsUnique rows
    → key_get k (id_by_keys rows) ≡ some i
    → id_get i (key_by_ids rows) ≡ some k
unfolding id_get key_by_ids key_get id_by_keys
id_of_key i k [] h e = cc
id_of_key i k (r ∷ rows) (no_id, no_key, h) e =
    ground
      (arith, id_of_key i k rows h, id_get-NoId r.id rows no_id, ==ℤ_iff r.id i, eq_iff r.key k)

-- The five classes that derive from `EnumBase`.
pub data Class : Type 0 where
  race league region version mode : Class

abbrev pub mapping_of : Class → List Row
mapping_of race = Race.mapping
mapping_of league = League.mapping
mapping_of region = Region.mapping
mapping_of version = Version.mapping
mapping_of mode = Mode.mapping

IsUnique-mapping_of : (c : Class) → IsUnique (mapping_of c)
IsUnique-mapping_of race = ground arith
IsUnique-mapping_of league = ground arith
IsUnique-mapping_of region = ground arith
IsUnique-mapping_of version = ground arith
IsUnique-mapping_of mode = ground arith

-- In each of the five enums `key_by_ids` maps an id to a key exactly when `id_by_keys` maps that
-- key to that id.
pub key_by_ids-id_by_keys :
    (c : Class) (i : ℤ) (k : String)
    → (id_get i (key_by_ids (mapping_of c)) ≡ some k)
      ↔ (key_get k (id_by_keys (mapping_of c)) ≡ some i)
key_by_ids-id_by_keys c i k = (
  key_of_id i k (mapping_of c) (IsUnique-mapping_of c),
  id_of_key i k (mapping_of c) (IsUnique-mapping_of c),
)
