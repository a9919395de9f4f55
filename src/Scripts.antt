-- ===== src/Scripts.antt =====
-- tasks/base.py, and the scripts of tasks that have logic of their own.
pub mod Stale
pub mod Ages
pub mod Repair
pub mod Spared
pub mod Any
pub mod Linked
pub mod Sourced
mod Tests
use Prim.Native.String.{String}
use rankedftw.Enums.{id_by_keys, key_get}
use rankedftw.Enums.Region as Region
use rankedftw.Prelude.{ℕ, Option, none, some, List, [], ◌∷◌}
use rankedftw.Prelude.Int.{ℤ, leb_ℤ}
use rankedftw.Prelude.Result.{Result, ok, err, or_raise, key_error, ◌>>=◌}
use rankedftw.Prelude.Sort.{sort_by}

-- `Command.__call__`: the status of the process, where a run that raises leaves the status 1 and one
-- that returns `None` or 0 the status 0.
abbrev pub exit_status : Result (Option ℕ) → ℕ
exit_status (ok none) = 0
exit_status (ok (some status)) = status
exit_status (err e) = 1

abbrev region_ids_of : List String → Result (List ℤ)
region_ids_of [] = ok []
region_ids_of (key ∷ keys) =
    let rest = region_ids_of keys in
    do id ← or_raise (key_get key (id_by_keys Region.mapping)) key_error; ids ← rest; ok (id ∷ ids)

-- `regions`, of the parts of the argument between commas; the parser reports the `KeyError`.
unfoldable pub regions_argument : List String → Result (List ℤ)
regions_argument keys = do ids ← region_ids_of keys; ok (sort_by leb_ℤ ids)
