-- ===== src/Enums/Tests.antt =====
-- The tables of the enums, and the places of the statistics.
use rankedftw.Enums.Lookup.{key_by_ids-id_by_keys, mapping_of, Class}
use rankedftw.Enums.{id_get, key_get, key_by_ids, id_by_keys, stat_v1_ids, ranking_ids, enum_meta}
use rankedftw.Prelude.{◌↔◌, [], ◌∷◌, refl, some, arith, ◌≡◌}
use rankedftw.Prelude.Int.{pos}
use rankedftw.Prelude.Result.{ok}
use rankedftw.Enums.Stats.{InStats}
use rankedftw.Enums.Mode
use rankedftw.Enums.Region

stat_test :
    (ranking_ids Region.mapping ≡ pos 0 ∷ pos 1 ∷ pos 2 ∷ pos 3 ∷ pos 4 ∷ [])
    × (stat_v1_ids Mode.mapping
        ≡ pos 11 ∷ pos 12 ∷ pos 20 ∷ pos 21 ∷ pos 30 ∷ pos 31 ∷ pos 40 ∷ pos 41 ∷ [])
unfolding ranking_ids stat_v1_ids
stat_test = (refl, refl)

meta_test :
    ((enum_meta Mode.mapping).v0_stat_count ≡ 7)
    × ((enum_meta Mode.mapping).default_key ≡ some "1v1")
unfolding enum_meta
meta_test = (refl, refl)

team_size_test : Mode.team_size Mode.archon ≡ ok 2
unfolding Mode.team_size
team_size_test = refl

last_cell : InStats 2 4 6 4
unfolding enum_meta
last_cell = omega arith

key_by_ids-id_by_keys_example :
    (id_get (pos 20) (key_by_ids (mapping_of Class.mode)) ≡ some "team-2v2")
    ↔ (key_get "team-2v2" (id_by_keys (mapping_of Class.mode)) ≡ some (pos 20))
key_by_ids-id_by_keys_example = key_by_ids-id_by_keys Class.mode (pos 20) "team-2v2"
