-- ===== src/Enums/Version.antt =====
-- `class Version` of main/models.py: its table, and the class attributes that its metaclass sets.
use rankedftw.Prelude.{true, false, none, some, List, [], ◌∷◌}
use rankedftw.Prelude.Int.{ℤ, pos, negsuc}
use rankedftw.Enums.{Row, row}

abbrev pub unknown : ℤ
unknown = negsuc 0

abbrev pub wol : ℤ
wol = pos 0

abbrev pub hots : ℤ
hots = pos 1

abbrev pub lotv : ℤ
lotv = pos 2

abbrev pub mapping : List Row
mapping =
    row "UNKNOWN" (negsuc 0) "unknown" "Unknown" false none none
    ∷ row "WOL" (pos 0) "wol" "WoL" false (some 0) (some 0)
    ∷ row "HOTS" (pos 1) "hots" "HotS" false (some 1) (some 0)
    ∷ row "LOTV" (pos 2) "lotv" "LotV" true (some 2) (some 1)
    ∷ []
