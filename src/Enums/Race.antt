-- ===== src/Enums/Race.antt =====
-- `class Race` of main/models.py: its table, and the class attributes that its metaclass sets.
use rankedftw.Prelude.{true, false, some, List, [], ◌∷◌}
use rankedftw.Prelude.Int.{ℤ, pos, negsuc}
use rankedftw.Enums.{Row, row}

abbrev pub unknown : ℤ
unknown = negsuc 0

abbrev pub zerg : ℤ
zerg = pos 0

abbrev pub protoss : ℤ
protoss = pos 1

abbrev pub terran : ℤ
terran = pos 2

abbrev pub random : ℤ
random = pos 3

abbrev pub mapping : List Row
mapping =
    row "UNKNOWN" (negsuc 0) "unknown" "Unknown" false (some 0) (some 0)
    ∷ row "ZERG" (pos 0) "zerg" "Zerg" true (some 1) (some 0)
    ∷ row "PROTOSS" (pos 1) "protoss" "Protoss" false (some 2) (some 0)
    ∷ row "TERRAN" (pos 2) "terran" "Terran" false (some 3) (some 0)
    ∷ row "RANDOM" (pos 3) "random" "Random" false (some 4) (some 0)
    ∷ []
