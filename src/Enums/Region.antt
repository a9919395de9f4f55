-- ===== src/Enums/Region.antt =====
-- `class Region` of main/models.py: its table, and the class attributes that its metaclass sets.
use rankedftw.Prelude.{true, false, none, some, List, [], ◌∷◌}
use rankedftw.Prelude.Int.{ℤ, pos, negsuc}
use rankedftw.Enums.{Row, row}

abbrev pub all : ℤ
all = negsuc 1

abbrev pub unknown : ℤ
unknown = negsuc 0

abbrev pub eu : ℤ
eu = pos 0

abbrev pub am : ℤ
am = pos 1

abbrev pub kr : ℤ
kr = pos 2

abbrev pub sea : ℤ
sea = pos 3

abbrev pub cn : ℤ
cn = pos 4

abbrev pub mapping : List Row
mapping =
    row "ALL" (negsuc 1) "world" "World" true none none
    ∷ row "UNKNOWN" (negsuc 0) "unknown" "Unknown" false none none
    ∷ row "EU" (pos 0) "eu" "EU" false (some 0) (some 0)
    ∷ row "AM" (pos 1) "am" "AM" false (some 1) (some 0)
    ∷ row "KR" (pos 2) "kr" "KR" false (some 2) (some 0)
    ∷ row "SEA" (pos 3) "sea" "SEA" false (some 3) (some 0)
    ∷ row "CN" (pos 4) "cn" "CN" false (some 4) (some 0)
    ∷ []
