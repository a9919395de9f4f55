-- ===== src/Enums/League.antt =====
-- `class League` of main/models.py: its table, and the class attributes that its metaclass sets.
use rankedftw.Prelude.{false, none, some, List, [], ◌∷◌}
use rankedftw.Prelude.Int.{ℤ, pos, negsuc}
use rankedftw.Enums.{Row, row}

abbrev pub all : ℤ
all = negsuc 1

abbrev pub unknown : ℤ
unknown = negsuc 0

abbrev pub bronze : ℤ
bronze = pos 0

abbrev pub silver : ℤ
silver = pos 1

abbrev pub gold : ℤ
gold = pos 2

abbrev pub platinum : ℤ
platinum = pos 3

abbrev pub diamond : ℤ
diamond = pos 4

abbrev pub master : ℤ
master = pos 5

abbrev pub grandmaster : ℤ
grandmaster = pos 6

abbrev pub mapping : List Row
mapping =
    row "ALL" (negsuc 1) "all" "All" false none none
    ∷ row "UNKNOWN" (negsuc 0) "unknown" "Unknown" false none none
    ∷ row "BRONZE" (pos 0) "bronze" "Bronze" false (some 0) (some 0)
    ∷ row "SILVER" (pos 1) "silver" "Silver" false (some 1) (some 0)
    ∷ row "GOLD" (pos 2) "gold" "Gold" false (some 2) (some 0)
    ∷ row "PLATINUM" (pos 3) "platinum" "Platinum" false (some 3) (some 0)
    ∷ row "DIAMOND" (pos 4) "diamond" "Diamond" false (some 4) (some 0)
    ∷ row "MASTER" (pos 5) "master" "Master" false (some 5) (some 0)
    ∷ row "GRANDMASTER" (pos 6) "grandmaster" "Grandmaster" false (some 6) (some 0)
    ∷ []
