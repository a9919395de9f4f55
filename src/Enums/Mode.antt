-- ===== src/Enums/Mode.antt =====
-- `class Mode` of main/models.py: its table, and the class attributes that its metaclass sets.
use rankedftw.Prelude.{ℕ, true, false, none, some, List, [], ◌∷◌}
use rankedftw.Prelude.Int.{ℤ, pos, negsuc}
use rankedftw.Prelude.Result.{Result, or_raise, key_error}
use rankedftw.Enums.{Row, row, id_get}

abbrev pub unknown : ℤ
unknown = negsuc 0

abbrev pub team_1v1 : ℤ
team_1v1 = pos 11

abbrev pub team_2v2 : ℤ
team_2v2 = pos 20

abbrev pub random_2v2 : ℤ
random_2v2 = pos 21

abbrev pub team_3v3 : ℤ
team_3v3 = pos 30

abbrev pub random_3v3 : ℤ
random_3v3 = pos 31

abbrev pub team_4v4 : ℤ
team_4v4 = pos 40

abbrev pub random_4v4 : ℤ
random_4v4 = pos 41

abbrev pub archon : ℤ
archon = pos 12

abbrev pub mapping : List Row
mapping =
    row "UNKNOWN" (negsuc 0) "unknown" "Unknown" false none none
    ∷ row "TEAM_1V1" (pos 11) "1v1" "1v1" true (some 0) (some 0)
    ∷ row "TEAM_2V2" (pos 20) "team-2v2" "Team 2v2" false (some 1) (some 0)
    ∷ row "RANDOM_2V2" (pos 21) "random-2v2" "Random 2v2" false (some 2) (some 0)
    ∷ row "TEAM_3V3" (pos 30) "team-3v3" "Team 3v3" false (some 3) (some 0)
    ∷ row "RANDOM_3V3" (pos 31) "random-3v3" "Random 3v3" false (some 4) (some 0)
    ∷ row "TEAM_4V4" (pos 40) "team-4v4" "Team 4v4" false (some 5) (some 0)
    ∷ row "RANDOM_4V4" (pos 41) "random-4v4" "Random 4v4" false (some 6) (some 0)
    ∷ row "ARCHON" (pos 12) "archon" "Archon" false (some 7) (some 1)
    ∷ []

abbrev pub team_sizes : List (ℤ × ℕ)
team_sizes =
    (pos 11, 1)
    ∷ (pos 20, 2)
    ∷ (pos 21, 1)
    ∷ (pos 30, 3)
    ∷ (pos 31, 1)
    ∷ (pos 40, 4)
    ∷ (pos 41, 1)
    ∷ (pos 12, 2)
    ∷ []

unfoldable pub team_size : ℤ → Result ℕ
unfolding id_get
team_size mode = or_raise (id_get mode team_sizes) key_error
