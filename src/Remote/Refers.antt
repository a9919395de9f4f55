-- ===== src/Remote/Refers.antt =====
-- The ladders of a player: what `refers` finds, and what `get_version_mode_league` returns.
use Prim.Native.String.{String}
use rankedftw.Prelude.{
  ℕ, ◌==◌, true, false, Option, none, some, List, [], ◌∷◌, ◌≡◌, ◌⊎◌, inl, inr, refl, Bool-cases,
}
use rankedftw.Prelude.Int.{ℤ}
use rankedftw.Prelude.Result.{ok, err, attribute_error}
use rankedftw.Remote.Answers.{
  LadderEntry, PlayerTeam, PlayerLadders, SeasonMatch, found_entry, in_entries, in_teams, teams_of,
  any_entry, any_team, match_refers, get_version_mode_league,
}

module _ (strip lower : String → String) where
  -- The keys that the code reads are there, and their texts are known.
  abbrev pub IsReadEntry : Option ℕ → LadderEntry → Type 0
  IsReadEntry characters l =
      ((id : ℕ) × (l.ladder_id ≡ some id))
      × ((v : ℤ × ℤ × ℤ) × (found_entry strip lower l characters ≡ ok v))

  abbrev pub AreEntries : Option ℕ → List LadderEntry → Type 0
  AreEntries characters [] = Unit
  AreEntries characters (l ∷ ls) = IsReadEntry characters l × AreEntries characters ls

  abbrev pub AreTeams : List PlayerTeam → Type 0
  AreTeams [] = Unit
  AreTeams (t ∷ ts) =
      ((ls : List LadderEntry) × (t.ladders ≡ some ls) × AreEntries t.characters ls) × AreTeams ts

  abbrev Returns : ℕ → Option ℕ → List LadderEntry → Type 0
  Returns l_bid characters ls =
      ((v : ℤ × ℤ × ℤ) × (in_entries strip lower l_bid characters ls ≡ ok (some v))
        × (any_entry l_bid ls ≡ true))
      ⊎ ((in_entries strip lower l_bid characters ls ≡ ok none) × (any_entry l_bid ls ≡ false))

  in_entries-Returns :
      (l_bid : ℕ) (characters : Option ℕ) (ls : List LadderEntry)
      → AreEntries characters ls
      → Returns l_bid characters ls
  unfolding in_entries
  in_entries-Returns l_bid characters [] h = inr (refl, refl)
  in_entries-Returns l_bid characters (l ∷ ls) (((id, e), (v, f)), rest) =
      elim (Bool-cases (id == l_bid)) [
        | inl g ↦ rw (e, g, f) (inl (v, refl, refl))
        | inr g ↦ rw (e, g) (in_entries-Returns l_bid characters ls rest)
      ]

  abbrev Found : ℕ → List PlayerTeam → Type 0
  Found l_bid ts =
      ((v : ℤ × ℤ × ℤ) × (in_teams strip lower l_bid ts ≡ ok v) × (any_team l_bid ts ≡ true))
      ⊎ ((in_teams strip lower l_bid ts ≡ err attribute_error) × (any_team l_bid ts ≡ false))

  in_teams-Found : (l_bid : ℕ) (ts : List PlayerTeam) → AreTeams ts → Found l_bid ts
  unfolding in_teams
  in_teams-Found l_bid [] h = inr (refl, refl)
  in_teams-Found l_bid (t ∷ ts) ((ls, e, all), rest) =
      elim (in_entries-Returns l_bid t.characters ls all) [
        | inl (v, f, g) ↦ rw (e, f, g) (inl (v, refl, refl))
        | inr (f, g) ↦ rw (e, f, g) (in_teams-Found l_bid ts rest)
      ]

  -- Where the keys that the code reads are there and known, `get_version_mode_league` returns
  -- exactly when the test of `refers` holds for the number and the season that are given, and
  -- raises `AttributeError` otherwise.
  pub get_version_mode_league-refers :
      (p : PlayerLadders) (l_bid : ℕ) (match : SeasonMatch)
      → AreTeams (teams_of p match)
      → ((v : ℤ × ℤ × ℤ) × (get_version_mode_league strip lower p l_bid match ≡ ok v)
          × (match_refers p l_bid match ≡ true))
        ⊎ ((get_version_mode_league strip lower p l_bid match ≡ err attribute_error)
            × (match_refers p l_bid match ≡ false))
  get_version_mode_league-refers p l_bid match h = in_teams-Found l_bid (teams_of p match) h
