-- ===== src/Api/Tests.antt =====
-- A ladder with a rating that is too high and an empty member.
use rankedftw.Prelude.Int.{ℤ, pos}
use rankedftw.Prelude.{[], ◌∷◌, ℕ, refl, none, ◌≡◌, some, List}
use rankedftw.Api.{
  Data, game_data, Texts, GameMember, GameTeam, members_for_ranking, member_count, max_points,
  no_mmr,
}
use rankedftw.Api.Bounds.{Rated, members_for_ranking-Rated}
use rankedftw.Fetch.Cached.{Member}
use rankedftw.Prelude.Result.{ok}

abbrev texts : Texts
texts = record { before_hash = λ s. s; cut = λ s. s; lower = λ s. s }

abbrev player : GameMember
player = record {
  id = 11;
  realm = 1;
  name = some "player";
  clan_tag = none;
  clan_name = none;
  played_races = some (some "zerg" ∷ []);
}

abbrev team_rated : ℤ → ℕ → GameTeam
team_rated rating joined = record {
  members = some player ∷ none ∷ [];
  rating = some rating;
  points = some (pos 7);
  wins = some 2;
  losses = none;
  join_time_stamp = some joined;
}

abbrev two_teams : Data
two_teams = game_data (team_rated (pos 40000) 500 ∷ team_rated (pos 4000) 400 ∷ [])

abbrev member_rated : ℤ → ℕ → Member
member_rated rating joined = record {
  bid = 11;
  realm = 1;
  name = "player";
  tag = "";
  clan = "";
  race = pos 0;
  mmr = rating;
  points = pos 7;
  wins = 2;
  losses = 0;
  join_time = joined;
}

abbrev members : List Member
members = member_rated no_mmr 500 ∷ member_rated (pos 4000) 400 ∷ []

members_lem : members_for_ranking texts 1 two_teams ≡ ok members
unfolding members_for_ranking
members_lem = refl

members_for_ranking-Rated_example : Rated members
members_for_ranking-Rated_example = members_for_ranking-Rated texts 1 two_teams members members_lem

counts : (member_count two_teams ≡ 4) × (max_points two_teams ≡ some (pos 7))
unfolding max_points
counts = (refl, refl)
