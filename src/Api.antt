-- ===== src/Api.antt =====
-- main/battle_net.py: `ApiLadder`, the data of a ladder as the API gives it. A key that the code reads
-- with `get` may be missing; the text operations of Python on names and races are arguments.
pub mod Bounds
mod Tests
use Prim.Native.Nat.{min, max}
use rankedftw.Prelude.Int.{ltb_ℤ, negsuc, ℤ, pos}
use Prim.Native.String.{String}
use rankedftw.Prelude.{
  ◌+◌, ◌++◌, [], ◌∷◌, ◌==◌, ◌%◌, some, none, map, length, if◌then◌else◌, ℕ, Option, List, Bool,
}
use mathlib.Core.Option
use mathlib.Core.List.{foldl}
use rankedftw.Fetch.Cached.{Member}
use rankedftw.Enums.{id_by_keys, key_get}
use rankedftw.Enums.Race as Race
use rankedftw.Prelude.Clock.{Time, from_unix}
use rankedftw.Prelude.Result.{err, Result, ok, or_raise, key_error, index_error, ◌>>=◌}

-- `character_link` is only looked at for a log line. A race that is missing anywhere on its path is
-- 'unknown'; the list of races is none where the key is missing.
pub record GameMember : Type 0 where
  pub id : ℕ
  pub realm : ℕ
  pub name : Option String
  pub clan_tag : Option String
  pub clan_name : Option String
  pub played_races : Option (List (Option String))

pub record GameTeam : Type 0 where
  pub members : List (Option GameMember)
  pub rating : Option ℤ
  pub points : Option ℤ
  pub wins : Option ℕ
  pub losses : Option ℕ
  pub join_time_stamp : Option ℕ

-- An entry of the older form, with the races by the place in the team.
pub record OldMember : Type 0 where
  pub id : ℕ
  pub realm : ℕ
  pub display_name : String
  pub clan_tag : String
  pub clan_name : String
  pub favorite_race : ℕ → Option String
  pub points : ℤ
  pub wins : ℕ
  pub losses : ℕ
  pub join_time : ℕ

-- `self.gd` says which of the two forms the data has.
pub data Data : Type 0 where
  game_data : List GameTeam → Data
  old_data : List OldMember → Data

-- `split('#')[0][:12]`, `[:12]` and `lower`.
pub record Texts : Type 0 where
  pub before_hash : String → String
  pub cut : String → String
  pub lower : String → String

abbrev pub get_or_default {ℓ} : {A : Type ℓ} → Option A → A → A
get_or_default none d = d
get_or_default (some a) d = a

-- `NO_MMR`, and the mitigation of a bug of the API.
abbrev pub no_mmr : ℤ
no_mmr = negsuc 32767

unfoldable pub mmr_of : Option ℤ → ℤ
mmr_of rating =
    let mmr = get_or_default rating no_mmr in if ltb_ℤ (pos 30000) mmr then no_mmr else mmr

-- The race of the first entry; an empty list has none, which raises.
abbrev pub first_race : Option (List (Option String)) → Result String
first_race none = ok "unknown"
first_race (some []) = err index_error
first_race (some (race ∷ races)) = ok (get_or_default race "unknown")

abbrev pub race_id : String → Result ℤ
race_id key = or_raise (key_get key (id_by_keys Race.mapping)) key_error

module _ (texts : Texts) where
  unfoldable pub game_member : GameTeam → GameMember → Result Member
  unfolding key_get id_by_keys mmr_of
  game_member t m = do
    text ← first_race m.played_races
    race ← race_id (texts.lower text)
    ok (record {
      bid = m.id;
      realm = m.realm;
      name = texts.cut (texts.before_hash (get_or_default m.name ""));
      tag = get_or_default m.clan_tag "";
      clan = get_or_default m.clan_name "";
      race = race;
      mmr = mmr_of t.rating;
      points = get_or_default t.points (pos 0);
      wins = get_or_default t.wins 0;
      losses = get_or_default t.losses 0;
      join_time = get_or_default t.join_time_stamp 0;
    })

  -- An empty member is passed over.
  unfoldable pub game_members : GameTeam → List (Option GameMember) → Result (List Member)
  unfolding game_member
  game_members t [] = ok []
  game_members t (none ∷ ms) = game_members t ms
  game_members t (some m ∷ ms) =
      let rest = game_members t ms in
      do member ← game_member t m; members ← rest; ok (member ∷ members)

  unfoldable pub game_teams : List GameTeam → Result (List Member)
  unfolding game_members
  game_teams [] = ok []
  game_teams (t ∷ teams) =
      let rest = game_teams teams in
      do members ← game_members t t.members; others ← rest; ok (members ++ others)

  unfoldable pub old_member : ℕ → ℕ → OldMember → Result Member
  unfolding key_get id_by_keys
  old_member team_size i m = do
    race ← race_id (texts.lower (get_or_default (m.favorite_race (i % team_size + 1)) "unknown"))
    ok (record {
      bid = m.id;
      realm = m.realm;
      name = texts.cut m.display_name;
      tag = m.clan_tag;
      clan = m.clan_name;
      race = race;
      mmr = no_mmr;
      points = m.points;
      wins = m.wins;
      losses = m.losses;
      join_time = m.join_time;
    })

  unfoldable pub old_members : ℕ → ℕ → List OldMember → Result (List Member)
  unfolding old_member
  old_members team_size i [] = ok []
  old_members team_size i (m ∷ ms) =
      let rest = old_members team_size (i + 1) ms in
      do member ← old_member team_size i m; members ← rest; ok (member ∷ members)

  unfoldable pub members_for_ranking : ℕ → Data → Result (List Member)
  unfolding game_teams old_members
  members_for_ranking team_size (game_data teams) = game_teams teams
  members_for_ranking team_size (old_data ms) = old_members team_size 0 ms

-- `get`, by its length, and `member_count`.
abbrev pub entry_count : Data → ℕ
entry_count (game_data teams) = length teams
entry_count (old_data ms) = length ms

abbrev pub has_no_entry : Data → Bool
has_no_entry d = entry_count d == 0

abbrev pub sum_members : List GameTeam → ℕ
sum_members [] = 0
sum_members (t ∷ teams) = length t.members + sum_members teams

abbrev pub member_count : Data → ℕ
member_count (game_data teams) = sum_members teams
member_count (old_data ms) = length ms

-- The points, and the join times in seconds of unix time, of the entries.
abbrev pub points_of : Data → List ℤ
points_of (game_data teams) = map (λ (t : GameTeam). get_or_default t.points (pos 0)) teams
points_of (old_data ms) = map (λ (m : OldMember). m.points) ms

abbrev pub joins_of : Data → List ℕ
joins_of (game_data teams) = map (λ (t : GameTeam). get_or_default t.join_time_stamp 0) teams
joins_of (old_data ms) = map (λ (m : OldMember). m.join_time) ms

-- The first greatest or least of a list that is not empty.
abbrev pub fold_first {ℓ} : {A : Type ℓ} → (A → A → A) → List A → Option A
fold_first f [] = none
fold_first f (x ∷ xs) = some (foldl f x xs)

abbrev pub max_ℤ : ℤ → ℤ → ℤ
max_ℤ a b = if ltb_ℤ a b then b else a

unfoldable pub max_points : Data → Option ℤ
max_points d = fold_first max_ℤ (points_of d)

unfoldable pub first_join : Data → Option Time
unfolding from_unix
first_join d = Option.map from_unix (fold_first min (joins_of d))

unfoldable pub last_join : Data → Option Time
unfolding from_unix
last_join d = Option.map from_unix (fold_first max (joins_of d))
