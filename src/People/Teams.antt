-- ===== src/People/Teams.antt =====
-- main/views/team.py: the search for a team by its players, and the page of a team. What the regular
-- expressions match, and what the C++ module returns, are arguments.
use Prim.Native.String.{String}
use text.Mathlib.Text.{◌==◌ as str_eq}
use rankedftw.Enums.{id_get, key_get, key_by_ids, name_by_ids, id_by_keys}
use rankedftw.Enums.League as League
use rankedftw.Enums.Mode as Mode
use rankedftw.Enums.Version as Version
use rankedftw.People.{StoredPlayer, StoredTeam, People, player_objects, team_objects}
use rankedftw.Prelude.{
  ℕ, zero, suc, ◌==◌, ◌&&◌, leb, not, Bool, true, false, Option, none, some, List, [], ◌∷◌, ◌++◌,
  map, length, if◌then◌else◌,
}
use rankedftw.Prelude.Clock.{Day}
use rankedftw.Prelude.Int.{ℤ, pos, ◌==ℤ◌}
use rankedftw.Prelude.Objects.{get}
use rankedftw.Prelude.Result.{
  Error, Result, ok, err, does_not_exist, key_error, index_error, or_raise, map_ok,
}
use rankedftw.Prelude.Sort.{sort_by}
use rankedftw.Remote.Profiles.{Expressions, Info, get_bnet_profile_url_info}

-- The messages of `BadRequestException` and `Http404`, and any other exception.
pub data Refusal : Type 0 where
  empty_url mismatch no_team : Refusal
  no_region no_player unknown_mode : String → Refusal
  raised : Error → Refusal

pub data Outcome {ℓ} (A : Type ℓ) : Type ℓ where
  gives : A → Outcome A
  fails : Refusal → Outcome A

infixl 5 ◌>>=◌
abbrev pub ◌>>=◌ {ℓ κ} : {A : Type ℓ} {B : Type κ} → Outcome A → (A → Outcome B) → Outcome B
◌>>=◌ (gives a) next = next a
◌>>=◌ (fails f) next = fails f

-- A row of `objects.get`, where `DoesNotExist` becomes another exception.
abbrev pub instead : Refusal → Error → Refusal
instead f does_not_exist = f
instead f e = raised e

abbrev pub or_missing {ℓ} : {A : Type ℓ} → Refusal → Result A → Outcome A
or_missing f (ok a) = gives a
or_missing f (err e) = fails (instead f e)

abbrev pub or_raised {ℓ} : {A : Type ℓ} → Result A → Outcome A
or_raised (ok a) = gives a
or_raised (err e) = fails (raised e)

abbrev pub or_fails {ℓ} : {A : Type ℓ} → Option A → Refusal → Outcome A
or_fails none f = fails f
or_fails (some a) f = gives a

abbrev pub fails_if : Bool → Refusal → Outcome (Unit {0})
fails_if true f = fails f
fails_if false f = gives tt

abbrev pub by_player_id : StoredPlayer → StoredPlayer → Bool
by_player_id p q = leb p.id q.id

-- `players[i]` after `players.extend([None, None, None])`.
abbrev pub item {ℓ} : {A : Type ℓ} → List A → ℕ → Result A
item [] n = err index_error
item (x ∷ xs) zero = ok x
item (x ∷ xs) (suc n) = item xs n

abbrev pub padded : List ℕ → List (Option ℕ)
padded ids = map (λ (i : ℕ). some i) ids ++ (none ∷ none ∷ none ∷ [])

abbrev pub same_member : Option ℕ → Option ℕ → Bool
same_member none none = true
same_member (some i) (some j) = i == j
same_member a b = false

-- The condition of `Team.objects.get` on a mode and four members.
abbrev pub is_team : ℤ → Option ℕ → Option ℕ → Option ℕ → Option ℕ → StoredTeam → Bool
is_team mode m0 m1 m2 m3 t =
    (t.mode ==ℤ mode)
    && same_member t.member0 m0
    && same_member t.member1 m1
    && same_member t.member2 m2
    && same_member t.member3 m3

-- `Mode.id_by_keys.get(mode, Mode.UNKNOWN_ID)`, and none where that is the unknown mode.
abbrev pub known_mode : ℤ → Option ℤ
known_mode id = if id ==ℤ Mode.unknown then none else some id

abbrev pub mode_of : Option ℤ → Option ℤ
mode_of none = none
mode_of (some id) = known_mode id

module _ (limit : Day) (people : People) where
  abbrev pub find_team : ℤ → List ℕ → Outcome ℕ
  find_team mode ids = do
    m0 ← or_raised (item (padded ids) 0)
    m1 ← or_raised (item (padded ids) 1)
    m2 ← or_raised (item (padded ids) 2)
    m3 ← or_raised (item (padded ids) 3)
    team ← or_missing no_team (get (is_team mode m0 m1 m2 m3) (team_objects limit people))
    gives team.id

  -- What follows once the players are sorted.
  unfoldable pub team_by_ids : ℤ → List ℕ → Outcome ℕ
  team_by_ids mode ids = do
    size ← or_raised (Mode.team_size mode)
    checked ← fails_if (not (length ids == size)) mismatch
    find_team mode ids

-- The condition of `Player.objects.get`.
abbrev pub is_player : ℤ → ℕ → ℕ → StoredPlayer → Bool
is_player region realm bid p = (p.region ==ℤ region) && (p.realm == realm) && (p.bid == bid)

module _ (re : Expressions) (limit : Day) (people : People) where
  abbrev pub player_of_info : String → Info → Outcome StoredPlayer
  player_of_info url none = fails (no_region url)
  player_of_info url (some (region, realm, bid)) =
      or_missing (no_player url) (get (is_player region realm bid) (player_objects limit people))

  -- `TeamId.get_player`.
  abbrev pub get_player : String → Outcome StoredPlayer
  get_player url =
      if str_eq url ""
      then fails empty_url
      else player_of_info url (get_bnet_profile_url_info re url)

  -- The generator over the addresses.
  unfoldable pub get_players : List String → Outcome (List StoredPlayer)
  get_players [] = gives []
  get_players (url ∷ urls) =
      let rest = get_players urls in
      do player ← get_player url; players ← rest; gives (player ∷ players)

  -- `TeamId.get`, of the stripped key of the mode and the addresses, in their order.
  unfoldable pub get_team_id : String → List String → Outcome ℕ
  get_team_id mode urls = do
    mode_id ← or_fails (mode_of (key_get mode (id_by_keys Mode.mapping))) (unknown_mode mode)
    players ← get_players urls
    team_by_ids limit people mode_id
        (map (λ (p : StoredPlayer). p.id) (sort_by by_player_id players))

-- The status of the response, where another exception is left to Django.
abbrev pub failure_status : Refusal → ℕ
failure_status empty_url = 400
failure_status mismatch = 400
failure_status (no_region url) = 400
failure_status (unknown_mode mode) = 400
failure_status no_team = 404
failure_status (no_player url) = 404
failure_status (raised e) = 500

abbrev pub outcome_status {ℓ} : {A : Type ℓ} → Outcome A → ℕ
outcome_status (gives a) = 200
outcome_status (fails f) = failure_status f

abbrev pub member_list : Option ℕ → List ℕ → List ℕ
member_list none ms = ms
member_list (some i) ms = i ∷ ms

-- `context['members']` of the page of a team.
abbrev pub members_of : StoredTeam → List ℕ
members_of t =
    member_list t.member0 (member_list t.member1 (member_list t.member2 (member_list t.member3 [])))

-- The address of a team on the ladder: the keys of its version, which may be `None`, and of its mode.
pub record LadderHref : Type 0 where
  pub version : Option String
  pub mode : String
  pub team : ℕ

pub record TeamPage : Type 0 where
  pub team : StoredTeam
  pub members : List ℕ
  pub leagues : List String
  pub ladder_href : Option LadderHref

abbrev pub version_key : Option ℤ → Option String
version_key none = none
version_key (some v) = id_get v (key_by_ids Version.mapping)

abbrev pub href_of : Bool → StoredTeam → Result (Option LadderHref)
href_of false t = ok none
href_of true t =
    map_ok
      (λ (key : String). some (record { version = version_key t.version; mode = key; team = t.id }))
      (or_raise (id_get t.mode (key_by_ids Mode.mapping)) key_error)

abbrev pub league_names : List ℤ → Outcome (List String)
league_names [] = gives []
league_names (i ∷ is) =
    let rest = league_names is in
    do
      name ← or_raised (or_raise (id_get i (name_by_ids League.mapping)) key_error)
      names ← rest
      gives (name ∷ names)

-- `TeamView.get` with the season of `last_updated_info`, where the leagues are those of
-- `range(League.BRONZE, League.GRANDMASTER + 1)`.
unfoldable pub team_page : Day → People → Option ℕ → ℕ → Outcome TeamPage
team_page limit people season_id team_id = do
  team ← or_missing no_team (get (λ (t : StoredTeam). t.id == team_id) (team_objects limit people))
  leagues ← league_names (pos 0 ∷ pos 1 ∷ pos 2 ∷ pos 3 ∷ pos 4 ∷ pos 5 ∷ pos 6 ∷ [])
  href ← or_raised (href_of (same_member team.season_id season_id) team)
  gives (record { team = team; members = members_of team; leagues = leagues; ladder_href = href })

-- `TeamRankingsData.get`, with what the call of the C++ module does.
abbrev pub team_rankings : (ℕ → Result String) → Day → People → ℕ → Outcome String
team_rankings rankings_for_team limit people team_id = do
  team ← or_missing no_team (get (λ (t : StoredTeam). t.id == team_id) (team_objects limit people))
  or_raised (rankings_for_team team_id)
