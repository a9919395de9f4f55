-- ===== src/People/Purge.antt =====
-- main/purge.py: players and teams that the API does not show any more. The calls of `check_stop` and of
-- the C++ module are arguments, by the id of the ranking.
use rankedftw.People.{StoredPlayer, StoredTeam, People, is_member}
use rankedftw.Prelude.{ℕ, ltb, leb, not, ◌||◌, Bool, false, List, [], ◌∷◌, if◌then◌else◌}
use rankedftw.Prelude.Clock.{Day}
use rankedftw.Prelude.Objects.{filter}
use rankedftw.Prelude.Result.{Result, ok, err, integrity_error}
use rankedftw.Prelude.Sort.{sort_by}
use rankedftw.Store.{Db, Ranking}
use rankedftw.Store.Rows.{is_complete}

-- `rankings[:-1]`.
abbrev pub all_but_last {ℓ} : {A : Type ℓ} → List A → List A
all_but_last [] = []
all_but_last (x ∷ []) = []
all_but_last (x ∷ y ∷ ys) = x ∷ all_but_last (y ∷ ys)

-- How a run ends: the rankings whose teams the C++ module has purged, and the tables.
pub record Purged : Type 0 where
  pub result : Result (Unit {0})
  pub rankings : List ℕ
  pub people : People

abbrev pub older_team : Day → StoredTeam → Bool
older_team limit t = ltb t.last_seen limit

abbrev pub older_player : Day → StoredPlayer → Bool
older_player limit p = ltb p.last_seen limit

abbrev pub any_member : StoredPlayer → List StoredTeam → Bool
any_member p [] = false
any_member p (t ∷ ts) = is_member p.id t || any_member p ts

-- Whether a team still refers to one of the players.
abbrev pub any_referred : List StoredPlayer → List StoredTeam → Bool
any_referred [] ts = false
any_referred (p ∷ ps) ts = any_member p ts || any_referred ps ts

-- The two deletions. The second breaks a foreign key where a team refers to a player that would go.
abbrev pub delete_players : Day → List ℕ → People → Purged
delete_players limit ids people =
    if any_referred (filter (older_player limit) people.players) people.teams
    then record { result = err integrity_error; rankings = ids; people = people }
    else record {
      result = ok tt;
      rankings = ids;
      people = record people { players = filter (λ p. not (older_player limit p)) people.players };
    }

abbrev pub delete_people : Day → List ℕ → People → Purged
delete_people limit ids people =
    delete_players limit ids
      (record people { teams = filter (λ t. not (older_team limit t)) people.teams })

abbrev pub prepend : ℕ → Purged → Purged
prepend id p = record p { rankings = id ∷ p.rankings }

abbrev pub after_purger : Result (Unit {0}) → ℕ → People → Purged → Purged
after_purger (ok done) id people rest = prepend id rest
after_purger (err e) id people rest = record { result = err e; rankings = []; people = people }

module _ (check_stop : ℕ → Bool) (purger : ℕ → Result (Unit {0})) (limit : Day) where
  unfoldable pub purge_rankings : List Ranking → People → Purged
  purge_rankings [] people = delete_people limit [] people
  purge_rankings (r ∷ rs) people =
      let rest = purge_rankings rs people in
      if check_stop r.id
      then record { result = ok tt; rankings = []; people = people }
      else after_purger (purger r.id) r.id people rest

  -- `order_by('id')`.
  abbrev pub rankings_of : Db → List Ranking
  rankings_of db =
      sort_by (λ (r q : Ranking). leb r.id q.id)
        (filter (λ (r : Ranking). is_complete r.status) db.rankings)

  abbrev pub purge_player_data : Db → People → Purged
  purge_player_data db people = purge_rankings (all_but_last (rankings_of db)) people
