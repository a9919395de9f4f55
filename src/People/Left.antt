-- ===== src/People/Left.antt =====
-- What a purge leaves.
use rankedftw.People.Purge.{
  older_team, older_player, any_member, any_referred, delete_people, purge_rankings,
  purge_player_data, rankings_of, all_but_last, Purged,
}
use rankedftw.People.{StoredPlayer, StoredTeam, People, player_objects, team_objects, is_member}
use rankedftw.Prelude.{
  ap, ℕ, ◌≤◌, ltb, leb, not, Bool, true, false, List, [], ◌∷◌, map, ◌≡◌, ◌⊎◌, inl, inr, refl, arith,
  Bool-cases,
}
use rankedftw.Prelude.Clock.{Day}
use rankedftw.Prelude.Objects.{filter}
use rankedftw.Prelude.Result.{Result, ok, Result-cases}
use rankedftw.Archive.Rows.{All}
use rankedftw.Store.{Db, Ranking}

-- No team was seen after one of its members.
abbrev pub IsSeen : List StoredTeam → StoredPlayer → Type 0
IsSeen teams p =
    All (λ (t : StoredTeam). (is_member p.id t ≡ false) ⊎ (t.last_seen ≤ p.last_seen)) teams

abbrev pub AreSeen : People → Type 0
AreSeen people = All (IsSeen people.teams) people.players

module _ (limit : Day) where
  -- A player that goes is in no team that stays.
  any_member-false :
      (p : StoredPlayer) (ts : List StoredTeam)
      → older_player limit p ≡ true
      → IsSeen ts p
      → any_member p (filter (λ t. not (older_team limit t)) ts) ≡ false
  any_member-false p [] old h = refl
  any_member-false p (t ∷ ts) old (inl out, h) = elim (Bool-cases (older_team limit t)) [
    | inl e ↦ rw e (any_member-false p ts old h)
    | inr e ↦ rw (e, out) (any_member-false p ts old h)
  ]
  any_member-false p (t ∷ ts) old (inr le, h) =
      let gone : older_team limit t ≡ true = ground (arith, old, le) in
      rw gone (any_member-false p ts old h)

  any_referred-false :
      (ps : List StoredPlayer) (ts : List StoredTeam)
      → All
          (λ p.
            All (λ (t : StoredTeam). (is_member p.id t ≡ false) ⊎ (t.last_seen ≤ p.last_seen)) ts)
          ps
      → any_referred (filter (older_player limit) ps) (filter (λ t. not (older_team limit t)) ts)
        ≡ false
  any_referred-false [] ts h = refl
  any_referred-false (p ∷ ps) ts h = elim (Bool-cases (older_player limit p)) [
    | inl e ↦ rw (e, any_member-false p ts e h.0, any_referred-false ps ts h.1) refl
    | inr e ↦ rw e (any_referred-false ps ts h.1)
  ]

  kept-visible {ℓ} :
      {A : Type ℓ} (seen : A → Day) (xs : List A)
      → filter (λ x. leb limit (seen x)) (filter (λ x. not (ltb (seen x) limit)) xs)
        ≡ filter (λ x. leb limit (seen x)) xs
  kept-visible seen [] = refl
  kept-visible seen (x ∷ xs) = elim (Bool-cases (ltb (seen x) limit)) [
    | inl e ↦
        let hidden : leb limit (seen x) ≡ false = ground (arith, e) in
        rw (e, hidden) (kept-visible seen xs)
    | inr e ↦
        let shown : leb limit (seen x) ≡ true = ground (arith, e) in
        rw (e, shown, kept-visible seen xs) refl
  ]

  kept-All {ℓ} :
      {A : Type ℓ} (seen : A → Day) (xs : List A)
      → All (λ x. limit ≤ seen x) (filter (λ x. not (ltb (seen x) limit)) xs)
  kept-All seen [] = tt
  kept-All seen (x ∷ xs) = elim (Bool-cases (ltb (seen x) limit)) [
    | inl e ↦ rw e (kept-All seen xs)
    | inr e ↦ rw e (ground (arith, e), kept-All seen xs)
  ]

  -- What the views show.
  abbrev pub SameObjects : People → People → Type 0
  SameObjects old new =
      (player_objects limit new ≡ player_objects limit old)
      × (team_objects limit new ≡ team_objects limit old)

  delete_people-SameObjects :
      (ids : List ℕ) (people : People) → SameObjects people (delete_people limit ids people).people
  delete_people-SameObjects ids people =
      let ts = filter (λ t. not (older_team limit t)) people.teams in
      elim (Bool-cases (any_referred (filter (older_player limit) people.players) ts)) [
        | inl e ↦ rw e (refl, kept-visible (λ (t : StoredTeam). t.last_seen) people.teams)
        | inr e ↦ rw e (
          kept-visible (λ (p : StoredPlayer). p.last_seen) people.players,
          kept-visible (λ (t : StoredTeam). t.last_seen) people.teams,
        )
      ]

  -- Nobody is left who was last seen before the date.
  abbrev pub IsPurged : People → Type 0
  IsPurged people =
      All (λ (p : StoredPlayer). limit ≤ p.last_seen) people.players
      × All (λ (t : StoredTeam). limit ≤ t.last_seen) people.teams

  module _ (check_stop : ℕ → Bool) (purger : ℕ → Result (Unit {0})) where
    purge_rankings-SameObjects :
        (rs : List Ranking) (people : People)
        → SameObjects people (purge_rankings check_stop purger limit rs people).people
    unfolding purge_rankings
    purge_rankings-SameObjects [] people = delete_people-SameObjects [] people
    purge_rankings-SameObjects (r ∷ rs) people = elim (Bool-cases (check_stop r.id)) [
      | inl e ↦ rw e (refl, refl)
      | inr e ↦ elim (Result-cases (purger r.id)) [
        | inl (done, f) ↦ rw (e, f) (purge_rankings-SameObjects rs people)
        | inr (x, f) ↦ rw (e, f) (refl, refl)
      ]
    ]

    -- For any calls of `check_stop` and of the C++ module, the players and teams that the managers
    -- `objects` show are the same before and after `purge_player_data`.
    pub purge_player_data-SameObjects :
        (db : Db) (people : People)
        → SameObjects people (purge_player_data check_stop purger limit db people).people
    purge_player_data-SameObjects db people =
        purge_rankings-SameObjects (all_but_last (rankings_of check_stop purger limit db)) people

    abbrev Finished : List Ranking → Purged → Type 0
    Finished rs p =
        (p.result ≡ ok tt) × (p.rankings ≡ map (λ (r : Ranking). r.id) rs) × IsPurged p.people

    purge_rankings-Finished :
        ((i : ℕ) → check_stop i ≡ false)
        → ((i : ℕ) → purger i ≡ ok tt)
        → (rs : List Ranking) (people : People) → AreSeen people
        → Finished rs (purge_rankings check_stop purger limit rs people)
    unfolding purge_rankings
    purge_rankings-Finished go works [] people seen =
        rw (any_referred-false people.players people.teams seen) (
          refl,
          refl,
          (
            kept-All (λ (p : StoredPlayer). p.last_seen) people.players,
            kept-All (λ (t : StoredTeam). t.last_seen) people.teams,
          ),
        )
    purge_rankings-Finished go works (r ∷ rs) people seen =
        let rest = purge_rankings-Finished go works rs people seen in
        rw (go r.id, works r.id) (rest.0, ap (λ ids. r.id ∷ ids) rest.1, rest.2)

    -- Where no call of `check_stop` stops the run, the C++ module raises nothing and no team was
    -- seen after one of its members: `purge_player_data` returns, the rankings whose teams the C++
    -- module has purged are the complete ones in the order of their ids but for the last, and no
    -- player or team is left that was last seen before the date.
    pub purge_player_data-IsPurged :
        (db : Db) (people : People)
        → ((i : ℕ) → check_stop i ≡ false)
        → ((i : ℕ) → purger i ≡ ok tt)
        → AreSeen people
        → ((purge_player_data check_stop purger limit db people).result ≡ ok tt)
          × ((purge_player_data check_stop purger limit db people).rankings
              ≡ map (λ (r : Ranking). r.id) (all_but_last (rankings_of check_stop purger limit db)))
          × IsPurged (purge_player_data check_stop purger limit db people).people
    purge_player_data-IsPurged db people go works seen =
        purge_rankings-Finished go works (all_but_last (rankings_of check_stop purger limit db))
          people seen
