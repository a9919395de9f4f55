-- ===== src/People/Members.antt =====
-- Which team `TeamId` finds: the order of the players does not matter, and the team is theirs.
use rankedftw.Enums.Mode as Mode
use rankedftw.Enums.{id_by_keys, key_get}
use Prim.Native.String.{String}
use mathlib.Core.List as CoreList
use mathlib.Core.List.{foldr, Perm}
use mathlib.Core.List.Perm
use mathlib.Core.Option as CoreOption
use native.Mathlib.Nat.{ℕ_set}
use rankedftw.People.{StoredPlayer, People}
use rankedftw.People.Teams.{
  unknown_mode, mode_of, or_fails, Refusal, Outcome, ◌>>=◌, gives, fails, by_player_id, get_player,
  get_players, team_by_ids, get_team_id,
}
use rankedftw.Prelude.{
  ℕ, leb, Option, none, some, List, [], ◌∷◌, map, ◌≡◌, refl, sym, ap, ◌∙◌, ◌⊎◌, inl, inr, arith,
  Bool-cases,
}
use rankedftw.Prelude.Clock.{Day}
use rankedftw.Prelude.Sort.{insert_by, sort_by}
use rankedftw.Remote.Profiles.{Expressions}

insert_by_comm :
    (x y : ℕ) (zs : List ℕ)
    → insert_by leb x (insert_by leb y zs) ≡ insert_by leb y (insert_by leb x zs)
unfolding insert_by
insert_by_comm x y [] = ground arith
insert_by_comm x y (z ∷ zs) = ground (arith, insert_by_comm x y zs)

map-insert_by :
    (p : StoredPlayer) (ps : List StoredPlayer)
    → map (λ (p : StoredPlayer). p.id) (insert_by by_player_id p ps)
      ≡ insert_by leb p.id (map (λ (p : StoredPlayer). p.id) ps)
unfolding insert_by
map-insert_by p [] = refl
map-insert_by p (q ∷ ps) = elim (Bool-cases (leb p.id q.id)) [
  | inl e ↦ rw e refl
  | inr e ↦ rw e (ap (λ ids. q.id ∷ ids) (map-insert_by p ps))
]

abbrev add_id : Option ℕ → Option (List ℕ) → Option (List ℕ)
add_id none acc = none
add_id (some i) none = none
add_id (some i) (some ids) = some (insert_by leb i ids)

add_id_comm :
    (a b : Option ℕ) (acc : Option (List ℕ)) → add_id a (add_id b acc) ≡ add_id b (add_id a acc)
add_id_comm none none acc = refl
add_id_comm none (some j) acc = elim acc [ none ↦ refl | some ids ↦ refl ]
add_id_comm (some i) none acc = elim acc [ none ↦ refl | some ids ↦ refl ]
add_id_comm (some i) (some j) none = refl
add_id_comm (some i) (some j) (some ids) = ap some (insert_by_comm i j ids)

abbrev id_given : Outcome StoredPlayer → Option ℕ
id_given (gives p) = some p.id
id_given (fails f) = none

abbrev ids_given : Outcome (List StoredPlayer) → Option (List ℕ)
ids_given (gives ps) = some (map (λ (p : StoredPlayer). p.id) (sort_by by_player_id ps))
ids_given (fails f) = none

add_id-ids_given :
    (r : Outcome StoredPlayer) (rest : Outcome (List StoredPlayer))
    → add_id (id_given r) (ids_given rest)
      ≡ ids_given (r >>= (λ p. rest >>= (λ ps. gives (p ∷ ps))))
unfolding sort_by
add_id-ids_given (fails f) rest = refl
add_id-ids_given (gives p) (fails f) = refl
add_id-ids_given (gives p) (gives ps) = ap some (sym (map-insert_by p (sort_by by_player_id ps)))

pub Outcome-cases {ℓ} :
    {A : Type ℓ} (r : Outcome A) → ((a : A) × (r ≡ gives a)) ⊎ ((f : Refusal) × (r ≡ fails f))
Outcome-cases (gives a) = inl (a, refl)
Outcome-cases (fails f) = inr (f, refl)

module _ (re : Expressions) (limit : Day) (people : People) where
  abbrev sorted_ids : List String → Option (List ℕ)
  sorted_ids = foldr (λ url. add_id (id_given (get_player re limit people url))) (some [])

  sorted_ids-get_players :
      (urls : List String) → sorted_ids urls ≡ ids_given (get_players re limit people urls)
  unfolding get_players sort_by
  sorted_ids-get_players [] = refl
  sorted_ids-get_players (url ∷ urls) =
      ap (add_id (id_given (get_player re limit people url))) (sorted_ids-get_players urls)
      ∙ add_id-ids_given (get_player re limit people url) (get_players re limit people urls)

  -- For any mode and any addresses that each have their player: the search answers the same, a
  -- team, another status or an exception, in whatever order the addresses are given.
  pub get_team_id-perm :
      (mode : String) (urls others : List String) (players : List StoredPlayer)
      → Perm urls others
      → get_players re limit people urls ≡ gives players
      → get_team_id re limit people mode urls ≡ get_team_id re limit people mode others
  unfolding get_team_id
  get_team_id-perm mode urls others players p given =
      let same : ids_given (gives players) ≡ ids_given (get_players re limit people others) =
        ap ids_given (sym given)
        ∙ sym (sorted_ids-get_players urls)
        ∙ Perm.foldr-eq (CoreOption.is_set (CoreList.is_set ℕ_set))
            (λ url. add_id (id_given (get_player re limit people url)))
            (λ a b acc.
              add_id_comm (id_given (get_player re limit people a))
                (id_given (get_player re limit people b)) acc)
            p (some [])
        ∙ sorted_ids-get_players others in
      elim (Outcome-cases (get_players re limit people others)) [
        | inl (ps, e) ↦
            let ids : map (λ (p : StoredPlayer). p.id) (sort_by by_player_id players)
                ≡ map (λ (p : StoredPlayer). p.id) (sort_by by_player_id ps) =
              cc in
            rw (given, e)
              (ap
                (λ ids.
                  or_fails (mode_of (key_get mode (id_by_keys Mode.mapping))) (unknown_mode mode)
                  >>= (λ id. team_by_ids limit people id ids))
                ids)
        | inr (f, e) ↦ absurd cc
      ]
