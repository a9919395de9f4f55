-- ===== src/People/Theirs.antt =====
-- The team that `TeamId` finds is one of the players that were given, and of them alone.
use mathlib.Core.List.{Mem, Perm, mem-cons_self, mem-cons_of_mem}
use mathlib.Core.List.Perm
use rankedftw.Enums.Mode as Mode
use rankedftw.Enums.{id_get, key_get, id_by_keys}
use rankedftw.People.{StoredPlayer, StoredTeam, People, team_objects}
use rankedftw.People.Teams.{
  ◌>>=◌, gives, fails, no_team, or_missing, instead, same_member, is_team, find_team, member_list,
  members_of, get_players, team_by_ids, get_team_id, mismatch, raised, unknown_mode, mode_of,
  by_player_id,
}
use Prim.Native.String.{String}
use rankedftw.People.Members.{Outcome-cases}
use rankedftw.Prelude.Sort.{sort_by, sort_by-perm}
use rankedftw.Remote.Profiles.{Expressions}
use rankedftw.Prelude.{
  if◌then◌else◌, Bool, ℕ, ◌≤◌, ◌==◌, Option, none, some, List, [], ◌∷◌, map, length, ◌≡◌, refl, ap,
  ◌∙◌, inl, inr, arith, Bool-cases, Option-cases, true,
}
use rankedftw.Prelude.Clock.{Day}
use rankedftw.Prelude.Int.{ℤ, ◌==ℤ◌, ==ℤ_iff}
use rankedftw.Prelude.Objects.{filter, get, get-eq-ok, only-eq-ok}
use rankedftw.Prelude.Result.{ok, Result-cases, key_error, or_raise-eq-ok}

filter-eq-Mem {ℓ} :
    {A : Type ℓ} (p : A → Bool) (xs ys : List A) {x : A} → filter p xs ≡ x ∷ ys → Mem x xs
filter-eq-Mem p [] ys h = absurd cc
filter-eq-Mem p (z ∷ xs) ys {x} h = elim (Bool-cases (p z)) [
  | inl e ↦
      let there : z ∷ filter p xs ≡ x ∷ ys = rw e at h in
      let same : x ≡ z = cc in rw same mem-cons_self
  | inr e ↦ mem-cons_of_mem z (filter-eq-Mem p xs ys (rw e at h))
]

get-eq-Mem {ℓ} : {A : Type ℓ} (p : A → Bool) (xs : List A) {x : A} → get p xs ≡ ok x → Mem x xs
get-eq-Mem p xs h = filter-eq-Mem p xs [] (only-eq-ok (filter p xs) h)

same_member-eq : (a b : Option ℕ) → same_member a b ≡ true → a ≡ b
same_member-eq none none h = refl
same_member-eq none (some j) h = absurd cc
same_member-eq (some i) none h = absurd cc
same_member-eq (some i) (some j) h = ap some (ground arith)

is_team-members :
    (mode : ℤ) (m0 m1 m2 m3 : Option ℕ) (t : StoredTeam)
    → is_team mode m0 m1 m2 m3 t ≡ true
    → (t.mode ≡ mode)
      × (members_of t ≡ member_list m0 (member_list m1 (member_list m2 (member_list m3 []))))
is_team-members mode m0 m1 m2 m3 t h =
    let here : (t.mode ==ℤ mode) ≡ true = ground arith in
    let e0 = same_member-eq t.member0 m0 (ground arith) in
    let e1 = same_member-eq t.member1 m1 (ground arith) in
    let e2 = same_member-eq t.member2 m2 (ground arith) in
    let e3 = same_member-eq t.member3 m3 (ground arith) in
    ((==ℤ_iff t.mode mode).0 here, rw (e0, e1, e2, e3) refl)

module _ (mode : ℤ) (limit : Day) (people : People) where
  -- A team of the mode with these members, of which the id is given.
  abbrev pub IsTeamOf : List ℕ → ℕ → Type 0
  IsTeamOf members i =
      (t : StoredTeam) × Mem t (team_objects limit people)
      × (t.id ≡ i)
      × (t.mode ≡ mode)
      × (members_of t ≡ members)

  team_with :
      (m0 m1 m2 m3 : Option ℕ) (i : ℕ)
      → (or_missing no_team (get (is_team mode m0 m1 m2 m3) (team_objects limit people))
          >>= (λ t. gives t.id))
        ≡ gives i
      → IsTeamOf (member_list m0 (member_list m1 (member_list m2 (member_list m3 [])))) i
  team_with m0 m1 m2 m3 i h =
      elim (Result-cases (get (is_team mode m0 m1 m2 m3) (team_objects limit people))) [
        | inl (t, e) ↦
            let there : gives t.id ≡ gives i = rw e at h in
            let p = is_team mode m0 m1 m2 m3 in
            let is =
              is_team-members mode m0 m1 m2 m3 t (get-eq-ok p (team_objects limit people) e) in
            (t, get-eq-Mem p (team_objects limit people) e, cc, is.0, is.1)
        | inr (x, e) ↦ absurd (let no : fails (instead no_team x) ≡ gives i = rw e at h in cc)
      ]

  find_team-IsTeamOf :
      (ids : List ℕ) (i : ℕ)
      → length ids ≤ 4
      → find_team limit people mode ids ≡ gives i
      → IsTeamOf ids i
  find_team-IsTeamOf [] i few h = absurd cc
  find_team-IsTeamOf (a ∷ []) i few h = team_with (some a) none none none i h
  find_team-IsTeamOf (a ∷ b ∷ []) i few h = team_with (some a) (some b) none none i h
  find_team-IsTeamOf (a ∷ b ∷ c ∷ []) i few h = team_with (some a) (some b) (some c) none i h
  find_team-IsTeamOf (a ∷ b ∷ c ∷ d ∷ []) i few h =
      team_with (some a) (some b) (some c) (some d) i h
  find_team-IsTeamOf (a ∷ b ∷ c ∷ d ∷ e ∷ ids) i few h = absurd (omega arith)

abbrev AllAtMost : ℕ → List (ℤ × ℕ) → Type 0
AllAtMost n [] = Unit
AllAtMost n ((k, m) ∷ rows) = (m ≤ n) × AllAtMost n rows

id_get-AllAtMost :
    (k : ℤ) (n m : ℕ) (rows : List (ℤ × ℕ)) → AllAtMost n rows → id_get k rows ≡ some m → m ≤ n
unfolding id_get
id_get-AllAtMost k n m [] all h = absurd cc
id_get-AllAtMost k n m ((j, v) ∷ rows) (here, rest) h = elim (Option-cases (id_get k rows)) [
  | inl e ↦
      let there : (if j ==ℤ k then some v else none) ≡ some m = rw e at h in
      elim (Bool-cases (j ==ℤ k)) [
        | inl f ↦ ground (arith, f, there, here)
        | inr f ↦ ground (arith, f, there)
      ]
  | inr (w, e) ↦
      let there : some w ≡ some m = rw e at h in id_get-AllAtMost k n m rows rest (e ∙ there)
]

team_size-at_most : (mode : ℤ) (n : ℕ) → Mode.team_size mode ≡ ok n → n ≤ 4
unfolding Mode.team_size
team_size-at_most mode n h =
    id_get-AllAtMost mode 4 n Mode.team_sizes
      (
        omega arith,
        (
          omega arith,
          (
            omega arith,
            (omega arith, (omega arith, (omega arith, (omega arith, (omega arith, tt))))),
          ),
        ),
      )
      (or_raise-eq-ok (id_get mode Mode.team_sizes) key_error h)

module _ (re : Expressions) (limit : Day) (people : People) where
  team_by_ids-IsTeamOf :
      (mode : ℤ) (ids : List ℕ) (i : ℕ)
      → team_by_ids limit people mode ids ≡ gives i
      → IsTeamOf mode limit people ids i
  unfolding team_by_ids
  team_by_ids-IsTeamOf mode ids i h = elim (Result-cases (Mode.team_size mode)) [
    | inl (size, e) ↦
        let bound = team_size-at_most mode size e in
        elim (Bool-cases (length ids == size)) [
          | inl f ↦ find_team-IsTeamOf mode limit people ids i (ground arith) (rw (e, f) at h)
          | inr f ↦ absurd (let no : fails mismatch ≡ gives i = rw (e, f) at h in cc)
        ]
    | inr (x, e) ↦ absurd (let no : fails (raised x) ≡ gives i = rw e at h in cc)
  ]

  -- For any tables of players and teams, any mode and any addresses of profiles: where the search
  -- gives the id of a team, the mode is known, each address has its player, and the team is one of
  -- the table, of that mode, whose members, as the page of a team lists them, are these players and
  -- no others.
  pub get_team_id-IsTeamOf :
      (mode : String) (urls : List String) (i : ℕ)
      → get_team_id re limit people mode urls ≡ gives i
      → (mode_id : ℤ) × (players : List StoredPlayer) × (ids : List ℕ) × (mode_of
            (key_get mode (id_by_keys Mode.mapping))
          ≡ some mode_id)
        × (get_players re limit people urls ≡ gives players)
        × Perm ids (map (λ (p : StoredPlayer). p.id) players)
        × IsTeamOf mode_id limit people ids i
  unfolding get_team_id
  get_team_id-IsTeamOf mode urls i h =
      elim (Option-cases (mode_of (key_get mode (id_by_keys Mode.mapping)))) [
        | inl e ↦ absurd (let no : fails (unknown_mode mode) ≡ gives i = rw e at h in cc)
        | inr (mode_id, e) ↦ elim (Outcome-cases (get_players re limit people urls)) [
          | inl (ps, f) ↦
              let ids : List ℕ = map (λ (p : StoredPlayer). p.id) (sort_by by_player_id ps) in
              (
                mode_id,
                ps,
                ids,
                e,
                f,
                Perm.map (λ (p : StoredPlayer). p.id) (sort_by-perm by_player_id ps),
                team_by_ids-IsTeamOf mode_id ids i (rw (e, f) at h),
              )
          | inr (x, f) ↦ absurd (let no : fails x ≡ gives i = rw (e, f) at h in cc)
        ]
      ]
