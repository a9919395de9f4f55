-- ===== src/Api/Bounds.antt =====
-- What the rankings are given of a ladder by main/battle_net.py.
use rankedftw.Prelude.Int.{pos, ◌≤ℤ◌, ℤ}
use rankedftw.Api.{
  get_or_default, Data, Texts, GameTeam, GameMember, OldMember, game_data, old_data, game_member,
  game_members, game_teams, old_member, old_members, members_for_ranking, mmr_of, no_mmr,
  first_race, race_id,
}
use rankedftw.Fetch.Cached.{Member}
use rankedftw.Prelude.Result.{Result, ok, err, ◌>>=◌}
use rankedftw.Prelude.{
  ◌%◌, ◌+◌, ℕ, ap, arith, ◌++◌, ◌≡◌, Option, List, none, some, [], ◌∷◌, sym, refl,
}

-- No rating is over the limit.
abbrev pub Rated : List Member → Type 0
Rated [] = Unit
Rated (m ∷ members) = (m.mmr ≤ℤ pos 30000) × Rated members

Rated-append : (a b : List Member) → Rated a → Rated b → Rated (a ++ b)
Rated-append [] b h k = k
Rated-append (m ∷ a) b h k = (h.0, Rated-append a b h.1 k)

mmr_of-le : (rating : Option ℤ) → mmr_of rating ≤ℤ pos 30000
unfolding mmr_of
mmr_of-le none = omega arith
mmr_of-le (some r) = ground arith

-- The rating of a member, where there is one.
abbrev mmr_in : Result Member → ℤ
mmr_in (ok m) = m.mmr
mmr_in (err e) = no_mmr

-- What holds of the value of the code after a value that it needs.
then_all :
    {A : Type 0} {B : Type 0} (P : B → Type 0) (r : Result A) (f : A → Result B)
    → ((a : A) → r ≡ ok a → (b : B) → f a ≡ ok b → P b)
    → (b : B) → (r >>= f) ≡ ok b
    → P b
then_all P (ok a) f next b h = next a refl b h
then_all P (err e) f next b h = absurd cc

module _ (texts : Texts) where
  game_member-le :
      (t : GameTeam) (m : GameMember) (member : Member)
      → game_member texts t m ≡ ok member
      → member.mmr ≤ℤ pos 30000
  unfolding game_member
  game_member-le t m =
      then_all (λ (b : Member). b.mmr ≤ℤ pos 30000) (first_race m.played_races) _
        (λ text is_text.
          then_all (λ (b : Member). b.mmr ≤ℤ pos 30000) (race_id (texts.lower text)) _
            (λ race is_race b h.
              let same : mmr_of t.rating ≡ b.mmr = ap mmr_in h in
              rw (sym same) (mmr_of-le t.rating)))

  old_member-le :
      (team_size i : ℕ) (m : OldMember) (member : Member)
      → old_member texts team_size i m ≡ ok member
      → member.mmr ≤ℤ pos 30000
  unfolding old_member mmr_of
  old_member-le team_size i m =
      let text = texts.lower (get_or_default (m.favorite_race (i % team_size + 1)) "unknown") in
      then_all (λ (b : Member). b.mmr ≤ℤ pos 30000) (race_id text) _
        (λ race is_race b h.
          let same : no_mmr ≡ b.mmr = ap mmr_in h in rw (sym same) (mmr_of-le none))

  game_members-Rated :
      (t : GameTeam) (ms : List (Option GameMember)) (members : List Member)
      → game_members texts t ms ≡ ok members
      → Rated members
  unfolding game_members
  game_members-Rated t [] members = λ h. let e : [] ≡ members = cc in rw (sym e) tt
  game_members-Rated t (none ∷ ms) members = game_members-Rated t ms members
  game_members-Rated t (some m ∷ ms) members =
      then_all Rated (game_member texts t m) _
        (λ member is_member bs.
          then_all Rated (game_members texts t ms) _
            (λ rest is_rest cs h.
              let e : member ∷ rest ≡ cs = cc in
              rw (sym e)
                (game_member-le t m member is_member, game_members-Rated t ms rest is_rest))
            bs)
        members

  game_teams-Rated :
      (teams : List GameTeam) (members : List Member)
      → game_teams texts teams ≡ ok members
      → Rated members
  unfolding game_teams
  game_teams-Rated [] members = λ h. let e : [] ≡ members = cc in rw (sym e) tt
  game_teams-Rated (t ∷ teams) members =
      then_all Rated (game_members texts t t.members) _
        (λ here is_here bs.
          then_all Rated (game_teams texts teams) _
            (λ others is_others cs h.
              let e : here ++ others ≡ cs = cc in
              rw (sym e) (
                Rated-append here others (game_members-Rated t t.members here is_here)
                  (game_teams-Rated teams others is_others)))
            bs)
        members

  old_members-Rated :
      (team_size i : ℕ) (ms : List OldMember) (members : List Member)
      → old_members texts team_size i ms ≡ ok members
      → Rated members
  unfolding old_members
  old_members-Rated team_size i [] members = λ h. let e : [] ≡ members = cc in rw (sym e) tt
  old_members-Rated team_size i (m ∷ ms) members =
      then_all Rated (old_member texts team_size i m) _
        (λ member is_member bs.
          then_all Rated (old_members texts team_size (i + 1) ms) _
            (λ rest is_rest cs h.
              let e : member ∷ rest ≡ cs = cc in
              rw (sym e) (
                old_member-le team_size i m member is_member,
                old_members-Rated team_size (i + 1) ms rest is_rest,
              ))
            bs)
        members

  -- Where `members_for_ranking` returns for the data of a ladder, of either form, no member that it
  -- lists has a rating over 30000.
  pub members_for_ranking-Rated :
      (team_size : ℕ) (data_of : Data) (members : List Member)
      → members_for_ranking texts team_size data_of ≡ ok members
      → Rated members
  unfolding members_for_ranking
  members_for_ranking-Rated team_size (game_data teams) = game_teams-Rated teams
  members_for_ranking-Rated team_size (old_data ms) = old_members-Rated team_size 0 ms
