-- ===== src/Clans/Shown.antt =====
-- Which clans a search shows, and which rows the ladder of a clan has.
use rankedftw.Prelude.{
  Option-cases, take-take, take_all, ltb→lt, ◌<◌, ◌≤◌, ltb, ◌==◌, Bool, true, false, List, [], ◌∷◌,
  length, take, map, ◌≡◌, ◌⊎◌, inl, inr, refl, ◌∙◌, arith, Bool-cases, ==_iff, length-take,
}
use rankedftw.Store.Keys.{find}
use rankedftw.Enums.{id_get}
use rankedftw.Remote.Leagues.{region_ids}
use rankedftw.Prelude.Result.{key_error, ok, err}
use Prim.Native.String.{String}
use mathlib.Core.List.{Perm}
use rankedftw.Clans.{
  Clan, Overview, to_clan, clans_listed, one_or_list, show_clans, by_name, ClanTeam, ClanRow,
  clan_row, clan_rows,
}
use rankedftw.Pages.Teams.{ServerRow}
use rankedftw.Prelude.Sort.{sort_by, sort_by-perm, length-sort_by}

module _ (startswith text_le : String → String → Bool) where
  -- The clans that are shown, in some order, with the mark that some are left out; or the one clan.
  abbrev pub Shows : Overview → Bool → List Clan → Type 0
  Shows (to_clan tag) left_out cs =
      (c : Clan) × Perm (c ∷ []) cs × (tag ≡ c.tag) × (left_out ≡ false)
  Shows (clans_listed b shown) left_out cs =
      (b ≡ left_out) × Perm shown cs × ((length shown == 1) ≡ false)

  one_or_list-Shows :
      (b : Bool) (shown cs : List Clan)
      → Perm shown cs
      → ((length shown == 1) ≡ true → b ≡ false)
      → Shows (one_or_list startswith text_le b shown) b cs
  one_or_list-Shows b [] cs p h = (refl, p, refl)
  one_or_list-Shows b (c ∷ []) cs p h = (c, p, refl, h refl)
  one_or_list-Shows b (c ∷ d ∷ ds) cs p h = (refl, p, ground arith)

  -- For any clans that match a search, in the order of their sizes: the overview goes to the page
  -- of the one clan exactly when one is to be shown, and else lists the first 32 in some order,
  -- with the mark that some are left out exactly when there are more.
  pub show_clans-Shows :
      (clans : List Clan)
      → Shows
          (show_clans startswith text_le (take 33 clans))
          (ltb 32 (length clans))
          (take 32 clans)
  unfolding show_clans
  show_clans-Shows clans = elim (Bool-cases (ltb 32 (length clans))) [
    | inl more ↦
        let many : 32 < length clans = ltb→lt 32 (length clans) more in
        let full : (length (take 33 clans) == 33) ≡ true =
          (==_iff (length (take 33 clans)) 33).1 (length-take 33 clans ∙ omega arith) in
        let size : length (sort_by (by_name startswith text_le) (take 32 clans)) ≡ 32 =
          length-sort_by (by_name startswith text_le) (take 32 clans)
          ∙ length-take 32 clans
          ∙ omega arith in
        rw (full, take-take 32 33 clans (omega arith), more)
          (one_or_list-Shows true (sort_by (by_name startswith text_le) (take 32 clans))
            (take 32 clans) (sort_by-perm (by_name startswith text_le) (take 32 clans))
            (λ one. absurd (cc (rw size at one))))
    | inr all ↦
        let few : length clans ≤ 32 = ground (arith, all) in
        let short : (length clans == 33) ≡ false = ground (arith, few) in
        rw (take_all 33 clans (omega arith), take_all 32 clans few, short, all)
          (one_or_list-Shows false (sort_by (by_name startswith text_le) clans) clans
            (sort_by-perm (by_name startswith text_le) clans) (λ one. refl))
  ]

-- A row is that of the server with the names of the database, or the code raises `KeyError`.
clan_row-cases :
    (teams : List ClanTeam) (tr : ServerRow)
    → ((row : ClanRow) × (clan_row teams tr ≡ ok row) × (row.server_row ≡ tr))
      ⊎ (clan_row teams tr ≡ err key_error)
clan_row-cases teams tr = elim (Option-cases (find (λ (t : ClanTeam). t.id) tr.team_id teams)) [
  | inl e ↦ rw e (inr refl)
  | inr (t, e) ↦ elim (Option-cases (id_get t.member.region region_ids)) [
    | inl f ↦ rw (e, f) (inr refl)
    | inr (region_id, f) ↦ rw (e, f) (inl (_, refl, refl))
  ]
]

-- The rows of a clan are those of the server in its order, or the code raises `KeyError`.
pub clan_rows-server_row :
    (teams : List ClanTeam) (rows : List ServerRow)
    → ((shown : List ClanRow) × (clan_rows teams rows ≡ ok shown)
        × (map (λ (r : ClanRow). r.server_row) shown ≡ rows))
      ⊎ (clan_rows teams rows ≡ err key_error)
unfolding clan_rows
clan_rows-server_row teams [] = inl ([], refl, refl)
clan_rows-server_row teams (tr ∷ rows) = elim (clan_row-cases teams tr) [
  | inr e ↦ rw e (inr refl)
  | inl (row, e, same) ↦ elim (clan_rows-server_row teams rows) [
    | inr f ↦ rw (e, f) (inr refl)
    | inl (shown, f, later) ↦ rw (e, f) (inl (row ∷ shown, refl, cc))
  ]
]
