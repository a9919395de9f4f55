-- ===== src/Update/Onward.antt =====
-- How far `countinously_update` of main/update.py moves the season.
use rankedftw.Prelude.Objects.{get-eq-ok, get}
use rankedftw.Season.{missing_to_none, get_next, get_current_season}
use rankedftw.Prelude.Result.{
  or_raise-eq-ok, attribute_error, or_raise, does_not_exist, exception_raised, err, raise_if,
  Result, ok,
}
use rankedftw.Prelude.{
  ltb→lt, ltb, ap, ap, refl, false, ==_iff, ◌∙◌, true, inr, sym, some, not, inl, ◌==◌, List,
  Bool-cases, Bool, ◌<◌, ◌+◌, ◌⊎◌, ◌≡◌,
}
use rankedftw.Store.{Season, Db}
use rankedftw.Update.Switch.{switch_season, count_good}
use rankedftw.Season.Queries.{get_next_lem, has_id}
use rankedftw.Store.Action.{continue_ok, bind_lift}

-- The season is kept, or it is left for the one of the next id, which is the current one and has more
-- than 8 good ladders.
abbrev pub IsOnward : Db → Season → Season → Type 0
IsOnward db season s =
    (s ≡ season)
    ⊎ ((s.id ≡ season.id + 1)
        × (get_current_season db.seasons ≡ ok s)
        × (8 < count_good s.id db.ladders))

missing_to_none-some : (r : Result Season) {s : Season} → missing_to_none r ≡ ok (some s) → r ≡ ok s
missing_to_none-some (ok a) h = cc
missing_to_none-some (err does_not_exist) h = cc
missing_to_none-some (err e) h = cc

get_next-id :
    (seasons : List Season) (season next : Season)
    → get_next seasons season ≡ ok (some next)
    → next.id ≡ season.id + 1
get_next-id seasons season next h =
    let found =
      missing_to_none-some (get (has_id (season.id + 1)) seasons)
        (sym (get_next_lem seasons season) ∙ h) in
    (==_iff next.id (season.id + 1)).0 (get-eq-ok (has_id (season.id + 1)) seasons found)

not_raised : (b : Bool) → raise_if (not b) exception_raised ≡ ok tt → b ≡ true
not_raised true h = refl
not_raised false h = cc

-- Where the choice of the season to rank returns, it is the season it was, or the season of the
-- next id, which is then the current one and has more than 8 good ladders.
switch_season-IsOnward :
    (season s : Season) (db : Db) → (switch_season season db).0 ≡ ok s → IsOnward db season s
unfolding switch_season
switch_season-IsOnward season s db =
    let Q = λ (after : Db). IsOnward db season s in
    continue_ok Q s _ (get_current_season db.seasons, db)
      (λ current is_current. elim (Bool-cases (current.id == season.id)) [
        | inl here ↦ rw here (λ h. let kept : season ≡ s = cc in inl (sym kept))
        | inr gone ↦ rw gone (
            continue_ok Q s _ (get_next db.seasons season, db)
              (λ found is_found.
                bind_lift Q s (or_raise found attribute_error) _ db (λ next is_next.
                  bind_lift Q s (raise_if (not (current.id == next.id)) exception_raised) _ db
                    (λ done fine.
                      let some_next = or_raise-eq-ok found attribute_error is_next in
                      let id =
                        get_next-id db.seasons season next (is_found ∙ ap (λ o. ok o) some_next) in
                      let same =
                        (==_iff current.id next.id).0 (not_raised (current.id == next.id) fine) in
                      elim (Bool-cases (ltb 8 (count_good current.id db.ladders))) [
                        | inl many ↦ rw many (λ h.
                            let moved : current ≡ s = cc in
                            rw (sym moved) (
                              inr (
                                same ∙ id,
                                is_current,
                                ltb→lt 8 (count_good current.id db.ladders) many,
                              )))
                        | inr few ↦ rw few (λ h. let moved : season ≡ s = cc in inl (sym moved))
                      ]))))
      ])
