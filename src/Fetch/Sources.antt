-- ===== src/Fetch/Sources.antt =====
-- What `update_ladder_cache` of main/fetch.py leaves in the two tables.
use rankedftw.Enums.Mode.{team_size}
use rankedftw.Store.Rows.{save_ladder}
use rankedftw.Store.Action.{bind_lift, ◌>>=◌, lift}
use rankedftw.Prelude.Int.{==ℤ_iff}
use rankedftw.Prelude.Result.{Result, ok}
use rankedftw.Prelude.Objects.{filter-append, filter-eq-cons, filter, only, get}
use rankedftw.Season.{missing_to_none}
use rankedftw.Store.{good, Db, Ladder, Cache}
use rankedftw.Prelude.{==_iff, refl, ◌∷◌, [], some, none, arith, true, Option, ◌≡◌, ℕ, List}
use rankedftw.Fetch.Cached.{
  update_call, FetchedLadder, UpdateCall, update_ladder_cache, is_ranked, with_answer, save_answer,
  save_refreshed, refreshed, new_cache,
}
use rankedftw.Store.Keys.{find-saved, IsKeyed, find, filter-save_row}

-- The row that the ranking then has for the ladder, and the row of the ladder.
abbrev pub IsAnswered : ℕ → Ladder → FetchedLadder → Db → Type 0
IsAnswered ranking ladder res db =
    ((c : Cache) × (get (is_ranked ranking ladder) db.caches ≡ ok c)
      × (c.text ≡ res.text)
      × (c.status ≡ res.status)
      × (c.updated ≡ res.fetch_time))
    × ((l : Ladder) × (find (λ (m : Ladder). m.id) ladder.id db.ladders ≡ some l)
        × (l.strangeness ≡ good)
        × (l.updated ≡ res.fetch_time))

abbrev IsStored : ℕ → Ladder → FetchedLadder → Db → Type 0
IsStored ranking ladder res db =
    (c : Cache) × (get (is_ranked ranking ladder) db.caches ≡ ok c)
    × (c.text ≡ res.text)
    × (c.status ≡ res.status)
    × (c.updated ≡ res.fetch_time)

none_found : (xs : List Cache) → missing_to_none (only xs) ≡ ok none → xs ≡ []
none_found [] h = refl
none_found (x ∷ []) h = cc
none_found (x ∷ y ∷ xs) h = cc

one_found : (xs : List Cache) (c : Cache) → missing_to_none (only xs) ≡ ok (some c) → xs ≡ c ∷ []
one_found [] c h = cc
one_found (x ∷ []) c h = cc
one_found (x ∷ y ∷ xs) c h = cc

module _ (ranking : ℕ) (ladder : Ladder) (res : FetchedLadder) where
  with_answer-is_ranked :
      (c : Cache)
      → is_ranked ranking ladder c ≡ true
      → is_ranked ranking ladder (with_answer ranking res c) ≡ true
  with_answer-is_ranked c h = ground arith

  new_cache-is_ranked :
      (id : ℕ) → is_ranked ranking ladder (with_answer ranking res (new_cache id ladder res)) ≡ true
  new_cache-is_ranked id =
      rw
        (
          (==_iff ranking ranking).1 refl,
          (==_iff ladder.bid ladder.bid).1 refl,
          (==ℤ_iff ladder.region ladder.region).1 refl,
        )
        refl

  save_answer-IsStored :
      (db : Db) (found : Option Cache)
      → IsKeyed (λ (c : Cache). c.id) db.caches
      → missing_to_none (get (is_ranked ranking ladder) db.caches) ≡ ok found
      → IsStored ranking ladder res (save_answer ranking ladder res found db).1
  save_answer-IsStored db none k h =
      let row = with_answer ranking res (new_cache db.next_cache ladder res) in
      (
        row,
        rw
            (
              filter-append (is_ranked ranking ladder) db.caches (row ∷ []),
              none_found (filter (is_ranked ranking ladder) db.caches) h,
              new_cache-is_ranked db.next_cache,
            )
            refl,
        refl,
        refl,
        refl,
      )
  save_answer-IsStored db (some c) k h =
      let row = with_answer ranking res c in
      let alone = one_found (filter (is_ranked ranking ladder) db.caches) c h in
      let ranked =
        with_answer-is_ranked c (filter-eq-cons (is_ranked ranking ladder) db.caches [] alone) in
      (
        row,
        rw
            (filter-save_row (λ (d : Cache). d.id) (is_ranked ranking ladder) c row db.caches k
              alone refl ranked)
            refl,
        refl,
        refl,
        refl,
      )

  module _ (update_with_ladder : UpdateCall → Result (Unit {0})) where
    -- What the rest leaves where it returns: the ladder is saved, the caches are as they were.
    abbrev IsRefreshed : Db → Db → Type 0
    IsRefreshed db after =
        (after.caches ≡ db.caches)
        × ((l : Ladder) × (find (λ (m : Ladder). m.id) ladder.id after.ladders ≡ some l)
            × (l.strangeness ≡ good)
            × (l.updated ≡ res.fetch_time))

    save_refreshed-IsRefreshed :
        (db : Db) (lc : Cache)
        → (save_refreshed update_with_ladder ranking ladder res lc db).0 ≡ ok tt
        → IsRefreshed db (save_refreshed update_with_ladder ranking ladder res lc db).1
    save_refreshed-IsRefreshed db lc =
        bind_lift (IsRefreshed db) tt res.last_join _ db (λ join is_join.
          bind_lift (IsRefreshed db) tt res.max_points _ db (λ points is_points.
            bind_lift (IsRefreshed db) tt res.member_count _ db
              (λ count is_count. saved (refreshed res ladder join points count) refl refl refl)))
      where
        saved :
            (l : Ladder)
            → l.id ≡ ladder.id
            → l.strangeness ≡ good
            → l.updated ≡ res.fetch_time
            → (((lift (team_size ladder.mode) >>= λ size.
                    lift (res.members_for_ranking size) >>= λ members.
                    lift (update_with_ladder (update_call lc.id lc.updated ladder size members)))
                  (save_ladder l db)).0
                ≡ ok tt)
            → IsRefreshed db
                ((lift (team_size ladder.mode) >>= λ size.
                    lift (res.members_for_ranking size) >>= λ members.
                    lift (update_with_ladder (update_call lc.id lc.updated ladder size members)))
                  (save_ladder l db)).1
        saved l i g t =
            bind_lift (IsRefreshed db) tt (team_size ladder.mode) _ (save_ladder l db)
              (λ size is_size.
                bind_lift (IsRefreshed db) tt (res.members_for_ranking size) _ (save_ladder l db)
                  (λ members is_members h.
                    (refl, (l, find-saved (λ (m : Ladder). m.id) ladder.id l db.ladders i, g, t))))

    -- Where the ids of the caches differ and `update_ladder_cache` returns, the ranking has exactly
    -- one cache of the region, number and type of the ladder, with the text, status and time of the
    -- answer, and the row of the ladder is good and has that time.
    pub update_ladder_cache-IsAnswered :
        (db : Db)
        → IsKeyed (λ (c : Cache). c.id) db.caches
        → (update_ladder_cache update_with_ladder ranking ladder res db).0 ≡ ok tt
        → IsAnswered ranking ladder res
            (update_ladder_cache update_with_ladder ranking ladder res db).1
    unfolding update_ladder_cache
    update_ladder_cache-IsAnswered db keyed =
        bind_lift (IsAnswered ranking ladder res) tt
          (missing_to_none (get (is_ranked ranking ladder) db.caches)) _ db
          (λ found is_found. answer found (save_answer-IsStored db found keyed is_found))
      where
        rest :
            (lc : Cache) (mid : Db)
            → IsStored ranking ladder res mid
            → (save_refreshed update_with_ladder ranking ladder res lc mid).0 ≡ ok tt
            → IsAnswered ranking ladder res
                (save_refreshed update_with_ladder ranking ladder res lc mid).1
        rest lc mid (c, e, text, status, updated) h =
            let (same, saved) = save_refreshed-IsRefreshed mid lc h in
            ((c, rw same e, text, status, updated), saved)

        answer :
            (found : Option Cache)
            → IsStored ranking ladder res (save_answer ranking ladder res found db).1
            → ((save_answer ranking ladder res found
                  >>= save_refreshed update_with_ladder ranking ladder res)
                db).0
              ≡ ok tt
            → IsAnswered ranking ladder res
                ((save_answer ranking ladder res found
                    >>= save_refreshed update_with_ladder ranking ladder res)
                  db).1
        answer none =
            rest (with_answer ranking res (new_cache db.next_cache ladder res))
              (save_answer ranking ladder res none db).1
        answer (some d) =
            rest (with_answer ranking res d) (save_answer ranking ladder res (some d) db).1
