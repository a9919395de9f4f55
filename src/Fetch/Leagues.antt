-- ===== src/Fetch/Leagues.antt =====
-- What the fetch of main/fetch.py does to the table of ladders, whether or not it raises.
use rankedftw.Store.Rows.{save_cache, save_ladder}
use rankedftw.Prelude.Clock.{Time}
use rankedftw.Prelude.Objects.{get}
use rankedftw.Prelude.{
  none, some, ◌∙◌, not, ◌||◌, false, List, arith, ◌==◌, refl, Option, Bool-cases, ◌+◌, ◌++◌, [],
  ◌∷◌, inl, ◌⊎◌, true, inr, ◌≡◌, ℕ,
}
use rankedftw.Fetch.{
  on_league, update_league_cache, save_league, fetch_new_in_league, ensure_tiers, ensure_ladders,
  repaired, on_found, is_odd, repair, get_ladder_cache, ensure_ladder, no_cache, fetch_new_ladder,
}
use rankedftw.Fetch.Rows.{
  league_cache, is_ladder, is_cache, ladder_cache, create_cache, blank_ladder, create_ladder,
  Target,
}
use rankedftw.Fetch.Ladders.{
  save_row-IsTable, has_ladder-missing, has_ladder-get, Keyed-get, has_ladder-append, SameKey,
  Keyed, IsTable-append, has_ladder, IsTable,
}
use rankedftw.Prelude.Int.{==ℤ_iff, ℤ}
use rankedftw.Fetch.Answers.{
  at_tier, tries, LeagueAnswer, with_columns, info, LadderAnswer, filled, Run,
}
use rankedftw.Store.{league_type, ladder_type, Ladder, Cache, Db}
use rankedftw.Prelude.Result.{
  system_exit, raise_if, exception_raised, Error, Result, ok, err, does_not_exist,
}
use rankedftw.Store.Action.{Action, ◌>>=◌, ◌>>◌, lift, pure, query, modify, rollback, continue}

abbrev pub IsLadderTable : Db → Type 0
IsLadderTable db = IsTable db.next_ladder db.ladders

-- From a table with unique keys to one with unique keys, which lacks no ladder of the first.
abbrev pub Extends : Db → Db → Type 0
Extends a b =
    IsLadderTable a
    → IsLadderTable b
      × ((region : ℤ) (bid : ℕ)
          → has_ladder region bid a.ladders ≡ true
          → has_ladder region bid b.ladders ≡ true)

pub Extends-refl : (a : Db) → Extends a a
Extends-refl a t = (t, λ region bid h. h)

Extends-trans : (a b c : Db) → Extends a b → Extends b c → Extends a c
Extends-trans a b c f g t =
    let first = f t in
    let second = g first.0 in (second.0, λ region bid h. second.1 region bid (first.1 region bid h))

module _ {ℓ} {A : Type ℓ} where
  abbrev Ext : Action A → Type 0
  Ext m = (db : Db) → Extends db (m db).1

  Ext-lift : (r : Result A) → Ext (lift r)
  Ext-lift r db = Extends-refl db

  Ext-rollback : (old : Db) (r : Result A × Db) → Extends old r.1 → Extends old (rollback old r).1
  Ext-rollback old (ok a, new) h = h
  Ext-rollback old (err e, new) h = Extends-refl old

  pub Ext-continue :
      (f : A → Action (Unit {0}))
      → ((a : A) (new : Db) → Extends new (f a new).1)
      → (db : Db) (r : Result A × Db) → Extends db r.1
      → Extends db (continue f r).1
  Ext-continue f g db (ok a, new) h = Extends-trans db new (f a new).1 h (g a new)
  Ext-continue f g db (err e, new) h = h

-- A new ladder is fetched: the table is as it was and the code raised, or the ladder is added.
abbrev IsAdded : ℤ → ℕ → Db → Result (Unit {0}) × Db → Type 0
IsAdded region bid db r =
    (((e : Error) × (r.0 ≡ err e)) × (r.1 ≡ db))
    ⊎ ((m : Ladder) × (m.id ≡ db.next_ladder)
        × (m.region ≡ region)
        × (m.bid ≡ bid)
        × (r.1.ladders ≡ db.ladders ++ m ∷ [])
        × (r.1.next_ladder ≡ db.next_ladder + 1))

columns_key :
    (l m : Ladder) (p : Result (Option ℤ)) (f j : Result (Option Time)) (c : Result ℕ)
    → with_columns l p f j c ≡ ok m
    → (m.region ≡ l.region) × (m.bid ≡ l.bid)
columns_key l m (err x) f j c e = cc
columns_key l m (ok p) (err x) j c e = cc
columns_key l m (ok p) (ok f) (err x) c e = cc
columns_key l m (ok p) (ok f) (ok j) (err x) e = cc
columns_key l m (ok p) (ok f) (ok j) (ok c) e = ground arith

filled_key :
    (res : LadderAnswer) (l m : Ladder)
    → filled res l ≡ ok m
    → (m.region ≡ l.region) × (m.bid ≡ l.bid)
unfolding filled
filled_key res l m e = elim (Bool-cases (res.status == 200)) [
  | inl here ↦
      columns_key l m res.max_points res.first_join res.last_join res.member_count (rw here at e)
  | inr other ↦ let same : ok l ≡ ok m = rw other at e in ground (arith, same)
]

module _ (run : Run) (target : Target) (tier bid : ℕ) where
  abbrev store : Ladder → Action (Unit {0})
  store ladder = do
    saved ← create_ladder ladder
    create_cache (ladder_cache target bid (run.fetch_ladder bid) saved)
    lift (info saved)

  store-IsAdded :
      (db : Db) (r : Result Ladder)
      → ((m : Ladder) → r ≡ ok m → (m.region ≡ target.region) × (m.bid ≡ bid))
      → IsAdded target.region bid db ((lift r >>= store) db)
  store-IsAdded db (ok m) k =
      inr (record m { id = db.next_ladder }, refl, (k m refl).0, (k m refl).1, refl, refl)
  store-IsAdded db (err e) k = inl ((e, refl), refl)

  abbrev answered : Result Ladder
  answered = filled (run.fetch_ladder bid) (blank_ladder target tier bid (run.fetch_ladder bid))

  filled-IsAdded :
      (db : Db) (found : Result Cache)
      → IsAdded target.region bid db ((no_cache found >> (lift answered >>= store)) db)
  filled-IsAdded db (ok c) = inl ((exception_raised, refl), refl)
  filled-IsAdded db (err does_not_exist) =
      store-IsAdded db answered
        (filled_key (run.fetch_ladder bid) (blank_ladder target tier bid (run.fetch_ladder bid)))
  filled-IsAdded db (err e) = inl ((e, refl), refl)

  stopped-IsAdded :
      (db : Db) (r : Result (Unit {0}))
      → IsAdded target.region bid db (
          (lift r
              >> (query (λ now. ok (get (is_cache target.region ladder_type bid) now.caches))
                  >>= λ found. no_cache found >> (lift answered >>= store)))
            db)
  stopped-IsAdded db (ok done) =
      filled-IsAdded db (get (is_cache target.region ladder_type bid) db.caches)
  stopped-IsAdded db (err e) = inl ((e, refl), refl)

  fetch_new_ladder-IsAdded :
      (db : Db) → IsAdded target.region bid db (fetch_new_ladder run target tier bid db)
  unfolding fetch_new_ladder
  fetch_new_ladder-IsAdded db =
      stopped-IsAdded db (raise_if ((run.fetch_ladder bid).status == 503) system_exit)

-- After the code for one bid: the table is extended, and if the code did not raise it has the bid.
abbrev pub Ensured : ℤ → ℕ → Db → Result (Unit {0}) × Db → Type 0
Ensured region bid db r =
    Extends db r.1 × (IsLadderTable db → r.0 ≡ ok tt → has_ladder region bid r.1.ladders ≡ true)

added-Ensured :
    (region : ℤ) (bid : ℕ) (db : Db) (r : Result (Unit {0}) × Db)
    → has_ladder region bid db.ladders ≡ false
    → IsAdded region bid db r
    → Ensured region bid db r
added-Ensured region bid db r lacks (inl ((e, raised), same)) =
    (rw same (Extends-refl db), λ t fine. cc (raised, fine))
added-Ensured region bid db r lacks (inr (m, new_id, new_region, new_bid, rows, next)) = (
  (λ t. (
    rw (rows, next)
        (IsTable-append db.next_ladder m db.ladders t new_id (rw (new_region, new_bid) lacks)),
    λ region' bid' h. rw (rows, has_ladder-append region' bid' m db.ladders, h) refl,
  )),
  λ t fine.
      rw (rows, has_ladder-append region bid m db.ladders, lacks)
        (ground (arith, ==ℤ_iff m.region region, new_region, new_bid)),
)

Keyed-SameKey : (l m : Ladder) (ls : List Ladder) → SameKey l m → Keyed l ls → Keyed m ls
Keyed-SameKey l m [] k h = absurd h
Keyed-SameKey l m (x ∷ ls) k (inl same) = inl (ground (arith, same, k))
Keyed-SameKey l m (x ∷ ls) k (inr later) = inr (Keyed-SameKey l m ls k later)

looked :
    (l : Ladder) (db : Db) (r : Result (Unit {0}))
    → ((lift r >> (query (λ now. get_ladder_cache now.caches l) >>= λ source. pure (tt {0}))) db).1
      ≡ db
looked l db (ok done) = found_source db (get_ladder_cache db.caches l)
  where
    found_source :
        (now : Db) (c : Result Cache) → ((lift c >>= λ source. pure (tt {0})) now).1 ≡ now
    found_source now (ok c) = refl
    found_source now (err e) = refl
looked l db (err e) = refl

repair-Extends :
    (target : Target) (tier : ℕ) (l : Ladder) (db : Db)
    → Keyed l db.ladders
    → Extends db (repair target tier l db).1
unfolding repair
repair-Extends target tier l db k =
    elim (Bool-cases (is_odd l.strangeness || not (l.tier == tier))) [
      | inl odd ↦
          rw
            (
              odd,
              looked l (save_ladder (repaired target tier l) db) (info (repaired target tier l)),
            )
            (λ t.
              let saved =
                save_row-IsTable db.next_ladder (repaired target tier l) db.ladders t
                  (Keyed-SameKey l (repaired target tier l) db.ladders (refl, refl, refl) k) in
              (saved.0, λ region bid h. saved.1 region bid ∙ h))
      | inr fine ↦ rw fine (Extends-refl db)
    ]

module _ (run : Run) (target : Target) where
  pub ensure_ladder-Ensured :
      (tier bid : ℕ) (db : Db) → Ensured target.region bid db (ensure_ladder run target tier bid db)
  unfolding ensure_ladder
  ensure_ladder-Ensured tier bid db =
      found_cases (get (is_ladder target.region bid) db.ladders) refl
    where
      found_cases :
          (found : Result Ladder)
          → get (is_ladder target.region bid) db.ladders ≡ found
          → Ensured target.region bid db
              (on_found found (repair target tier) (fetch_new_ladder run target tier bid) db)
      found_cases (ok l) e =
          let grown = repair-Extends target tier l db (Keyed-get target.region bid db.ladders e) in
          (
            grown,
            λ t fine. (grown t).1 target.region bid (has_ladder-get target.region bid db.ladders e),
          )
      found_cases (err does_not_exist) e =
          added-Ensured target.region bid db _ (has_ladder-missing target.region bid db.ladders e)
            (fetch_new_ladder-IsAdded run target tier bid db)
      found_cases (err x) e = (Extends-refl db, λ t fine. cc fine)

  -- The reads and the ladders of one league, on any list of bids and tiers.
  pub ensure_ladders-Extends :
      (tier : ℕ) (bids : List ℕ) (db : Db) → Extends db (ensure_ladders run target tier bids db).1
  unfolding ensure_ladders
  ensure_ladders-Extends tier [] db = Extends-refl db
  ensure_ladders-Extends tier (bid ∷ bids) db =
      Ext-continue (λ _. ensure_ladders run target tier bids)
        (λ _. ensure_ladders-Extends tier bids) db (ensure_ladder run target tier bid db)
        (ensure_ladder-Ensured tier bid db).0

  pub ensure_tiers-Extends :
      (res : LeagueAnswer) (tiers : List ℕ) (db : Db)
      → Extends db (ensure_tiers run target res tiers db).1
  unfolding ensure_tiers
  ensure_tiers-Extends res [] db = Extends-refl db
  ensure_tiers-Extends res (tier ∷ tiers) db =
      let rest = ensure_tiers run target res tiers in
      Ext-continue
        (λ _. lift (res.tier_bids tier) >>= λ bids. ensure_ladders run target tier bids >> rest)
        (λ _ now.
          Ext-continue (λ bids. ensure_ladders run target tier bids >> rest)
            (λ bids later.
              Ext-continue (λ _. rest) (λ _. ensure_tiers-Extends res tiers) later
                (ensure_ladders run target tier bids later)
                (ensure_ladders-Extends tier bids later))
            now (res.tier_bids tier, now) (Extends-refl now))
        db (run.check_stop (at_tier target.mode target.league tier), db) (Extends-refl db)

  pub update_cache-Extends :
      (res : LeagueAnswer) (db : Db) → Extends db (update_league_cache target res db).1
  unfolding update_league_cache
  update_cache-Extends res db =
      found_cases (get (is_cache target.region league_type res.bid) db.caches)
    where
      found_cases :
          (found : Result Cache)
          → Extends db
              (on_found found
                (λ c. modify (save_cache (record c { updated = res.fetch_time; text = res.text })))
                (create_cache (league_cache target res))
                db).1
      found_cases (ok c) = Extends-refl db
      found_cases (err does_not_exist) = Extends-refl db
      found_cases (err x) = Extends-refl db

  pub save_league-Extends :
      (res : LeagueAnswer) (db : Db) → Extends db (save_league run target res db).1
  unfolding save_league
  save_league-Extends res db = Ext-rollback db _ (
      Ext-continue (λ _. ensure_tiers run target res (0 ∷ 1 ∷ 2 ∷ []))
        (λ _. ensure_tiers-Extends res (0 ∷ 1 ∷ 2 ∷ [])) db (update_league_cache target res db)
        (update_cache-Extends res db))

  pub fetch_league-Extends : (db : Db) → Extends db (fetch_new_in_league run target db).1
  unfolding fetch_new_in_league
  fetch_league-Extends db = found_cases (tries run target.mode target.league 1 4)
    where
      found_cases :
          (r : Result (Option LeagueAnswer)) → Extends db ((lift r >>= on_league run target) db).1
      found_cases (ok none) = Extends-refl db
      found_cases (ok (some res)) = save_league-Extends res db
      found_cases (err e) = Extends-refl db
