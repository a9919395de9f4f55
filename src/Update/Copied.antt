-- ===== src/Update/Copied.antt =====
-- What the copy of a ranking's caches, main/update.py, leaves in the table.
use rankedftw.Fetch.Rows.{is_ladder}
use rankedftw.Prelude.Objects.{filter-append, filter, get}
use rankedftw.Prelude.Clock.{Time}
use rankedftw.Prelude.Result.{ok}
use Prim.Native.String.{String}
use rankedftw.Prelude.Int.{ℤ}
use rankedftw.Enums.Mode.{team_size}
use mathlib.Core.List.{append-nil, append_assoc}
use rankedftw.Prelude.{
  false, ==_iff, ◌==◌, refl, ap, sym, ap, ◌∙◌, arith, map, [], Option, ◌<◌, ◌+◌, ◌++◌, some, ◌≡◌,
  ◌∷◌, List, ℕ,
}
use rankedftw.Store.Rows.{save_row_miss, save_cache, save_row}
use rankedftw.Store.{Ranking, CacheType, Db, Cache}
use rankedftw.Update.Copy.{
  create_ranking, Copying, copied, copy_cache, copy_caches, copy_ranking, in_sources, following,
}
use rankedftw.Store.Action.{rollback_ok, continue_ok, bind_lift}

-- What a cache says of its ladder.
abbrev pub content : Cache → ℤ × ℕ × CacheType × String × Option String × ℕ × Time
content c = (c.region, c.bid, c.type, c.url, c.text, c.status, c.updated)

abbrev pub Below : ℕ → List Cache → Type 0
Below n [] = Unit
Below n (c ∷ caches) = (c.id < n) × Below n caches

Below-append :
    (n : ℕ) (caches : List Cache) (c : Cache)
    → c.id ≡ n
    → Below n caches
    → Below (n + 1) (caches ++ c ∷ [])
Below-append n [] c e h = (omega arith, tt)
Below-append n (x ∷ caches) c e h = (omega arith, Below-append n caches c e h.1)

-- A save of the row that was added last.
save_row-last :
    (n : ℕ) (caches : List Cache) (c d : Cache)
    → c.id ≡ n
    → d.id ≡ n
    → Below n caches
    → save_row (λ (x : Cache). x.id) d (caches ++ c ∷ []) ≡ caches ++ d ∷ []
unfolding save_row
save_row-last n [] c d e f h = ground arith
save_row-last n (x ∷ caches) c d e f h =
    save_row_miss (λ (y : Cache). y.id) d x (caches ++ c ∷ []) (λ same. omega arith)
    ∙ ap (λ ys. x ∷ ys) (save_row-last n caches c d e f h.1)

abbrev AllOf : ℕ → List Cache → Type 0
AllOf ranking [] = Unit
AllOf ranking (c ∷ caches) = (c.ranking_id ≡ some ranking) × AllOf ranking caches

-- Rows of the new ranking have been added, with the content of the given ones.
abbrev IsCopied : ℕ → List Cache → List Cache → List Cache → Type 0
IsCopied new caches base after =
    (added : List Cache) × (after ≡ base ++ added)
    × (map content added ≡ map content caches)
    × AllOf new added

module _ (run : Copying) (old new : ℕ) where
  -- The table after one copy.
  abbrev Added : Cache → Db → Db → Type 0
  Added lc db after =
      (row : Cache) × (after.caches ≡ db.caches ++ row ∷ [])
      × (after.next_cache ≡ db.next_cache + 1)
      × (row.id ≡ db.next_cache)
      × (content row ≡ content lc)
      × (row.ranking_id ≡ some new)

  copy_cache-Added :
      (lc : Cache) (db : Db)
      → Below db.next_cache db.caches
      → (copy_cache run old new lc db).0 ≡ ok tt
      → Added lc db (copy_cache run old new lc db).1
  unfolding copy_cache
  copy_cache-Added lc db below =
      let row = copied run.created db.next_cache old lc in
      let mid = record db { caches = db.caches ++ row ∷ []; next_cache = db.next_cache + 1 } in
      let linked = record row { ranking_id = some new } in
      let saved = save_cache linked mid in
      continue_ok (Added lc db) tt _ (get (is_ladder lc.region lc.bid) db.ladders, saved)
        (λ ladder e. bind_lift (Added lc db) tt (team_size ladder.mode) _ saved (λ size e.
          bind_lift (Added lc db) tt (run.members row size) _ saved (λ members e h. (
            linked,
            save_row-last db.next_cache db.caches row linked refl refl below,
            refl,
            refl,
            refl,
            refl,
          ))))

  Added-Below :
      (lc : Cache) (db after : Db)
      → Below db.next_cache db.caches
      → Added lc db after
      → Below after.next_cache after.caches
  Added-Below lc db after below (row, e, next, id, same, linked) =
      rw (e, next) (Below-append db.next_cache db.caches row id below)

  Added-IsCopied :
      (lc : Cache) (caches : List Cache) (db mid : Db) (after : List Cache)
      → Added lc db mid
      → IsCopied new caches mid.caches after
      → IsCopied new (lc ∷ caches) db.caches after
  Added-IsCopied lc caches db mid after (row, e, next, id, same, linked) (added, f, g, all) = (
    row ∷ added,
    f ∙ ap (λ ys. ys ++ added) e ∙ append_assoc db.caches (row ∷ []) added,
    rw (same, g) refl,
    (linked, all),
  )

  copy_caches-IsCopied :
      (caches : List Cache) (db : Db)
      → Below db.next_cache db.caches
      → (copy_caches run old new caches db).0 ≡ ok tt
      → IsCopied new caches db.caches (copy_caches run old new caches db).1.caches
  unfolding copy_caches
  copy_caches-IsCopied [] db below = λ h. ([], sym (append-nil db.caches), refl, tt)
  copy_caches-IsCopied (lc ∷ caches) db below =
      continue_ok (λ after. IsCopied new (lc ∷ caches) db.caches after.caches) tt _
        (copy_cache run old new lc db)
        (λ done is_done h.
          let mid = (copy_cache run old new lc db).1 in
          let added = copy_cache-Added lc db below is_done in
          Added-IsCopied lc caches db mid _ added
            (copy_caches-IsCopied caches mid (Added-Below lc db mid below added) h))

filter-AllOf :
    (ranking : ℕ) (caches : List Cache)
    → AllOf ranking caches
    → filter (in_sources ranking) caches ≡ caches
filter-AllOf ranking [] h = refl
filter-AllOf ranking (c ∷ caches) h =
    rw (h.0, filter-AllOf ranking caches h.1, (==_iff ranking ranking).1 refl) refl

filter-AllOf_other :
    (old new : ℕ) (caches : List Cache)
    → (new == old) ≡ false
    → AllOf new caches
    → filter (in_sources old) caches ≡ []
filter-AllOf_other old new [] ne h = refl
filter-AllOf_other old new (c ∷ caches) ne h =
    rw (h.0, ne) (filter-AllOf_other old new caches ne h.1)

-- The sources of two rankings, where rows of the new one have been added to a table that had none.
IsCopied-sources :
    (old new : ℕ) (caches base after : List Cache)
    → (new == old) ≡ false
    → filter (in_sources new) base ≡ []
    → IsCopied new caches base after
    → (map content (filter (in_sources new) after) ≡ map content caches)
      × (filter (in_sources old) after ≡ filter (in_sources old) base)
IsCopied-sources old new caches base after ne none_yet (added, f, g, all) = (
  rw (f, filter-append (in_sources new) base added, none_yet, filter-AllOf new added all) g,
  rw (f, filter-append (in_sources old) base added, filter-AllOf_other old new added ne all)
      (append-nil (filter (in_sources old) base)),
)

-- Where the ids of the caches are below the next one, the ranking has an id below the next one, and
-- no cache belongs to that next id, a copy of a ranking that returns leaves the new ranking with
-- caches of the same content in the same order, and the old one with its caches as they were.
pub copy_ranking-sources :
    (run : Copying) (ranking : Ranking) (season : ℕ) (now : Time) (new : Ranking) (db : Db)
    → Below db.next_cache db.caches
    → filter (in_sources db.next_ranking) db.caches ≡ []
    → ranking.id < db.next_ranking
    → (copy_ranking run ranking season now db).0 ≡ ok new
    → (map content
          (filter (in_sources db.next_ranking) (copy_ranking run ranking season now db).1.caches)
        ≡ map content (filter (in_sources ranking.id) db.caches))
      × (filter (in_sources ranking.id) (copy_ranking run ranking season now db).1.caches
          ≡ filter (in_sources ranking.id) db.caches)
unfolding copy_ranking
copy_ranking-sources run ranking season now new db below none_yet lt =
    let Q = λ (after : Db).
      (map content (filter (in_sources db.next_ranking) after.caches)
        ≡ map content (filter (in_sources ranking.id) db.caches))
      × (filter (in_sources ranking.id) after.caches ≡ filter (in_sources ranking.id) db.caches) in
    let created = create_ranking (following ranking season now) db in
    let sources = filter (in_sources ranking.id) db.caches in
    rollback_ok Q new db _ (
      continue_ok Q new _ (copy_caches run ranking.id db.next_ranking sources created.1)
        (λ done is_done h.
          IsCopied-sources ranking.id db.next_ranking sources db.caches _ (ground arith) none_yet
            (copy_caches-IsCopied run ranking.id db.next_ranking sources created.1 below is_done)))
