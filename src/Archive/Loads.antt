-- ===== src/Archive/Loads.antt =====
-- Loading the lines of any archive file into any database.
use rankedftw.Archive.Load.{has_cache, has_ladder_row, load_rows, load_unused_cache_archive}
use rankedftw.Archive.{Json, read_cache_obj}
use rankedftw.Archive.Rows.{Apart-append}
use rankedftw.Prelude.{
  ℕ, Option, none, some, List, [], ◌∷◌, ◌++◌, false, not, ◌≡◌, sym, inl, inr, arith, ◌==◌, ◌||◌,
  Bool-cases,
}
use rankedftw.Prelude.Result.{Result-cases}
use rankedftw.Store.{Cache, Db}
use rankedftw.Store.Keys.{Apart, IsKeyed, find}

abbrev pub pk : Cache → ℕ
pk c = c.id

Apart-has_cache : (k : ℕ) (cs : List Cache) → has_cache k cs ≡ false → Apart pk k cs
Apart-has_cache k [] h = tt
Apart-has_cache k (c ∷ cs) h = elim (Bool-cases (c.id == k)) [
  | inl e ↦ absurd (cc (rw e at h))
  | inr e ↦ (ground (arith, e), Apart-has_cache k cs (rw e at h))
]

find-append :
    (k : ℕ) (cs ds : List Cache) {c : Cache} → find pk k cs ≡ some c → find pk k (cs ++ ds) ≡ some c
find-append k [] ds h = cc
find-append k (c ∷ cs) ds h = elim (Bool-cases (c.id == k)) [
  | inl e ↦ rw e (rw e at h)
  | inr e ↦ rw e (find-append k cs ds (rw e at h))
]

IsKeyed-append :
    (cs : List Cache) (d : Cache) → IsKeyed pk cs → Apart pk d.id cs → IsKeyed pk (cs ++ (d ∷ []))
IsKeyed-append [] d keyed apart = (tt, tt)
IsKeyed-append (c ∷ cs) d keyed apart =
    (Apart-append pk c.id cs d keyed.0 (λ e. apart.0 (sym e)), IsKeyed-append cs d keyed.1 apart.1)

-- The rows that were there are as they were, and every id is that of one row.
abbrev pub Extends : Db → Db → Type 0
Extends old new =
    IsKeyed pk new.caches
    × ((k : ℕ) (c : Cache) → find pk k old.caches ≡ some c → find pk k new.caches ≡ some c)

module _ (json : Json) where
  load_rows-Extends :
      (rows : List json.Line) (i : Option ℕ) (db : Db)
      → IsKeyed pk db.caches
      → Extends db (load_rows json rows i db).1
  unfolding load_rows
  load_rows-Extends [] i db keyed = (keyed, λ k c h. h)
  load_rows-Extends (row ∷ rows) i db keyed = elim (Result-cases (read_cache_obj json row i)) [
    | inl (d, e) ↦
        elim (Bool-cases
          (has_cache d.id db.caches || not (has_ladder_row db.ladders d.ladder_id))) [
            | inl taken ↦ rw (e, taken) (keyed, λ k c h. h)
            | inr free ↦
                let apart = Apart-has_cache d.id db.caches (ground (arith, free)) in
                let now : Db = record db { caches = db.caches ++ (d ∷ []) } in
                let rest = load_rows-Extends rows i now (IsKeyed-append db.caches d keyed apart) in
                rw (e, free) (rest.0, λ k c h. rest.1 k c (find-append k db.caches (d ∷ []) h))
          ]
    | inr (x, e) ↦ rw e (keyed, λ k c h. h)
  ]

  -- Loading any lines with `load_unused_cache_archive`, whether or not it raises, leaves a row that
  -- was there as it was, and every id the id of one row.
  load_unused_cache_archive-find :
      (rows : List json.Line) (db : Db) (k : ℕ) (c : Cache)
      → IsKeyed pk db.caches
      → find pk k db.caches ≡ some c
      → IsKeyed pk (load_unused_cache_archive json rows db).1.caches
        × (find pk k (load_unused_cache_archive json rows db).1.caches ≡ some c)
  load_unused_cache_archive-find rows db k c keyed found =
      let loaded = load_rows-Extends rows none db keyed in (loaded.0, loaded.1 k c found)
