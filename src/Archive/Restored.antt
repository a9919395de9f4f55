-- ===== src/Archive/Restored.antt =====
-- The rows that `load_ranking_archive` creates from the lines of an archive file.
use rankedftw.Archive.Load.{has_cache, has_ladder_row, load_rows}
use mathlib.Core.List.{append_assoc, append-nil}
use rankedftw.Archive.{Json, line_of, row_with, text_of, value_of, cache_from, read_cache_obj}
use rankedftw.Archive.Rows.{All, Fresh, Fresh-append}
use rankedftw.Archive.Written.{IsCodec, Written}
use rankedftw.Prelude.{
  ℕ, Option, none, some, List, [], ◌∷◌, ◌++◌, true, false, ◌≡◌, refl, sym, ap, ◌∙◌, inl, inr, arith,
  ◌==◌,
}
use rankedftw.Prelude.Result.{ok, Result-cases}
use rankedftw.Store.{Cache, Db}
use rankedftw.Store.Keys.{Apart, IsKeyed}

module _ (json : Json) where
  -- The row as it was, with the ranking given, no retries counted, and data that reads as before.
  abbrev pub Restored : Option ℕ → Cache → Cache → Type 0
  Restored i c d =
      (d ≡ record c { text = d.text; retry_count = 0; ranking_id = i })
      × (value_of json d.text ≡ value_of json c.text)

  abbrev pub AllRestored : Option ℕ → List Cache → List Cache → Type 0
  AllRestored i [] [] = Unit
  AllRestored i [] (d ∷ ds) = ⊥
  AllRestored i (c ∷ cs) [] = ⊥
  AllRestored i (c ∷ cs) (d ∷ ds) = Restored i c d × AllRestored i cs ds

has_cache-Apart :
    (k : ℕ) (cs : List Cache) → Apart (λ (c : Cache). c.id) k cs → has_cache k cs ≡ false
has_cache-Apart k [] h = refl
has_cache-Apart k (c ∷ cs) h =
    let other : (c.id == k) ≡ false = ground (arith, h.0) in
    rw (other, has_cache-Apart k cs h.1) refl

module _ (json : Json) (codec : IsCodec json) where
  value_of-text_of : (v : Option json.Value) → value_of json (text_of json v) ≡ ok v
  value_of-text_of none = refl
  value_of-text_of (some v) = codec.value_read v

  -- A line is read back.
  read_cache_obj-Restored :
      (i : Option ℕ) (c : Cache) (l : json.Line)
      → line_of json c ≡ ok l
      → (d : Cache) × (read_cache_obj json l i ≡ ok d) × Restored json i c d
  read_cache_obj-Restored i c l h = elim (Result-cases (value_of json c.text)) [
    | inl (v, e) ↦
        let dumped : json.dumps_row (row_with json c v) ≡ ok l = rw e at h in
        (
          cache_from json i (row_with json c v),
          rw (codec.row_read (row_with json c v) dumped) refl,
          (
            rw (codec.time_read c.created, codec.time_read c.updated) refl,
            value_of-text_of v ∙ sym e,
          ),
        )
    | inr (x, e) ↦ absurd (cc (rw e at h))
  ]

  pub load_rows-AllRestored :
      (i : Option ℕ) (cs : List Cache) (ls : List json.Line) (db : Db)
      → Written json cs ls
      → IsKeyed (λ (c : Cache). c.id) cs
      → Fresh (λ (c : Cache). c.id) db.caches cs
      → All (λ (c : Cache). has_ladder_row db.ladders c.ladder_id ≡ true) cs
      → (ds : List Cache) × AllRestored json i cs ds
        × (load_rows json ls i db ≡ (ok tt, record db { caches = db.caches ++ ds }))
  unfolding load_rows
  load_rows-AllRestored i [] [] db written keyed fresh linked =
      ([], tt, rw (append-nil db.caches) refl)
  load_rows-AllRestored i [] (l ∷ ls) db written keyed fresh linked = absurd written
  load_rows-AllRestored i (c ∷ cs) [] db written keyed fresh linked = absurd written
  load_rows-AllRestored i (c ∷ cs) (l ∷ ls) db written keyed fresh linked =
      let read = read_cache_obj-Restored i c l written.0 in
      let d = read.0 in
      let same_id : d.id ≡ c.id = ap (λ (x : Cache). x.id) read.2.0 in
      let same_ladder : d.ladder_id ≡ c.ladder_id = ap (λ (x : Cache). x.ladder_id) read.2.0 in
      let now : Db = record db { caches = db.caches ++ (d ∷ []) } in
      let free : has_cache d.id db.caches ≡ false =
        ap (λ k. has_cache k db.caches) same_id ∙ has_cache-Apart c.id db.caches fresh.0 in
      let there : has_ladder_row db.ladders d.ladder_id ≡ true =
        ap (has_ladder_row db.ladders) same_ladder ∙ linked.0 in
      let rest =
        load_rows-AllRestored i cs ls now written.1 keyed.1
          (Fresh-append (λ (x : Cache). x.id) db.caches d cs fresh.1 (rw same_id keyed.0))
          linked.1 in
      (
        d ∷ rest.0,
        (read.2, rest.1),
        rw (read.1, free, there, rest.2, append_assoc db.caches (d ∷ []) rest.0) refl,
      )
