-- ===== src/Archive/Written.antt =====
-- What an archive file holds once `write_caches` has returned.
use rankedftw.Store.Action.{modify}
use Prim.Native.String.{String}
use mathlib.Core.List.{append_assoc, append-nil}
use rankedftw.Archive.{
  Json, Header, CacheRow, line_of, write_rows, write_caches, write_ranking, rows_of, sources_of,
  header_of,
}
use rankedftw.Archive.Files.{on_db, continue-eq-ok, World}
use rankedftw.Deletion.{drop_sources}
use rankedftw.Prelude.{ap, some, Bool, ℕ, suc, List, [], ◌∷◌, ◌++◌, ◌≡◌, refl, sym, ◌∙◌, inl, inr}
use rankedftw.Prelude.Clock.{Time}
use rankedftw.Prelude.Result.{Result, ok, Result-cases}
use rankedftw.Store.{Cache, Ranking, Db}

-- What the code relies on: a text that `dumps` makes is read back by `loads` as what it was made of.
pub record IsCodec (json : Json) : Type 0 where
  pub row_read :
      (r : CacheRow json.Value json.Stamp) {s : json.Line}
      → json.dumps_row r ≡ ok s
      → json.loads_row s ≡ ok r
  pub header_read :
      (h : Header json.Stamp) {s : json.Line}
      → json.dumps_header h ≡ ok s
      → json.loads_header s ≡ ok h
  pub value_read : (v : json.Value) → json.loads (json.dumps v) ≡ ok (some v)
  pub time_read : (t : Time) → json.parse_time (json.isoformat t) ≡ t

module _ (json : Json) where
  -- The lines of rows.
  abbrev pub Written : List Cache → List json.Line → Type 0
  Written [] [] = Unit
  Written [] (l ∷ ls) = ⊥
  Written (c ∷ cs) [] = ⊥
  Written (c ∷ cs) (l ∷ ls) = (line_of json c ≡ ok l) × Written cs ls

module _ (json : Json) (dir : String) (remove : Bool) (check_stop : ℕ → Result (Unit {0})) where
  -- The database and the closed files are as before, and the lines of the rows have been added.
  abbrev pub Wrote : World json.Line → List Cache → Result (Unit {0}) × World json.Line → Type 0
  Wrote w cs r =
      (ls : List json.Line) × (r.1.db ≡ w.db)
      × (r.1.closed ≡ w.closed)
      × (r.1.lines ≡ w.lines ++ ls)
      × Written json cs ls

  write_rows-Wrote :
      (cs : List Cache) (w : World json.Line)
      → (write_rows json dir remove check_stop cs w).0 ≡ ok tt
      → Wrote w cs (write_rows json dir remove check_stop cs w)
  unfolding write_rows
  write_rows-Wrote [] w h = ([], refl, refl, sym (append-nil w.lines), tt)
  write_rows-Wrote (c ∷ cs) w h = elim (Result-cases (check_stop w.calls)) [
    | inl (done, e) ↦ elim (Result-cases (line_of json c)) [
      | inl (l, f) ↦
          let later : World json.Line = record w {
            calls = suc w.calls;
            lines = w.lines ++ (l ∷ []);
          } in
          let rest = write_rows-Wrote cs later (rw (e, f) at h) in
          rw (e, f)
            (l ∷ rest.0, rest.1, rest.2, rest.3 ∙ append_assoc w.lines (l ∷ []) rest.0, (f, rest.4))
      | inr (x, f) ↦ absurd (cc (rw (e, f) at h))
    ]
    | inr (x, e) ↦ absurd (cc (rw e at h))
  ]

  pub write_caches-Wrote :
      (caches : Db → List Cache) (cs : List Cache) (w : World json.Line)
      → rows_of (caches w.db) ≡ ok cs
      → (write_caches json dir remove check_stop caches w).0 ≡ ok tt
      → Wrote w cs (write_caches json dir remove check_stop caches w)
  write_caches-Wrote caches cs w e h = rw e (write_rows-Wrote cs w (rw e at h))

  -- The file of a ranking: the header, and the sources, which are deleted then.
  pub write_ranking-Wrote :
      (r : Ranking) (cs : List Cache) (w : World json.Line)
      → rows_of (sources_of r.id w.db) ≡ ok cs
      → w.lines ≡ []
      → (write_ranking json dir remove check_stop r w).0 ≡ ok tt
      → (l : json.Line) × (ls : List json.Line) × ((write_ranking json dir remove check_stop r
            w).1.db
          ≡ drop_sources r.id w.db)
        × ((write_ranking json dir remove check_stop r w).1.closed ≡ w.closed)
        × ((write_ranking json dir remove check_stop r w).1.lines ≡ l ∷ ls)
        × (json.dumps_header (header_of json r) ≡ ok l)
        × Written json cs ls
  write_ranking-Wrote r cs w e start h = elim (Result-cases (check_stop w.calls)) [
    | inl (done, f) ↦ elim (Result-cases (json.dumps_header (header_of json r))) [
      | inl (l, g) ↦
          let later : World json.Line = record w {
            calls = suc w.calls;
            lines = w.lines ++ (l ∷ []);
          } in
          let h2 = rw (f, g) at h in
          let parts =
            continue-eq-ok (λ done. on_db (modify (drop_sources r.id)))
              (write_caches json dir remove check_stop (sources_of r.id) later) h2 in
          let wrote = write_caches-Wrote (sources_of r.id) cs later e parts.1 in
          rw (f, g, parts.2)
            (
              l,
              wrote.0,
              ap (drop_sources r.id) wrote.1,
              wrote.2,
              wrote.3 ∙ ap (λ xs. (xs ++ (l ∷ [])) ++ wrote.0) start,
              refl,
              wrote.4,
            )
      | inr (x, g) ↦ absurd (cc (rw (f, g) at h))
    ]
    | inr (x, f) ↦ absurd (cc (rw f at h))
  ]
