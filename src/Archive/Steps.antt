-- ===== src/Archive/Steps.antt =====
-- One ranking after the other: what `archive_all` does to each.
use rankedftw.Archive.Rows.{All}
use rankedftw.Archive.Files.{continue-eq-ok, on_db, World}
use rankedftw.Store.Action.{modify}
use rankedftw.Store.Rows.{save_ranking}
use Prim.Native.String.{String}
use rankedftw.Archive.{
  header_of, Json, archive_ranking, archive_all, write_ranking, write_rows, write_caches, line_of,
  rows_of, sources_of,
}
use rankedftw.Archive.Roundtrip.{archived}
use rankedftw.Deletion.{drop_sources, is_other_source}
use rankedftw.Prelude.{
  ℕ, suc, Option, none, some, List, [], ◌∷◌, ◌++◌, Bool, true, false, ◌≡◌, ◌≢◌, ◌⊎◌, refl, sym, ap,
  ◌∙◌, inl, inr, arith, ◌==◌, Bool-cases, ==_iff,
}
use rankedftw.Prelude.Objects.{filter}
use rankedftw.Prelude.Result.{Result, ok, err, Error, Result-cases}
use rankedftw.Retention.{is_key}
use rankedftw.Store.{Cache, Ranking, Db, complete_without_data}
use rankedftw.Store.Keys.{Apart, IsKeyed, find, find-saved, find-save_row_ne}

abbrev pub pk : Ranking → ℕ
pk r = r.id

sources-drop :
    (i : ℕ) (cs : List Cache)
    → filter (λ (c : Cache). is_key i c.ranking_id) (filter (is_other_source i) cs) ≡ []
sources-drop i [] = refl
sources-drop i (c ∷ cs) = elim (Bool-cases (is_key i c.ranking_id)) [
  | inl e ↦ rw e (sources-drop i cs)
  | inr e ↦ rw (e, e) (sources-drop i cs)
]

is_key-ne : (i k : ℕ) (o : Option ℕ) → i ≢ k → is_key i o ≡ true → is_key k o ≡ false
is_key-ne i k none h e = refl
is_key-ne i k (some j) h e = ground (arith, h)

sources-drop_ne :
    (i k : ℕ) (cs : List Cache)
    → i ≢ k
    → filter (λ (c : Cache). is_key k c.ranking_id) (filter (is_other_source i) cs)
      ≡ filter (λ (c : Cache). is_key k c.ranking_id) cs
sources-drop_ne i k [] h = refl
sources-drop_ne i k (c ∷ cs) h = elim (Bool-cases (is_key i c.ranking_id)) [
  | inl e ↦ rw (e, is_key-ne i k c.ranking_id h e) (sources-drop_ne i k cs h)
  | inr e ↦ rw (e, sources-drop_ne i k cs h) refl
]

-- The ranking of an id and its sources are as they were.
abbrev pub Kept : ℕ → Db → Db → Type 0
Kept k old new =
    (find pk k new.rankings ≡ find pk k old.rankings) × (sources_of k new ≡ sources_of k old)

-- Or the ranking, one that a test takes, has lost its sources and has the status that says so.
abbrev pub Archived : (Ranking → Bool) → ℕ → Db → Db → Type 0
Archived p k old new =
    (r : Ranking) × (find pk k old.rankings ≡ some r)
    × (p r ≡ true)
    × (find pk k new.rankings ≡ some (record r { status = complete_without_data }))
    × (sources_of k new ≡ [])

abbrev pub Whole : (Ranking → Bool) → ℕ → Db → Db → Type 0
Whole p k old new = Kept k old new ⊎ Archived p k old new

module _ (json : Json) (dir : String) (remove : Bool) (check_stop : ℕ → Result (Unit {0})) where
  write_rows-keeps :
      (cs : List Cache) (w : World json.Line)
      → (write_rows json dir remove check_stop cs w).1.db ≡ w.db
  unfolding write_rows
  write_rows-keeps [] w = refl
  write_rows-keeps (c ∷ cs) w = elim (Result-cases (check_stop w.calls)) [
    | inl (done, e) ↦ elim (Result-cases (line_of json c)) [
      | inl (l, f) ↦
          rw (e, f)
            (write_rows-keeps cs (record w { calls = suc w.calls; lines = w.lines ++ (l ∷ []) }))
      | inr (x, f) ↦ rw (e, f) refl
    ]
    | inr (x, e) ↦ rw e refl
  ]

  write_caches-keeps :
      (caches : Db → List Cache) (w : World json.Line)
      → (write_caches json dir remove check_stop caches w).1.db ≡ w.db
  write_caches-keeps caches w = elim (Result-cases (rows_of (caches w.db))) [
    | inl (cs, e) ↦ rw e (write_rows-keeps cs w)
    | inr (x, e) ↦ rw e refl
  ]

  -- The file of a ranking is written, and then its sources are deleted.
  write_ranking-drops :
      (r : Ranking) (w : World json.Line)
      → (write_ranking json dir remove check_stop r w).0 ≡ ok tt
      → (write_ranking json dir remove check_stop r w).1.db ≡ drop_sources r.id w.db
  write_ranking-drops r w h = elim (Result-cases (check_stop w.calls)) [
    | inl (done, e) ↦ elim (Result-cases (json.dumps_header (header_of json r))) [
      | inl (l, f) ↦
          let later : World json.Line = record w {
            calls = suc w.calls;
            lines = w.lines ++ (l ∷ []);
          } in
          let parts =
            continue-eq-ok (λ done. on_db (modify (drop_sources r.id)))
              (write_caches json dir remove check_stop (sources_of r.id) later) (rw (e, f) at h) in
          rw (e, f, parts.2) (ap (drop_sources r.id) (write_caches-keeps (sources_of r.id) later))
      | inr (x, f) ↦ absurd (cc (rw (e, f) at h))
    ]
    | inr (x, e) ↦ absurd (cc (rw e at h))
  ]

  abbrev save : Ranking → Db → Db
  save r db = save_ranking (record r { status = complete_without_data }) db

  abbrev Ended : Ranking → World json.Line → Result (Unit {0}) × World json.Line → Type 0
  Ended r w s =
      ((s.0 ≡ ok tt) × (s.1.db ≡ archived json dir remove check_stop r w.db))
      ⊎ (((e : Error) × (s.0 ≡ err e)) × (s.1.db ≡ w.db))

  archive_ranking-Ended :
      (r : Ranking) (w : World json.Line)
      → Ended r w (archive_ranking json dir remove check_stop r w)
  unfolding archive_ranking
  archive_ranking-Ended r w =
      elim (Result-cases (write_ranking json dir remove check_stop r (record w { lines = [] })).0) [
        | inl (done, e) ↦
            rw e (inl (refl, ap (save r) (write_ranking-drops r (record w { lines = [] }) e)))
        | inr (x, e) ↦ rw e (inr ((x, refl), refl))
      ]

  archived-Kept :
      (k : ℕ) (r : Ranking) (db : Db)
      → r.id ≢ k
      → Kept k db (archived json dir remove check_stop r db)
  archived-Kept k r db h = (
    find-save_row_ne pk k (record r { status = complete_without_data }) db.rankings h,
    sources-drop_ne r.id k db.caches h,
  )

  -- Rankings as the database has them, of which the test holds.
  abbrev pub AllRead : (Ranking → Bool) → Db → List Ranking → Type 0
  AllRead p db rs = All (λ (r : Ranking). (find pk r.id db.rankings ≡ some r) × (p r ≡ true)) rs

  AllRead-archived :
      (p : Ranking → Bool) (r : Ranking) (db : Db) (rs : List Ranking)
      → Apart pk r.id rs
      → AllRead p db rs
      → AllRead p (archived json dir remove check_stop r db) rs
  AllRead-archived p r db [] apart read = tt
  AllRead-archived p r db (q ∷ rs) apart read = (
    (
      find-save_row_ne pk q.id (record r { status = complete_without_data }) db.rankings
            (λ e. apart.0 (sym e))
          ∙ read.0.0,
      read.0.1,
    ),
    AllRead-archived p r db rs apart.1 read.1,
  )

  Whole-trans :
      (p : Ranking → Bool) (k : ℕ) (old now new : Db)
      → Kept k old now
      → Whole p k now new
      → Whole p k old new
  Whole-trans p k old now new kept (inl same) = inl (same.0 ∙ kept.0, same.1 ∙ kept.1)
  Whole-trans p k old now new kept (inr moved) =
      inr (moved.0, sym kept.0 ∙ moved.1, moved.2, moved.3, moved.4)

  archive_all-Kept :
      (k : ℕ) (rs : List Ranking) (w : World json.Line)
      → Apart pk k rs
      → Kept k w.db (archive_all json dir remove check_stop rs w).1.db
  unfolding archive_all
  archive_all-Kept k [] w apart = (refl, refl)
  archive_all-Kept k (r ∷ rs) w apart = elim (archive_ranking-Ended r w) [
    | inl (done, same) ↦
        let now = (archive_ranking json dir remove check_stop r w).1 in
        let rest = archive_all-Kept k rs now apart.1 in
        let kept : Kept k w.db now.db = rw same (archived-Kept k r w.db apart.0) in
        rw done (rest.0 ∙ kept.0, rest.1 ∙ kept.1)
    | inr ((x, raised), same) ↦ rw (raised, same) (refl, refl)
  ]

  pub archive_all-Whole :
      (p : Ranking → Bool) (k : ℕ) (rs : List Ranking) (w : World json.Line)
      → IsKeyed pk rs
      → AllRead p w.db rs
      → Whole p k w.db (archive_all json dir remove check_stop rs w).1.db
  unfolding archive_all
  archive_all-Whole p k [] w keyed read = inl (refl, refl)
  archive_all-Whole p k (r ∷ rs) w keyed read = elim (archive_ranking-Ended r w) [
    | inl (done, same) ↦
        let now = (archive_ranking json dir remove check_stop r w).1 in
        elim (Bool-cases (r.id == k)) [
          | inl e ↦
              let hit : r.id ≡ k = (==_iff r.id k).0 e in
              let rest = archive_all-Kept k rs now (rw (← hit) keyed.0) in
              let saved : find pk k now.db.rankings
                  ≡ some (record r { status = complete_without_data }) =
                rw same (
                  find-saved pk k (record r { status = complete_without_data }) w.db.rankings
                    hit) in
              let gone : sources_of k now.db ≡ [] =
                rw (same, ← hit) (sources-drop r.id w.db.caches) in
              rw done (inr (r, rw (← hit) read.0.0, read.0.1, rest.0 ∙ saved, rest.1 ∙ gone))
          | inr e ↦
              let miss : r.id ≢ k = λ hit. cc ((==_iff r.id k).1 hit, e) in
              let kept : Kept k w.db now.db = rw same (archived-Kept k r w.db miss) in
              let read_now : AllRead p now.db rs =
                rw same (AllRead-archived p r w.db rs keyed.0 read.1) in
              rw done (
                Whole-trans p k w.db now.db (archive_all json dir remove check_stop rs now).1.db
                  kept (archive_all-Whole p k rs now keyed.1 read_now))
        ]
    | inr ((x, raised), same) ↦ rw (raised, same) (inl (refl, refl))
  ]
