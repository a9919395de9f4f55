-- ===== src/Archive/Whole.antt =====
-- `archive_rankings`: a ranking is archived wholly, or it is left alone.
use rankedftw.Archive.Steps.{archive_all-Whole, Whole, pk}
use rankedftw.Archive.Chunks.{by_pk, IsPositive, by_pk-Ascending}
use rankedftw.Archive.Rows.{All, All-by_pk, Ascending-IsKeyed, IsKeyed-filter, IsPositive-filter}
use rankedftw.Archive.{is_archivable, archive_rankings, Json}
use rankedftw.Prelude.{
  leb, ◌*◌, ◌-◌, ℕ, some, List, [], ◌∷◌, Bool, true, false, ◌≡◌, refl, inl, inr, arith, ◌==◌,
  Bool-cases, ==_iff,
}
use rankedftw.Prelude.Clock.{Time, day}
use Prim.Native.String.{String}
use rankedftw.Archive.Files.{World}
use rankedftw.Prelude.Objects.{filter}
use rankedftw.Prelude.Result.{Result}
use rankedftw.Store.{Ranking}
use rankedftw.Store.Keys.{Apart, IsKeyed, find}

find-cons :
    (r : Ranking) (rs qs : List Ranking)
    → Apart pk r.id qs
    → All (λ (q : Ranking). find pk q.id rs ≡ some q) qs
    → All (λ (q : Ranking). find pk q.id (r ∷ rs) ≡ some q) qs
find-cons r rs [] apart all = tt
find-cons r rs (q ∷ qs) apart all =
    let other : (r.id == q.id) ≡ false = ground (arith, apart.0) in
    (rw other all.0, find-cons r rs qs apart.1 all.1)

-- Each row of a table is the one that its id finds.
find-rows : (rs : List Ranking) → IsKeyed pk rs → All (λ (q : Ranking). find pk q.id rs ≡ some q) rs
find-rows [] keyed = tt
find-rows (r ∷ rs) keyed =
    (rw ((==_iff r.id r.id).1 refl) refl, find-cons r rs rs keyed.0 (find-rows rs keyed.1))

All-taken :
    (p : Ranking → Bool) (P : Ranking → Type 0) (rs : List Ranking)
    → All P rs
    → All (λ (r : Ranking). P r × (p r ≡ true)) (filter p rs)
All-taken p P [] all = tt
All-taken p P (r ∷ rs) all = elim (Bool-cases (p r)) [
  | inl e ↦ rw e ((all.0, e), All-taken p P rs all.1)
  | inr e ↦ rw e (All-taken p P rs all.1)
]

module _ (json : Json) (dir : String) (remove : Bool) (check_stop : ℕ → Result (Unit {0})) where
  -- Where the ids of the rankings are over 0 and each of one row: after `archive_rankings`, whether
  -- or not it raises, each ranking and its sources are as they were, or the ranking was one with
  -- data older than 100 days, and it has no sources and the status that says so.
  pub archive_rankings-Whole :
      (now : Time) (k : ℕ) (w : World json.Line)
      → IsKeyed pk w.db.rankings
      → IsPositive pk w.db.rankings
      → Whole
          (is_archivable json dir remove check_stop (now - 100 * day))
          k
          w.db
          (archive_rankings json dir remove check_stop now w).1.db
  unfolding archive_rankings
  archive_rankings-Whole now k w keyed positive = elim (Bool-cases (leb (100 * day) now)) [
    | inl e ↦
        let p = is_archivable json dir remove check_stop (now - 100 * day) in
        let P : Ranking → Type 0 = λ r. (find pk r.id w.db.rankings ≡ some r) × (p r ≡ true) in
        let up =
          by_pk-Ascending pk (filter p w.db.rankings) (IsKeyed-filter pk p w.db.rankings keyed)
            (IsPositive-filter pk p w.db.rankings positive) in
        rw e (
          archive_all-Whole json dir remove check_stop p k (by_pk pk (filter p w.db.rankings)) w
            (Ascending-IsKeyed pk 0 (by_pk pk (filter p w.db.rankings)) up)
            (All-by_pk P pk (filter p w.db.rankings) (
              All-taken p (λ r. find pk r.id w.db.rankings ≡ some r) w.db.rankings
                (find-rows w.db.rankings keyed))))
    | inr e ↦ rw e (inl (refl, refl))
  ]
