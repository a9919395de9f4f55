-- ===== src/Refetch/Good.antt =====
-- What `refetch_missing` of main/refetch.py does to ladders that are good.
use rankedftw.Fetch.Rows.{is_cache}
use rankedftw.Prelude.Objects.{get}
use rankedftw.Store.Rows.{save_row}
use rankedftw.Prelude.Clock.{hour, Time}
use rankedftw.Prelude.Int.{ℤ}
use rankedftw.Prelude.Result.{
  does_not_exist, or_raise-eq-ok, overflow_error, raise_if, err, ok, Result,
}
use rankedftw.Prelude.{
  ◌+◌, ◌*◌, ltb, ap, sym, none, [], ==_iff, ◌∙◌, inr, arith, inl, ◌==◌, Bool-cases, ◌∷◌, some,
  Option, ◌≡◌, List, ℕ,
}
use rankedftw.Fetch.Answers.{with_columns, LadderAnswer}
use rankedftw.Store.{ladder_type, Db, good, Ladder}
use rankedftw.Refetch.Missing.{
  MissingRun, ladder_key, refetched_ladder, refetch_one, refetch_all, refetch_missing,
  ladder_behind,
}
use rankedftw.Store.Action.{continue_keeps, rollback_keeps}
use rankedftw.Store.Keys.{find, find-saved, find-save_row_ne}

-- The row of an id is there, and good.
abbrev pub GoodAt : ℕ → List Ladder → Type 0
GoodAt i ladders = (l : Ladder) × (find ladder_key i ladders ≡ some l) × (l.strangeness ≡ good)

find-key :
    (i : ℕ) (ladders : List Ladder) {l : Ladder} → find ladder_key i ladders ≡ some l → l.id ≡ i
find-key i [] {l = l} h = cc
find-key i (x ∷ ladders) {l = l} h = elim (Bool-cases (x.id == i)) [
  | inl e ↦ let same : some x ≡ some l = rw e at h in ground (arith, same, e)
  | inr e ↦ find-key i ladders (rw e at h)
]

columns-good :
    (l m : Ladder) (p : Result (Option ℤ)) (f j : Result (Option Time)) (c : Result ℕ)
    → with_columns l p f j c ≡ ok m
    → (m.id ≡ l.id) × (m.strangeness ≡ good)
columns-good l m (err x) f j c e = cc
columns-good l m (ok p) (err x) j c e = cc
columns-good l m (ok p) (ok f) (err x) c e = cc
columns-good l m (ok p) (ok f) (ok j) (err x) e = cc
columns-good l m (ok p) (ok f) (ok j) (ok c) e = ground arith

refetched-good :
    (res : LadderAnswer) (l m : Ladder)
    → refetched_ladder res l ≡ ok m
    → (m.id ≡ l.id) × (l.strangeness ≡ good → m.strangeness ≡ good)
unfolding refetched_ladder
refetched-good res l m e = elim (Bool-cases (res.status == 200)) [
  | inl here ↦
      let seen = record l { updated = res.fetch_time } in
      let (i, g) =
        columns-good seen m res.max_points res.first_join res.last_join res.member_count
          (rw here at e) in
      (i, λ h. g)
  | inr other ↦
      let same : ok (record l { updated = res.fetch_time }) ≡ ok m = rw other at e in
      ground (arith, same)
]

-- A save of what a row becomes.
save-GoodAt :
    (i id : ℕ) (ladders : List Ladder) (l m : Ladder)
    → find ladder_key id ladders ≡ some l
    → m.id ≡ l.id
    → (l.strangeness ≡ good → m.strangeness ≡ good)
    → GoodAt i ladders
    → GoodAt i (save_row ladder_key m ladders)
save-GoodAt i id ladders l m found same g (x, at_i, x_good) = elim (Bool-cases (m.id == i)) [
  | inl e ↦
      let hits : m.id ≡ i = (==_iff m.id i).0 e in
      let id_at : id ≡ i = sym (find-key id ladders found) ∙ sym same ∙ hits in
      let one : some x ≡ some l =
        sym at_i ∙ ap (λ k. find ladder_key k ladders) (sym id_at) ∙ found in
      let alike : x ≡ l = cc in
      (
        m,
        find-saved ladder_key i m ladders hits,
        g (ap (λ (k : Ladder). k.strangeness) (sym alike) ∙ x_good),
      )
  | inr e ↦ (x, find-save_row_ne ladder_key i m ladders (ground (arith, e)) ∙ at_i, x_good)
]

module _ (region : ℤ) (i : ℕ) where
  abbrev Kept : Db → Type 0
  Kept db = GoodAt i db.ladders

  ladder_behind-find :
      (ladders : List Ladder) (id : Option ℕ) {l : Ladder}
      → ladder_behind ladders id ≡ ok l
      → (k : ℕ) × (find ladder_key k ladders ≡ some l)
  ladder_behind-find ladders none h = cc
  ladder_behind-find ladders (some k) h =
      (k, or_raise-eq-ok (find ladder_key k ladders) does_not_exist h)

  refetch_one-Kept :
      (bid : ℕ) (res : LadderAnswer) (db : Db) → Kept db → Kept (refetch_one region bid res db).1
  unfolding refetch_one
  refetch_one-Kept bid res db q = rollback_keeps Kept db _ q (
      continue_keeps Kept _ (get (is_cache region ladder_type bid) db.caches, db) q
        (λ cache e.
          continue_keeps Kept _ (ladder_behind db.ladders cache.ladder_id, db) q
            (λ ladder found.
              continue_keeps Kept _ (refetched_ladder res ladder, db) q
                (λ seen is_seen.
                  let (k, at_k) = ladder_behind-find db.ladders cache.ladder_id found in
                  let (same, g) = refetched-good res ladder seen is_seen in
                  save-GoodAt i k db.ladders ladder seen at_k same g q))))

  refetch_all-Kept :
      (run : MissingRun) (count : ℕ) (bids : List ℕ) (db : Db)
      → Kept db
      → Kept (refetch_all run region count bids db).1
  unfolding refetch_all
  refetch_all-Kept run count [] db q = q
  refetch_all-Kept run count (bid ∷ bids) db q =
      let res = run.fetch_ladder count bid in
      let here = refetch_one-Kept bid res db q in
      let later = refetch_all-Kept run (count + 1) bids (refetch_one region bid res db).1 here in
      continue_keeps Kept _ (run.check_stop count, db) q
        (λ done e. elim (Bool-cases (res.status == 503)) [
          | inl down ↦ rw down q
          | inr up ↦
              rw up (continue_keeps Kept _ (refetch_one region bid res db) here (λ done e. later))
        ])

-- A ladder that is good before `refetch_missing` is there and good after it, whether or not it
-- raises.
refetch_missing-GoodAt :
    (run : MissingRun) (region : ℤ) (max_retries min_age : ℕ) (now : Time) (db : Db) (i : ℕ)
    → GoodAt i db.ladders
    → GoodAt i (refetch_missing run region max_retries min_age now db).1.ladders
unfolding refetch_missing
refetch_missing-GoodAt run region max_retries min_age now db i q =
    continue_keeps (Kept region i) _ (raise_if (ltb now (min_age * hour)) overflow_error, db) q
      (λ done e. refetch_all-Kept region i run 1 _ db q)
