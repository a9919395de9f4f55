-- ===== src/Update/Partition.antt =====
-- The three batches of a thread, main/update.py, against the good ladders of its region.
use rankedftw.Prelude.Sort.{sort_by-perm}
use rankedftw.Prelude.Int.{ℤ}
use rankedftw.Prelude.Objects.{filter}
use mathlib.Core.List.{perm_middle, Perm}
use rankedftw.Store.{Ladder}
use rankedftw.Prelude.{leb, [], ◌∷◌, if◌then◌else◌, ◌++◌, ℕ, not, false, ◌&&◌, true, List, Bool}
use rankedftw.Update.Batches.{
  is_good, is_gm, is_plat, is_1v1, gm_batch, plat_batch, rest_batch, in_gm, in_plat, in_rest,
}
use mathlib.Core.List.Perm

-- A test and three others, of which one holds where it does and none elsewhere.
data Splits : Bool → Bool → Bool → Bool → Type 0 where
  one : Splits true true false false
  two : Splits true false true false
  three : Splits true false false true
  none : Splits false false false false

module _ {ℓ} {A : Type ℓ} where
  Splits-perm :
      {b p q r : Bool} (x : A) (all ps qs rs : List A)
      → Splits b p q r
      → Perm (ps ++ (qs ++ rs)) all
      → Perm
          ((if p then x ∷ ps else ps) ++ ((if q then x ∷ qs else qs) ++ (if r then x ∷ rs else rs)))
          (if b then x ∷ all else all)
  Splits-perm x all ps qs rs one h = Perm.cons x h
  Splits-perm x all ps qs rs two h = Perm.trans (perm_middle ps (qs ++ rs)) (Perm.cons x h)
  Splits-perm x all ps qs rs three h =
      Perm.trans (Perm.append_left ps (perm_middle qs rs))
        (Perm.trans (perm_middle ps (qs ++ rs)) (Perm.cons x h))
  Splits-perm x all ps qs rs none h = h

  filter-perm :
      (b p q r : A → Bool)
      → ((x : A) → Splits (b x) (p x) (q x) (r x))
      → (xs : List A) → Perm (filter p xs ++ (filter q xs ++ filter r xs)) (filter b xs)
  filter-perm b p q r h [] = Perm.refl []
  filter-perm b p q r h (x ∷ xs) =
      Splits-perm x (filter b xs) (filter p xs) (filter q xs) (filter r xs) (h x)
        (filter-perm b p q r h xs)

tests_Splits :
    (good gm plat solo : Bool)
    → Splits good
        (good && gm)
        (good && plat && solo && not gm)
        (good && not (solo && plat) && not gm)
tests_Splits true true true true = one
tests_Splits true true true false = one
tests_Splits true true false true = one
tests_Splits true true false false = one
tests_Splits true false true true = two
tests_Splits true false true false = three
tests_Splits true false false true = three
tests_Splits true false false false = three
tests_Splits false gm plat solo = none

-- For any ladders, season and region, the three batches together are a permutation of the good
-- ladders of that season and region: each is in exactly one of them.
pub batches-perm :
    (ladders : List Ladder) (season : ℕ) (region : ℤ)
    → Perm
        (gm_batch ladders season region
          ++ (plat_batch ladders season region ++ rest_batch ladders season region))
        (filter (is_good region season) ladders)
unfolding gm_batch plat_batch rest_batch
batches-perm ladders season region =
    let le = λ (l m : Ladder). leb l.updated m.updated in
    Perm.trans
      (Perm.append (sort_by-perm le (filter (in_gm region season) ladders)) (
        Perm.append (sort_by-perm le (filter (in_plat region season) ladders))
          (sort_by-perm le (filter (in_rest region season) ladders))))
      (filter-perm (is_good region season) (in_gm region season) (in_plat region season)
        (in_rest region season)
        (λ l. tests_Splits (is_good region season l) (is_gm l) (is_plat l) (is_1v1 l)) ladders)
