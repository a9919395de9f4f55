-- ===== src/Update/Interleave.antt =====
-- `interleave` of main/update.py against the ladders that its queues hold, and the length of a queue
-- under the two threads that use it.
use rankedftw.Prelude.Perms.{append_middle-perm}
use rankedftw.Update.Queues.{
  visit, total_size, size, has_batch, visit_all, rounds, interleave, Queue,
}
use rankedftw.Prelude.{
  zero, inl, inr, Bool-cases, suc, refl, arith, ◌≤◌, ◌<◌, true, some, false, [], ◌≡◌, ◌∷◌, ◌++◌, ℕ,
  List,
}
use mathlib.Core.List.{Perm}
use mathlib.Core.List.Perm

module _ {ℓ} {A : Type ℓ} where
  -- The ladders of a queue and of all queues.
  abbrev pub items : Queue A → List A
  items [] = []
  items (batch ∷ q) = batch ++ items q

  abbrev pub all_items : List (Queue A) → List A
  all_items [] = []
  all_items (q ∷ queues) = items q ++ all_items queues

  items-visit : (q : Queue A) → (visit q).0 ++ items (visit q).1 ≡ items q
  items-visit [] = refl
  items-visit ([] ∷ q) = refl
  items-visit ((x ∷ batch) ∷ q) = refl

  size-visit : (q : Queue A) → size (visit q).1 ≤ size q
  size-visit [] = omega arith
  size-visit ([] ∷ q) = omega arith
  size-visit ((x ∷ batch) ∷ q) = omega arith

  visit_all-le : (queues : List (Queue A)) → total_size (visit_all queues).1 ≤ total_size queues
  unfolding visit_all
  visit_all-le [] = omega arith
  visit_all-le (q ∷ queues) = omega (arith, size-visit q, visit_all-le queues)

  visit_all-lt :
      (queues : List (Queue A))
      → has_batch queues ≡ true
      → total_size (visit_all queues).1 < total_size queues
  unfolding visit_all
  visit_all-lt [] h = cc
  visit_all-lt ([] ∷ queues) h = omega (arith, visit_all-lt queues h)
  visit_all-lt (([] ∷ q) ∷ queues) h = omega (arith, visit_all-le queues)
  visit_all-lt (((x ∷ batch) ∷ q) ∷ queues) h = omega (arith, visit_all-le queues)

  visit_all-perm :
      (queues : List (Queue A))
      → Perm ((visit_all queues).0 ++ all_items (visit_all queues).1) (all_items queues)
  unfolding visit_all
  visit_all-perm [] = Perm.refl []
  visit_all-perm (q ∷ queues) =
      Perm.trans
        (append_middle-perm (visit q).0 (visit_all queues).0 (items (visit q).1)
          (all_items (visit_all queues).1))
        (rw (items-visit q) (Perm.append_left (items q) (visit_all-perm queues)))

  no_items : (queues : List (Queue A)) → has_batch queues ≡ false → all_items queues ≡ []
  no_items [] h = refl
  no_items ([] ∷ queues) h = no_items queues h
  no_items ((batch ∷ q) ∷ queues) h = cc

  rounds-perm :
      (left : ℕ) (queues : List (Queue A))
      → total_size queues < left
      → (ys : List A) × (rounds left queues ≡ some ys) × Perm ys (all_items queues)
  unfolding rounds
  rounds-perm zero queues h = absurd (omega arith)
  rounds-perm (suc left) queues h = elim (Bool-cases (has_batch queues)) [
    | inr over ↦ ([], rw over refl, rw (no_items queues over) (Perm.refl []))
    | inl more ↦
        let (ys, e, p) =
          rounds-perm left (visit_all queues).1 (omega (arith, visit_all-lt queues more)) in
        (
          (visit_all queues).0 ++ ys,
          rw (more, e) refl,
          Perm.trans (Perm.append_left (visit_all queues).0 p) (visit_all-perm queues),
        )
  ]

  -- On any queues `interleave` ends within the rounds it is given, and what it yields is a
  -- permutation of the ladders that the queues hold.
  pub interleave-perm :
      (queues : List (Queue A))
      → (ys : List A) × (interleave queues ≡ some ys) × Perm ys (all_items queues)
  unfolding interleave
  interleave-perm queues = rounds-perm (suc (total_size queues)) queues (omega arith)
