-- ===== src/Update/Fairness.antt =====
-- How soon `interleave` of main/update.py comes to the ladders of a batch.
use rankedftw.Update.Interleave.{interleave-perm}
use mathlib.Core.List.{mem-cons_self, mem-append_right, append_assoc, mem-append_left, Mem}
use rankedftw.Prelude.{
  ap, ◌∙◌, Option-cases, inl, inr, Bool-cases, none, some, false, refl, sym, ◌≡◌, length, ◌∷◌, zero,
  ◌++◌, suc, [], List, ℕ,
}
use rankedftw.Update.Queues.{total_size, interleave, rounds, has_batch, visit, Queue, visit_all}

module _ {ℓ} {A : Type ℓ} where
  -- What a number of rounds yields.
  unfoldable pub yielded : ℕ → List (Queue A) → List A
  unfolding visit_all
  yielded zero queues = []
  yielded (suc n) queues = (visit_all queues).0 ++ yielded n (visit_all queues).1

  visit_all-at :
      (before : List (Queue A)) (q : Queue A) (after : List (Queue A))
      → ((visit_all (before ++ q ∷ after)).0
          ≡ (visit_all before).0 ++ ((visit q).0 ++ (visit_all after).0))
        × ((visit_all (before ++ q ∷ after)).1
            ≡ (visit_all before).1 ++ ((visit q).1 ∷ (visit_all after).1))
  unfolding visit_all
  visit_all-at [] q after = (refl, refl)
  visit_all-at (p ∷ before) q after =
      let (first, second) = visit_all-at before q after in
      (
        rw first (
            sym
              (append_assoc (visit p).0 (visit_all before).0 ((visit q).0 ++ (visit_all after).0))),
        rw second refl,
      )

  no_batch-visit_all :
      (queues : List (Queue A))
      → has_batch queues ≡ false
      → ((visit_all queues).0 ≡ []) × (has_batch (visit_all queues).1 ≡ false)
  unfolding visit_all
  no_batch-visit_all [] h = (refl, refl)
  no_batch-visit_all ([] ∷ queues) h = no_batch-visit_all queues h
  no_batch-visit_all ((batch ∷ q) ∷ queues) h = cc

  in_rounds-mem :
      (sooner : List A) (x : A) (later : List A) (q : Queue A) (before after : List (Queue A))
      → Mem x (yielded (suc (length sooner)) (before ++ ((sooner ++ x ∷ later) ∷ q) ∷ after))
  unfolding yielded
  in_rounds-mem [] x later q before after =
      mem-append_left (yielded 0 (visit_all (before ++ ((x ∷ later) ∷ q) ∷ after)).1) (
        rw (visit_all-at before ((x ∷ later) ∷ q) after).0
          (mem-append_right (visit_all before).0 mem-cons_self))
  in_rounds-mem (y ∷ sooner) x later q before after =
      mem-append_right (visit_all (before ++ ((y ∷ (sooner ++ x ∷ later)) ∷ q) ∷ after)).0 (
        rw (visit_all-at before ((y ∷ (sooner ++ x ∷ later)) ∷ q) after).1
          (in_rounds-mem sooner x later q (visit_all before).1 (visit_all after).1))

  no_batch-yielded :
      (n : ℕ) (queues : List (Queue A)) → has_batch queues ≡ false → yielded n queues ≡ []
  unfolding yielded
  no_batch-yielded zero queues h = refl
  no_batch-yielded (suc n) queues h =
      let (none_now, same) = no_batch-visit_all queues h in
      rw (none_now, no_batch-yielded n (visit_all queues).1 same) refl

  rounds-yielded :
      (n left : ℕ) (queues : List (Queue A)) (ys : List A)
      → rounds left queues ≡ some ys
      → (zs : List A) × (ys ≡ yielded n queues ++ zs)
  unfolding rounds yielded
  rounds-yielded zero left queues ys h = (ys, refl)
  rounds-yielded (suc n) zero queues ys h = cc
  rounds-yielded (suc n) (suc left) queues ys h = elim (Bool-cases (has_batch queues)) [
    | inr over ↦
        let ended : some [] ≡ some ys = rw over at h in
        let empty : [] ≡ ys = cc in ([], rw (sym empty, no_batch-yielded (suc n) queues over) refl)
    | inl more ↦ elim (Option-cases (rounds left (visit_all queues).1)) [
      | inl e ↦ let never : none ≡ some ys = rw (more, e) at h in cc
      | inr (ws, e) ↦
          let (zs, later) = rounds-yielded n left (visit_all queues).1 ws e in
          let whole : some ((visit_all queues).0 ++ ws) ≡ some ys = rw (more, e) at h in
          let joined : (visit_all queues).0 ++ ws ≡ ys = cc in
          (
            zs,
            sym joined
                ∙ ap (λ vs. (visit_all queues).0 ++ vs) later
                ∙ sym (append_assoc (visit_all queues).0 (yielded n (visit_all queues).1) zs),
          )
    ]
  ]

  -- A ladder that stands in the batch at the end of a queue, whatever the other queues hold, is
  -- among what `interleave` yields first, in as many rounds as its place in the batch counted from
  -- 1.
  pub yielded-mem :
      (sooner : List A) (x : A) (later : List A) (q : Queue A) (before after : List (Queue A))
      → let n = suc (length sooner) in
        let queues = before ++ ((sooner ++ x ∷ later) ∷ q) ∷ after in
        (ys : List A) × (interleave queues ≡ some ys)
        × ((zs : List A) × (ys ≡ yielded n queues ++ zs))
        × Mem x (yielded n queues)
  unfolding interleave
  yielded-mem sooner x later q before after =
      let queues = before ++ ((sooner ++ x ∷ later) ∷ q) ∷ after in
      let (ys, e, p) = interleave-perm queues in
      (
        ys,
        e,
        rounds-yielded (suc (length sooner)) (suc (total_size queues)) queues ys e,
        in_rounds-mem sooner x later q before after,
      )
