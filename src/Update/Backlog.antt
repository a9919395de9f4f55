-- ===== src/Update/Backlog.antt =====
-- The queue that `FetchManager` fills and `FetcherThread` empties, main/update.py: the test and the
-- write of `add` are two steps, and turns of the fetcher come at any time.
use rankedftw.Prelude.{
  length-append, ◌≤◌, arith, none, some, [], ◌∷◌, ◌≡◌, ◌++◌, List, Option, length, ltb, false,
}
use rankedftw.Update.Queues.{Queue, visit}

module _ {ℓ} {A : Type ℓ} where
  -- The queue, and the batch that has passed the test of `add` and is not yet in the queue.
  pub data Step : Queue A × Option (List A) → Queue A × Option (List A) → Type ℓ where
    test :
        (batch : List A) (q : Queue A) → ltb 1 (length q) ≡ false → Step (q, none) (q, some batch)
    write : (batch : List A) (q : Queue A) → Step (q, some batch) (q ++ batch ∷ [], none)
    turn : (q : Queue A) (waiting : Option (List A)) → Step (q, waiting) ((visit q).1, waiting)

  -- What is reached from the empty queue of a new thread.
  pub data Reach : Queue A × Option (List A) → Type ℓ where
    start : Reach ([], none)
    then : {s t : Queue A × Option (List A)} → Reach s → Step s t → Reach t

module _ {ℓ} {A : Type ℓ} where
  -- At most two batches, and at most one while another waits.
  abbrev Bound : Queue A × Option (List A) → Type 0
  Bound (q, none) = length q ≤ 2
  Bound (q, some batch) = length q ≤ 1

  length-visit : (q : Queue A) → length (visit q).1 ≤ length q
  length-visit [] = omega arith
  length-visit ([] ∷ q) = omega arith
  length-visit ((x ∷ batch) ∷ q) = omega arith

  Step-Bound : {s t : Queue A × Option (List A)} → Step s t → Bound s → Bound t
  Step-Bound (test batch q h) b = ground arith
  Step-Bound (write batch q) b = omega (arith, length-append q (batch ∷ []))
  Step-Bound (turn q none) b = omega (arith, length-visit q)
  Step-Bound (turn q (some batch)) b = omega (arith, length-visit q)

  Reach-Bound : {s : Queue A × Option (List A)} → Reach s → Bound s
  Reach-Bound start = omega arith
  Reach-Bound (then r step) = Step-Bound step (Reach-Bound r)

  -- Where the test of `add`, its write and the turns of the fetcher follow each other in any order
  -- that the two threads allow, the queue never holds more than two batches.
  pub Reach-le : (q : Queue A) (waiting : Option (List A)) → Reach (q, waiting) → length q ≤ 2
  Reach-le q none r = Reach-Bound r
  Reach-le q (some batch) r = omega (arith, Reach-Bound r)
