-- ===== src/Update/Queues.antt =====
-- main/update.py: `interleave`, and the queues of `FetcherThread`. A deque is the list of its items
-- from its right end, where both the batches and the ladders of a batch are taken.
use rankedftw.Prelude.{
  zero, some, true, ◌+◌, ◌++◌, suc, none, ltb, length, false, [], ◌∷◌, if◌then◌else◌, Option, Bool,
  ℕ, List,
}
use mathlib.Core.Option

abbrev pub Batch {ℓ} : Type ℓ → Type ℓ
Batch A = List A

abbrev pub Queue {ℓ} : Type ℓ → Type ℓ
Queue A = List (List A)

module _ {ℓ} {A : Type ℓ} where
  -- What one turn of the inner loop yields and leaves of its queue: `q[-1]` of no batch passes, and an
  -- empty batch is popped.
  abbrev pub visit : Queue A → List A × Queue A
  visit [] = ([], [])
  visit ([] ∷ q) = ([], q)
  visit ((x ∷ batch) ∷ q) = (x ∷ [], batch ∷ q)

  -- `for q in queues`.
  unfoldable pub visit_all : List (Queue A) → List A × List (Queue A)
  visit_all [] = ([], [])
  visit_all (q ∷ queues) = ((visit q).0 ++ (visit_all queues).0, (visit q).1 ∷ (visit_all queues).1)

  -- `any(queues)`.
  abbrev pub has_batch : List (Queue A) → Bool
  has_batch [] = false
  has_batch ([] ∷ queues) = has_batch queues
  has_batch ((batch ∷ q) ∷ queues) = true

  -- The loop, with the rounds that it may make; none when they are used up.
  unfoldable pub rounds : ℕ → List (Queue A) → Option (List A)
  unfolding visit_all
  rounds zero queues = none
  rounds (suc left) queues =
      let rest = rounds left (visit_all queues).1 in
      if has_batch queues then Option.map (λ ys. (visit_all queues).0 ++ ys) rest else some []

  -- The ladders and the batches that are left.
  abbrev pub size : Queue A → ℕ
  size [] = 0
  size (batch ∷ q) = length batch + 1 + size q

  abbrev pub total_size : List (Queue A) → ℕ
  total_size [] = 0
  total_size (q ∷ queues) = size q + total_size queues

  -- What the generator yields when it is run to its end, and no batch is added meanwhile. Every round
  -- takes a ladder or a batch.
  unfoldable pub interleave : List (Queue A) → Option (List A)
  unfolding rounds
  interleave queues = rounds (suc (total_size queues)) queues

  -- `add`: with more than one batch in the queue the new one is not added.
  unfoldable pub add : List A → Queue A → Queue A
  add batch q = if ltb 1 (length q) then q else q ++ batch ∷ []
