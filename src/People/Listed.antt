-- ===== src/People/Listed.antt =====
-- The count, the items and the links of a page of the search.
use rankedftw.Prelude.{
  take-take, not, ltb→lt, ==_iff, ℕ, zero, suc, ◌+◌, ◌-◌, ◌*◌, ◌<◌, ◌≤◌, ◌==◌, ltb, Bool, true,
  false, none, some, List, [], ◌∷◌, length, take, drop, if◌then◌else◌, ◌≡◌, ◌⊎◌, inl, inr, refl, ap,
  ◌∙◌, arith, Bool-cases, length-take, length-drop,
}
use Prim.Native.Nat.{min}
use rankedftw.People.{StoredPlayer}
use rankedftw.People.Search.{range_steps, pages_of, last?, next_of, count_items, show_page}

count_items-length : (o n : ℕ) → count_items o (min 33 (n - o)) n ≡ n
count_items-length o n = ground arith

-- For any offset and rows of a query, the count that the search shows is the number of the rows,
-- also where it comes from the rows that are read, and the items are the 32 rows from the offset
-- on.
show_page-count :
    (offset : ℕ) (q : List StoredPlayer)
    → ((show_page offset q).count_shown ≡ length q)
      × ((show_page offset q).items ≡ take 32 (drop offset q))
unfolding show_page
show_page-count offset q = (
  rw (length-take 33 (drop offset q), length-drop offset q) (count_items-length offset (length q)),
  take-take 32 33 (drop offset q) (omega arith),
)

last?-cons : (x y : ℕ) (ys : List ℕ) → last? ys ≡ some y → last? (x ∷ ys) ≡ some y
last?-cons x y [] h = cc
last?-cons x y (z ∷ zs) h = h

range_steps-done : (fuel start stop : ℕ) → stop ≤ start → range_steps fuel start stop 32 ≡ []
range_steps-done zero start stop h = refl
range_steps-done (suc fuel) start stop h =
    let out : ltb start stop ≡ false = ground arith in rw out refl

-- The last of the first `suc n` steps: the step of that number, or the last under the end.
last-range_steps :
    (n fuel start stop : ℕ)
    → start < stop
    → stop < start + fuel
    → (j : ℕ) × (last? (take (suc n) (range_steps fuel start stop 32)) ≡ some (start + 32 * j))
      × (j ≤ n)
      × (start + 32 * j < stop)
      × ((j ≡ n) ⊎ (stop ≤ start + 32 * j + 32))
last-range_steps n zero start stop h enough = absurd (omega arith)
last-range_steps zero (suc fuel) start stop h enough =
    let up : ltb start stop ≡ true = ground arith in
    (0, rw up (ap some (omega arith)), omega arith, omega arith, inl refl)
last-range_steps (suc n) (suc fuel) start stop h enough =
    let up : ltb start stop ≡ true = ground arith in
    elim (Bool-cases (ltb (start + 32) stop)) [
      | inl more ↦
          let (j, e, below, under, end) =
            last-range_steps n fuel (start + 32) stop (ground (arith, more)) (omega arith) in
          (
            suc j,
            rw up (
                last?-cons start (start + 32 * suc j)
                  (take (suc n) (range_steps fuel (start + 32) stop 32))
                  (e ∙ ap some (omega arith))),
            omega arith,
            omega arith,
            elim end [ inl a ↦ inl (ap suc a) | inr b ↦ inr (omega arith) ],
          )
      | inr done ↦ (
        0,
        rw (up, range_steps-done fuel (start + 32) stop (ground (arith, done)))
            (ap some (omega arith)),
        omega arith,
        omega arith,
        inr (ground (arith, done)),
      )
    ]

next-eq :
    (o total m : ℕ)
    → last? (pages_of o total) ≡ some m
    → next_of o (pages_of o total) ≡ (if o == m then none else some (o + 32))
next-eq o total m e = rw e refl

-- A page that others follow is not the last of those listed, and one that none follows is.
page-end :
    (k n j : ℕ)
    → k * 32 < n
    → j ≤ 11
    → k * 32 - 192 + 32 * j < n
    → (j ≡ 11) ⊎ (n ≤ k * 32 - 192 + 32 * j + 32)
    → (k * 32 == (k * 32 - 192 + 32 * j)) ≡ not (ltb (k * 32 + 32) n)
page-end k n j h below under end = elim (Bool-cases (ltb (k * 32 + 32) n)) [
  | inl more ↦
      let less : k * 32 + 32 < n = ltb→lt (k * 32 + 32) n more in
      elim (Bool-cases (k * 32 == (k * 32 - 192 + 32 * j))) [
        | inl same ↦
            let e : k * 32 ≡ k * 32 - 192 + 32 * j =
              (==_iff (k * 32) (k * 32 - 192 + 32 * j)).0 same in
            absurd (elim end [ inl a ↦ omega arith | inr b ↦ omega arith ])
        | inr other ↦ rw (more, other) refl
      ]
  | inr done ↦
      let reached : n ≤ k * 32 + 32 = ground (arith, done) in
      let e : k * 32 ≡ k * 32 - 192 + 32 * j = elim end [
        | inl a ↦ omega arith
        | inr b ↦ omega arith
      ] in
      rw (done, (==_iff (k * 32) (k * 32 - 192 + 32 * j)).1 e) refl
]

if-not {ℓ} : {A : Type ℓ} (b : Bool) (x y : A) → (if not b then x else y) ≡ (if b then y else x)
if-not true x y = refl
if-not false x y = refl

-- On a page that starts at a multiple of 32 below the number of rows, the search links to the next
-- page exactly when there are rows after this page.
pub show_page-next :
    (k : ℕ) (q : List StoredPlayer)
    → k * 32 < length q
    → (show_page (k * 32) q).next
      ≡ (if ltb (k * 32 + 32) (length q) then some (k * 32 + 32) else none)
unfolding show_page
show_page-next k q h =
    let o = k * 32 in
    let n = length q in
    let (j, e, below, under, end) =
      last-range_steps 11 (suc n) (k * 32 - 192) n (omega arith) (omega arith) in
    let m = k * 32 - 192 + 32 * j in
    let total : (show_page o q).count_shown ≡ n = (show_page-count o q).0 in
    rw total (
      next-eq o n m e
      ∙ (rw (page-end k n j h below under end) (if-not (ltb (o + 32) n) none (some (o + 32)))))
