-- ===== src/Fetch/Ladders.antt =====
-- The table of ladders under the saves of main/fetch.py: its ids, and its pairs of region and bid.
use rankedftw.Fetch.Rows.{is_ladder}
use rankedftw.Prelude.Objects.{only-eq-ok, only, get, filter}
use rankedftw.Prelude.Int.{==ℤ_iff, ℤ}
use rankedftw.Store.Rows.{save_row}
use rankedftw.Prelude.{
  ◌==◌, sym, ◌||◌, ◌+◌, refl, inr, arith, ==_iff, ◌⊎◌, ◌<◌, true, inl, false, [], Bool-cases, ◌≢◌,
  ◌≡◌, ◌∷◌, ◌++◌, Bool, ℕ, List,
}
use rankedftw.Store.{Ladder}
use rankedftw.Prelude.Result.{ok, err, does_not_exist}

-- Whether the table has a ladder of the region and the bid.
abbrev pub has_ladder : ℤ → ℕ → List Ladder → Bool
has_ladder region bid [] = false
has_ladder region bid (l ∷ ls) = is_ladder region bid l || has_ladder region bid ls

-- No ladder of the list has the id, or the region and bid, of `l`.
abbrev Apart : Ladder → List Ladder → Type 0
Apart l [] = Unit
Apart l (m ∷ ls) = (m.id ≢ l.id) × (is_ladder l.region l.bid m ≡ false) × Apart l ls

-- Ids are unique and below the next one, and so are the pairs of region and bid unique.
abbrev pub IsTable : ℕ → List Ladder → Type 0
IsTable n [] = Unit
IsTable n (l ∷ ls) = (l.id < n) × Apart l ls × IsTable n ls

abbrev pub SameKey : Ladder → Ladder → Type 0
SameKey l m = (m.id ≡ l.id) × (m.region ≡ l.region) × (m.bid ≡ l.bid)

-- The same keys in the same places.
abbrev Same : List Ladder → List Ladder → Type 0
Same [] [] = Unit
Same [] (_ ∷ _) = ⊥
Same (_ ∷ _) [] = ⊥
Same (l ∷ ls) (m ∷ ms) = SameKey l m × Same ls ms

Apart-Same : (l m : Ladder) (a b : List Ladder) → SameKey l m → Same a b → Apart l a → Apart m b
Apart-Same l m [] [] k s h = tt
Apart-Same l m [] (y ∷ b) k s h = absurd s
Apart-Same l m (x ∷ a) [] k s h = absurd s
Apart-Same l m (x ∷ a) (y ∷ b) k s h =
    (rw (k.0, s.0.0) h.0, rw (k.1, k.2, s.0.1, s.0.2) h.1, Apart-Same l m a b k s.1 h.2)

IsTable-Same : (n : ℕ) (a b : List Ladder) → Same a b → IsTable n a → IsTable n b
IsTable-Same n [] [] s h = tt
IsTable-Same n [] (y ∷ b) s h = absurd s
IsTable-Same n (x ∷ a) [] s h = absurd s
IsTable-Same n (x ∷ a) (y ∷ b) s h =
    (rw s.0.0 h.0, Apart-Same x y a b s.0 s.1 h.1, IsTable-Same n a b s.1 h.2)

has_ladder-Same :
    (region : ℤ) (bid : ℕ) (a b : List Ladder)
    → Same a b
    → has_ladder region bid b ≡ has_ladder region bid a
has_ladder-Same region bid [] [] s = refl
has_ladder-Same region bid [] (y ∷ b) s = absurd s
has_ladder-Same region bid (x ∷ a) [] s = absurd s
has_ladder-Same region bid (x ∷ a) (y ∷ b) s = rw (s.0.1, s.0.2, has_ladder-Same region bid a b s.1)

Same-refl : (a : List Ladder) → Same a a
Same-refl [] = tt
Same-refl (x ∷ a) = ((refl, refl, refl), Same-refl a)

-- A ladder of the list has the key of `m`.
abbrev pub Keyed : Ladder → List Ladder → Type 0
Keyed m [] = ⊥
Keyed m (l ∷ ls) = SameKey l m ⊎ Keyed m ls

Keyed-Apart : (l m : Ladder) (ls : List Ladder) → Apart l ls → Keyed m ls → m.id ≢ l.id
Keyed-Apart l m [] h k = absurd k
Keyed-Apart l m (x ∷ ls) h (inl k) = rw k.0 h.0
Keyed-Apart l m (x ∷ ls) h (inr k) = Keyed-Apart l m ls h.2 k

-- Saving a ladder under its own key keeps all keys in place.
Same-save_row :
    (n : ℕ) (m : Ladder) (ls : List Ladder)
    → IsTable n ls
    → Keyed m ls
    → Same ls (save_row (λ (l : Ladder). l.id) m ls)
unfolding save_row
Same-save_row n m [] h k = absurd k
Same-save_row n m (l ∷ ls) h (inl k) = rw ((==_iff l.id m.id).1 (sym k.0)) (k, Same-refl ls)
Same-save_row n m (l ∷ ls) h (inr k) = elim (Bool-cases (l.id == m.id)) [
  | inl same ↦ absurd (Keyed-Apart l m ls h.1 k (sym ((==_iff l.id m.id).0 same)))
  | inr other ↦ rw other ((refl, refl, refl), Same-save_row n m ls h.2 k)
]

Keyed-filter :
    (p : Ladder → Bool) (m : Ladder) (ls ms : List Ladder) → filter p ls ≡ m ∷ ms → Keyed m ls
Keyed-filter p m [] ms e = cc
Keyed-filter p m (l ∷ ls) ms e = elim (Bool-cases (p l)) [
  | inl yes_p ↦ inl (ground (arith, yes_p))
  | inr no_p ↦ inr (Keyed-filter p m ls ms (ground (arith, no_p)))
]

-- The row that `get` finds, or that it finds none.
pub Keyed-get :
    (region : ℤ) (bid : ℕ) (ls : List Ladder) {m : Ladder}
    → get (is_ladder region bid) ls ≡ ok m
    → Keyed m ls
Keyed-get region bid ls {m} e =
    Keyed-filter (is_ladder region bid) m ls [] (only-eq-ok (filter (is_ladder region bid) ls) e)

has_ladder-filter :
    (region : ℤ) (bid : ℕ) (ls : List Ladder) {m : Ladder} {ms : List Ladder}
    → filter (is_ladder region bid) ls ≡ m ∷ ms
    → has_ladder region bid ls ≡ true
has_ladder-filter region bid [] e = cc
has_ladder-filter region bid (l ∷ ls) {m} {ms} e =
    ground (arith, has_ladder-filter region bid ls {m = m} {ms = ms})

has_none :
    (region : ℤ) (bid : ℕ) (ls : List Ladder)
    → filter (is_ladder region bid) ls ≡ []
    → has_ladder region bid ls ≡ false
has_none region bid [] e = refl
has_none region bid (l ∷ ls) e = ground (arith, has_none region bid ls)

pub has_ladder-get :
    (region : ℤ) (bid : ℕ) (ls : List Ladder) {m : Ladder}
    → get (is_ladder region bid) ls ≡ ok m
    → has_ladder region bid ls ≡ true
has_ladder-get region bid ls e =
    has_ladder-filter region bid ls (only-eq-ok (filter (is_ladder region bid) ls) e)

only-none : (ls : List Ladder) → only ls ≡ err does_not_exist → ls ≡ []
only-none [] e = refl
only-none (l ∷ []) e = cc
only-none (l ∷ m ∷ ls) e = cc

pub has_ladder-missing :
    (region : ℤ) (bid : ℕ) (ls : List Ladder)
    → get (is_ladder region bid) ls ≡ err does_not_exist
    → has_ladder region bid ls ≡ false
has_ladder-missing region bid ls e =
    has_none region bid ls (only-none (filter (is_ladder region bid) ls) e)

Apart-append :
    (l m : Ladder) (ls : List Ladder)
    → Apart l ls
    → m.id ≢ l.id
    → is_ladder l.region l.bid m ≡ false
    → Apart l (ls ++ m ∷ [])
Apart-append l m [] h i k = (i, k, tt)
Apart-append l m (x ∷ ls) h i k = (h.0, h.1, Apart-append l m ls h.2 i k)

other_key : (l m : Ladder) → is_ladder m.region m.bid l ≡ false → is_ladder l.region l.bid m ≡ false
other_key l m e = ground (arith, ==ℤ_iff l.region m.region, ==ℤ_iff m.region l.region)

-- A new ladder, with the next id and a key that the table lacks.
pub IsTable-append :
    (n : ℕ) (m : Ladder) (ls : List Ladder)
    → IsTable n ls
    → m.id ≡ n
    → has_ladder m.region m.bid ls ≡ false
    → IsTable (n + 1) (ls ++ m ∷ [])
IsTable-append n m [] h i e = (omega arith, tt, tt)
IsTable-append n m (l ∷ ls) h i e = (
  omega (arith, h.0),
  Apart-append l m ls h.1 (ground (arith, h.0)) (other_key l m (ground arith)),
  IsTable-append n m ls h.2 i (ground arith),
)

pub has_ladder-append :
    (region : ℤ) (bid : ℕ) (m : Ladder) (ls : List Ladder)
    → has_ladder region bid (ls ++ m ∷ []) ≡ (has_ladder region bid ls || is_ladder region bid m)
has_ladder-append region bid m [] = ground arith
has_ladder-append region bid m (l ∷ ls) = ground (arith, has_ladder-append region bid m ls)

-- What a save does to the table.
pub save_row-IsTable :
    (n : ℕ) (m : Ladder) (ls : List Ladder)
    → IsTable n ls
    → Keyed m ls
    → IsTable n (save_row (λ (l : Ladder). l.id) m ls)
      × ((region : ℤ) (bid : ℕ)
          → has_ladder region bid (save_row (λ (l : Ladder). l.id) m ls) ≡ has_ladder region bid ls)
save_row-IsTable n m ls h k =
    let same = Same-save_row n m ls h k in
    (IsTable-Same n ls _ same h, λ region bid. has_ladder-Same region bid ls _ same)
