-- ===== src/Update/Backoff.antt =====
-- The delay of main/update.py over a run of bad fetches.
use rankedftw.Update.{delay_max, delay_after, is_bad, next_delay, Fetched, logged}
use rankedftw.Prelude.{
  inr, inl, Bool-cases, ◌≤◌, ◌+◌, ◌≢◌, arith, length, ◌*◌, true, refl, leb, ◌<◌, if◌then◌else◌, [],
  ◌≡◌, ◌∷◌, ℕ, List,
}
use Prim.Native.Nat.{min}

abbrev pub AllBad : List Fetched → Type 0
AllBad [] = Unit
AllBad (f ∷ fs) = (is_bad f ≡ true) × AllBad fs

-- How often the hit is logged in a run that starts with a delay `d`.
at_257 : (fs : List Fetched) → AllBad fs → logged 257 fs ≡ 0
unfolding logged next_delay
at_257 [] h = refl
at_257 (f ∷ fs) h = rw (h.0, at_257 fs h.1) refl

at_256 : (fs : List Fetched) → AllBad fs → logged 256 fs ≡ 0
unfolding logged next_delay
at_256 [] h = refl
at_256 (f ∷ fs) h = rw (h.0, at_257 fs h.1) refl

at_128 : (fs : List Fetched) → AllBad fs → logged 128 fs ≡ (if leb 1 (length fs) then 1 else 0)
unfolding logged next_delay
at_128 [] h = refl
at_128 (f ∷ fs) h = rw (h.0, at_256 fs h.1) (ground arith)

-- A delay that is too short to be doubled to the longest one.
doubled :
    (d k : ℕ)
    → d < 128
    → ((fs : List Fetched) → AllBad fs → logged (d * 2) fs ≡ (if leb k (length fs) then 1 else 0))
    → (fs : List Fetched) → AllBad fs
    → k ≢ 0
    → logged d fs ≡ (if leb (k + 1) (length fs) then 1 else 0)
unfolding logged next_delay
doubled d k lt step [] h n = ground arith
doubled d k lt step (f ∷ fs) h n =
    let cap : min 257 (d * 2) ≡ d * 2 = ground arith in rw (h.0, cap) (ground (arith, step fs h.1))

-- In a run of fetches that are all bad, from a delay of 1, the hit of the longest delay is logged
-- once if there are 8 of them or more, and else not at all.
logged-AllBad : (fs : List Fetched) → AllBad fs → logged 1 fs ≡ (if leb 8 (length fs) then 1 else 0)
logged-AllBad fs h =
    doubled 1 7 (omega arith)
      (λ fs2 bad2.
        doubled 2 6 (omega arith)
          (λ fs4 bad4.
            doubled 4 5 (omega arith)
              (λ fs8 bad8.
                doubled 8 4 (omega arith)
                  (λ fs16 bad16.
                    doubled 16 3 (omega arith)
                      (λ fs32 bad32.
                        doubled 32 2 (omega arith)
                          (λ fs64 bad64. doubled 64 1 (omega arith) at_128 fs64 bad64 (omega arith))
                          fs32 bad32 (omega arith))
                      fs16 bad16 (omega arith))
                  fs8 bad8 (omega arith))
              fs4 bad4 (omega arith))
          fs2 bad2 (omega arith))
      fs h (omega arith)

-- From a delay between 1 and one more than the longest, the delay stays within these bounds over
-- any fetches.
delay_after-bounds :
    (fs : List Fetched) (delay : ℕ)
    → 1 ≤ delay
    → delay ≤ delay_max + 1
    → (1 ≤ delay_after delay fs) × (delay_after delay fs ≤ delay_max + 1)
unfolding delay_after next_delay
delay_after-bounds [] delay low high = (low, high)
delay_after-bounds (f ∷ fs) delay low high = elim (Bool-cases (is_bad f)) [
  | inl bad ↦
      rw bad (
        delay_after-bounds fs (min (delay_max + 1) (delay * 2)) (ground (arith, low))
          (ground arith))
  | inr good_one ↦ rw good_one (delay_after-bounds fs 1 (omega arith) (omega arith))
]
