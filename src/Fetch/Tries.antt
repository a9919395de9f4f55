-- ===== src/Fetch/Tries.antt =====
-- The tries of `fetch_new_in_league` of main/fetch.py.
use rankedftw.Prelude.{false, zero, suc, ◌≡◌, ◌≢◌, ◌∙◌, refl, some, none, arith, ◌+◌, ◌<◌, ℕ}
use rankedftw.Prelude.Result.{ok}
use rankedftw.Prelude.Int.{◌==ℤ◌, ℤ}
use rankedftw.Fetch.Answers.{at_try, tries, Run}
use rankedftw.Enums.League

-- The code for a league goes on past the answer to this try: no 503, no 200, and no 404 for the
-- grandmaster league.
pub record IsRetried (run : Run) (mode league : ℤ) (count : ℕ) : Type 0 where
  pub goes_on : run.check_stop (at_try mode league count) ≡ ok tt
  pub not_down : (run.fetch_league mode league count).status ≢ 503
  pub not_found :
      (run.fetch_league mode league count).status ≡ 404 → league ==ℤ League.grandmaster ≡ false
  pub not_done : (run.fetch_league mode league count).status ≢ 200

retry :
    (run : Run) (mode league : ℤ) (count left : ℕ)
    → IsRetried run mode league count
    → tries run mode league count (suc left) ≡ tries run mode league (count + 1) left
unfolding tries
retry run mode league count left h =
    rw h.goes_on (ground (arith, h.not_down, h.not_found, h.not_done))

settle :
    (run : Run) (mode league : ℤ) (count left : ℕ)
    → run.check_stop (at_try mode league count) ≡ ok tt
    → (run.fetch_league mode league count).status ≡ 200
    → tries run mode league count (suc left) ≡ ok (some (run.fetch_league mode league count))
unfolding tries
settle run mode league count left goes_on done = rw (goes_on, done) refl

next-IsRetried :
    (run : Run) (mode league : ℤ) (n count : ℕ)
    → ((i : ℕ) → i < suc n → IsRetried run mode league (count + i))
    → (i : ℕ) → i < n
    → IsRetried run mode league (count + 1 + i)
next-IsRetried run mode league n count h i lt =
    let same : count + suc i ≡ count + 1 + i = omega arith in
    rw (← same) (h (suc i) (omega (arith, lt)))

first-IsRetried :
    (run : Run) (mode league : ℤ) (n count : ℕ)
    → ((i : ℕ) → i < suc n → IsRetried run mode league (count + i))
    → IsRetried run mode league count
first-IsRetried run mode league n count h =
    let same : count + 0 ≡ count = omega arith in rw same at (h 0 (omega arith))

-- The answer that is used is the first with status 200, after `k` others.
pub tries_settle :
    (run : Run) (mode league : ℤ) (k count n : ℕ)
    → k < n
    → ((i : ℕ) → i < k → IsRetried run mode league (count + i))
    → run.check_stop (at_try mode league (count + k)) ≡ ok tt
    → (run.fetch_league mode league (count + k)).status ≡ 200
    → tries run mode league count n ≡ ok (some (run.fetch_league mode league (count + k)))
tries_settle run mode league k count zero lt h goes_on done = absurd (omega arith)
tries_settle run mode league zero count (suc n) lt h goes_on done =
    let same : count + 0 ≡ count = omega arith in
    rw same (settle run mode league count n (rw same at goes_on) (rw same at done))
tries_settle run mode league (suc k) count (suc n) lt h goes_on done =
    let same : count + 1 + k ≡ count + suc k = omega arith in
    retry run mode league count n (first-IsRetried run mode league k count h)
    ∙ rw (← same) (
        tries_settle run mode league k (count + 1) n (omega arith)
          (next-IsRetried run mode league k count h) (rw same goes_on) (rw same done))

pub tries_fail :
    (run : Run) (mode league : ℤ) (n count : ℕ)
    → ((i : ℕ) → i < n → IsRetried run mode league (count + i))
    → tries run mode league count n ≡ ok none
unfolding tries
tries_fail run mode league zero count h = refl
tries_fail run mode league (suc n) count h =
    retry run mode league count n (first-IsRetried run mode league n count h)
    ∙ tries_fail run mode league n (count + 1) (next-IsRetried run mode league n count h)
