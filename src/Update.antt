-- ===== src/Update.antt =====
-- main/update.py. The back off of `FetcherThread.do_run` is in this file, the rest in the modules below.
pub mod Backoff
pub mod Queues
pub mod Interleave
pub mod Backlog
pub mod Batches
pub mod Save
pub mod Until
pub mod Ends
pub mod Copy
pub mod Copied
pub mod Switch
pub mod Hours
pub mod Onward
pub mod Fairness
pub mod Partition
mod Tests
use rankedftw.Prelude.{ltb, ◌||◌, ◌*◌, [], ◌∷◌, ◌==◌, ◌+◌, ◌&&◌, not, if◌then◌else◌, List, ℕ, Bool}
use Prim.Native.Nat.{min}

-- What one fetch ends with: its status, and the length of the queue of fetched ladders.
pub record Fetched : Type 0 where
  pub status : ℕ
  pub queue_length : ℕ

abbrev pub delay_max : ℕ
delay_max = 256

-- `status != 200 or len(self.fetched_queue) > 20`.
abbrev pub is_bad : Fetched → Bool
is_bad f = not (f.status == 200) || ltb 20 f.queue_length

unfoldable pub next_delay : ℕ → Fetched → ℕ
next_delay delay f = if is_bad f then min (delay_max + 1) (delay * 2) else 1

-- The seconds of the sleeps after a fetch, for the new delay.
abbrev pub sleeps : Fetched → ℕ → ℕ
sleeps f delay = if is_bad f then min delay_max delay else 0

-- Whether the hit of the longest delay is logged.
abbrev pub is_logged : Fetched → ℕ → Bool
is_logged f delay = is_bad f && (delay == delay_max)

-- The delay after some fetches, and how often the hit has been logged.
unfoldable pub delay_after : ℕ → List Fetched → ℕ
unfolding next_delay
delay_after delay [] = delay
delay_after delay (f ∷ fetches) = delay_after (next_delay delay f) fetches

unfoldable pub logged : ℕ → List Fetched → ℕ
unfolding next_delay
logged delay [] = 0
logged delay (f ∷ fetches) =
    let now = next_delay delay f in
    let rest = logged now fetches in if is_logged f now then 1 + rest else rest
