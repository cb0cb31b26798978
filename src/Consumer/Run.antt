-- ===== src/Consumer/Run.antt =====
-- Run of internal/consumer/consumer.go: the endless loop over batches, for a number of rounds.
pub mod Kept
pub mod Progress
pub mod Processed
use url_shortener.Common.{ℕ, zero, suc, Bool, true, false, Option, ◌==◌, if◌then◌else◌}
use url_shortener.Errors.{Error}
use url_shortener.World.{Action, pure, ◌>>=◌}
use url_shortener.World.Platform.{Platform}
use url_shortener.World.Analytics.{Worker}
use url_shortener.Consumer.{process_once}

-- `idle` waits for 100 ms or for the context, and tells whether the context ended the wait.
module _ {W : Type 0} (p : Platform W) (c : Worker W) (idle : Action W Bool) where
  -- What follows a batch; an error was logged, and does not end the loop. The result tells whether
  -- Run has returned.
  unfoldable pub after_batch : Action W Bool → ℕ × Option Error → Action W Bool
  after_batch rest (n, e) =
      if n == 0 then (do stop ← idle; if stop then pure true else rest) else rest

  unfoldable pub checked : Action W Bool → Bool → Action W Bool
  unfolding after_batch
  checked rest true = pure true
  checked rest false = do r ← process_once p c true; after_batch rest r

  -- At most so many rounds of the loop, and whether Run has returned within them.
  unfoldable pub run : ℕ → Action W Bool
  unfolding checked
  run zero = pure false
  run (suc rounds) = let rest = run rounds in (do stop ← p.context_done; checked rest stop)
