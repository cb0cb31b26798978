-- ===== src/Consumer/Run/Processed.antt =====
-- What ProcessOnce does with the messages that it reads.
use url_shortener.Common.{
  ℕ, ◌+◌, ◌≡◌, ◌≢◌, ◌⊎◌, inl, inr, refl, sym, ap, ◌∙◌, codes, Bool, List, [], ◌∷◌, ◌++◌, length,
  Option, none, some, arith,
}
use url_shortener.Errors.{Error, Result, ok, err, driver, wrapped}
use url_shortener.World.{Action}
use url_shortener.World.Platform.{Platform}
use url_shortener.World.Redis.{Reply, reply, nil, fail}
use url_shortener.World.Analytics.{Worker, Message}
use url_shortener.Consumer.{batch_size, handle, batched, batch, concat, received, process_once}
use url_shortener.Consumer.Run.Kept.{batch_kept}
use url_shortener.Consumer.Run.Progress.{IsRead, StreamLaws}

-- The messages were handled in their order, from `w` to `w'`, and none failed.
pub data Handled {W : Type 0} (p : Platform W) (c : Worker W) : List Message → W → W → Type 0 where
  all : {w : W} → Handled p c [] w w
  more :
      {msg : Message} {rest : List Message} {w w' : W}
      → (handle p c msg w).0 ≡ ok tt
      → Handled p c rest (handle p c msg w).1 w'
      → Handled p c (msg ∷ rest) w w'

-- `behind` is what the batch left behind when it failed, with `k` messages counted.
pub record HasFailed {W : Type 0} (p : Platform W) (c : Worker W) (msgs : List Message) (n : ℕ)
    (w : W) (k : ℕ) (e : Error) (w' : W) : Type 0 where
  pub before : List Message
  pub msg : Message
  pub behind : List Message
  pub at : W
  pub reason : Error
  pub split : msgs ≡ before ++ (msg ∷ behind)
  pub counted : k ≡ n + length before
  pub handled : Handled p c before w at
  pub failed : handle p c msg at ≡ (err reason, w')
  pub reported : e ≡ wrapped (codes "handle") reason

-- What a batch that starts in `w` with `msgs` has done when it ends with `r` in `w'`, with `n`
-- messages counted before it: all are handled, or those before the first that fails.
abbrev pub IsProcessed :
    {W : Type 0} → Platform W → Worker W → List Message → ℕ → W → ℕ × Option Error → W → Type 0
IsProcessed p c msgs n w (k, none) w' = (k ≡ n + length msgs) × Handled p c msgs w w'
IsProcessed p c msgs n w (k, some e) w' = HasFailed p c msgs n w k e w'

module _ {W : Type 0} (p : Platform W) (c : Worker W) where
  one_more :
      (n : ℕ) (msg : Message) (rest : List Message) (w : W) (r : ℕ × Option Error) (w' : W)
      → (handle p c msg w).0 ≡ ok tt
      → IsProcessed p c rest (n + 1) (handle p c msg w).1 r w'
      → IsProcessed p c (msg ∷ rest) n w r w'
  one_more n msg rest w (k, none) w' h (e, q) = (omega arith, more h q)
  one_more n msg rest w (k, some x) w' h f = record {
    before = msg ∷ f.before;
    msg = f.msg;
    behind = f.behind;
    at = f.at;
    reason = f.reason;
    split = ap (λ l. msg ∷ l) f.split;
    counted = let e = f.counted in omega arith;
    handled = more h f.handled;
    failed = f.failed;
    reported = f.reported;
  }

  batched_lem :
      (n : ℕ) (msg : Message) (rest : List Message) (w : W) (r : Result (Unit {0}))
      → (handle p c msg w).0 ≡ r
      → IsProcessed p c rest
          (n + 1)
          (handle p c msg w).1
          (batch p c (n + 1) rest (handle p c msg w).1).0
          (batch p c (n + 1) rest (handle p c msg w).1).1
      → IsProcessed p c
          (msg ∷ rest)
          n
          w
          (batched p c (batch p c (n + 1) rest) n r (handle p c msg w).1).0
          (batched p c (batch p c (n + 1) rest) n r (handle p c msg w).1).1
  unfolding batched
  batched_lem n msg rest w (err e) h next = record {
    before = [];
    msg = msg;
    behind = rest;
    at = w;
    reason = e;
    split = refl;
    counted = omega arith;
    handled = all;
    failed = ap (λ r. (r, (handle p c msg w).1)) h;
    reported = refl;
  }
  batched_lem n msg rest w (ok tt) h next = one_more n msg rest w _ _ h next

  batch_lem :
      (n : ℕ) (msgs : List Message) (w : W)
      → IsProcessed p c msgs n w (batch p c n msgs w).0 (batch p c n msgs w).1
  unfolding batch
  batch_lem n [] w = (omega arith, all)
  batch_lem n (msg ∷ rest) w =
      batched_lem n msg rest w (handle p c msg w).0 refl
        (batch_lem (n + 1) rest (handle p c msg w).1)

-- The messages that a read with the reply `answer` has taken off the stream, and what became of them:
-- behind a read that fails nothing is done with them.
pub record HasRead {W : Type 0} (stream : W → List Message) (p : Platform W) (c : Worker W)
    (start : W) (answer : Reply (List (List Message))) (read : W) (r : ℕ × Option Error) (end : W)
    : Type 0 where
  pub msgs : List Message
  pub taken : msgs ++ stream end ≡ stream start
  pub outcome :
      ((answer ≢ fail) × IsProcessed p c msgs 0 read r end)
      ⊎ ((answer ≡ fail) × (r ≡ (0, some driver)) × (end ≡ read))

module _ {W : Type 0} (stream : W → List Message) (p : Platform W) (c : Worker W)
    (idle : Action W Bool) (laws : StreamLaws stream p c idle) where
  received_lem :
      (start : W) (r : Reply (List (List Message))) (w : W)
      → IsRead (stream start) r (stream w)
      → HasRead stream p c start r w (received p c r w).0 (received p c r w).1
  unfolding received
  received_lem start (reply ss) w (e, h) = record {
    msgs = concat ss;
    taken =
        ap (λ s. concat ss ++ s)
          (batch_kept p c (λ x. stream x ≡ stream w) (laws.kept (stream w)) 0 (concat ss) w refl)
        ∙ e;
    outcome = inl (λ x. absurd (ground arith), batch_lem p c 0 (concat ss) w);
  }
  received_lem start nil w (e, h) = record {
    msgs = [];
    taken = h ∙ sym e;
    outcome = inl (λ x. absurd (ground arith), (omega arith, all));
  }
  received_lem start fail w (lost, e) = record {
    msgs = lost;
    taken = e;
    outcome = inr (refl, refl, refl);
  }

  -- ProcessOnce takes messages off the front of the stream and handles them in their order, each
  -- once. Without an error it returns their number. At the first error it returns that error and the
  -- number of the messages before it; those behind it are off the stream too and are not handled.
  -- Only when the read itself fails, it returns 0 and an error, and handles none, also of the messages
  -- that this read may have taken.
  pub process_once_exact :
      (block : Bool) (w : W)
      → HasRead stream p c w
          (c.read_group batch_size block w).0
          (c.read_group batch_size block w).1
          (process_once p c block w).0
          (process_once p c block w).1
  unfolding process_once
  process_once_exact block w =
      received_lem w (c.read_group batch_size block w).0 _ (laws.read block w)
