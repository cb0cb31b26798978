-- ===== src/Consumer/Run/Progress.antt =====
-- How far the loop of Run gets with the messages of the stream, and when it ends.
use url_shortener.Common.{
  ℕ, zero, suc, ◌+◌, ◌*◌, ◌≤◌, ◌≡◌, ◌≢◌, ◌⊎◌, inl, inr, refl, ap, ◌∙◌, Bool, true, false,
  Bool-cases, List, [], ◌∷◌, ◌++◌, length, length-append, Option, ◌==◌, arith,
}
use url_shortener.Errors.{Error}
use url_shortener.World.{Action}
use url_shortener.World.Platform.{Platform}
use url_shortener.World.Redis.{Reply, reply, nil, fail}
use url_shortener.World.Analytics.{Worker, Message}
use url_shortener.Consumer.{batch_size, batch, concat, received, process_once}
use url_shortener.Consumer.Run.{after_batch, checked, run}
use url_shortener.Consumer.Run.Kept.{IsWorkerKept, batch_kept}

-- XREADGROUP takes messages off the front of those that no reader has got yet: a full batch, or all
-- that there are. A read that fails may have taken messages whose reply was lost.
abbrev pub IsRead : List Message → Reply (List (List Message)) → List Message → Type 0
IsRead s (reply ss) s' = (concat ss ++ s' ≡ s) × ((batch_size ≤ length (concat ss)) ⊎ (s' ≡ []))
IsRead s nil s' = (s ≡ []) × (s' ≡ [])
IsRead s fail s' = (lost : List Message) × (lost ++ s' ≡ s)

-- `stream` gives the messages that no reader has got yet; during the run none is added.
pub record StreamLaws {W : Type 0} (stream : W → List Message) (p : Platform W) (c : Worker W)
    (idle : Action W Bool) : Type 0 where
  pub on_context_done : (w : W) → stream (p.context_done w).1 ≡ stream w
  pub on_idle : (w : W) → stream (idle w).1 ≡ stream w
  pub kept : (l : List Message) → IsWorkerKept p c (λ w. stream w ≡ l)
  pub read :
      (block : Bool) (w : W)
      → IsRead
          (stream w)
          (c.read_group batch_size block w).0
          (stream (c.read_group batch_size block w).1)

module _ {W : Type 0} (stream : W → List Message) (p : Platform W) (c : Worker W)
    (idle : Action W Bool) (laws : StreamLaws stream p c idle) where
  batch_stream : (n : ℕ) (msgs : List Message) (w : W) → stream (batch p c n msgs w).1 ≡ stream w
  batch_stream n msgs w =
      batch_kept p c (λ x. stream x ≡ stream w) (laws.kept (stream w)) n msgs w refl

  received_reads :
      (s : List Message) (r : Reply (List (List Message))) (w : W)
      → IsRead s r (stream w)
      → r ≢ fail
      → (length (stream (received p c r w).1) + batch_size ≤ length s)
        ⊎ (stream (received p c r w).1 ≡ [])
  unfolding received
  received_reads s (reply ss) w (e, inl full) answered = inl (
      let same : stream (batch p c 0 (concat ss) w).1 ≡ stream w = batch_stream 0 (concat ss) w in
      let l : length (concat ss ++ stream w) ≡ length (concat ss) + length (stream w) =
        length-append (concat ss) (stream w) in
      let k : length (concat ss ++ stream w) ≡ length s = ap length e in
      let j : length (stream (batch p c 0 (concat ss) w).1) ≡ length (stream w) = ap length same in
      omega arith)
  received_reads s (reply ss) w (e, inr h) answered = inr (batch_stream 0 (concat ss) w ∙ h)
  received_reads s nil w (e, h) answered = inr h
  received_reads s fail w e answered = absurd (answered refl)

  -- What a batch makes of the stream, when Redis answers.
  once_reads :
      (block : Bool) (w : W)
      → (c.read_group batch_size block w).0 ≢ fail
      → (length (stream (process_once p c block w).1) + batch_size ≤ length (stream w))
        ⊎ (stream (process_once p c block w).1 ≡ [])
  unfolding process_once
  once_reads block w answered =
      received_reads (stream w) (c.read_group batch_size block w).0 _ (laws.read block w) answered

-- A context that is on stays so: no call of the loop ends it, and the checks of the loop see that.
pub record OnLaws {W : Type 0} (is_on : W → Type 0) (p : Platform W) (c : Worker W)
    (idle : Action W Bool) : Type 0 where
  pub kept : IsWorkerKept p c is_on
  pub on_read : (w : W) → is_on w → is_on (c.read_group batch_size true w).1
  pub on_context_done :
      (w : W) → is_on w → ((p.context_done w).0 ≡ false) × is_on (p.context_done w).1
  pub on_idle : (w : W) → is_on w → ((idle w).0 ≡ false) × is_on (idle w).1

module _ {W : Type 0} (stream : W → List Message) (p : Platform W) (c : Worker W)
    (idle : Action W Bool) (laws : StreamLaws stream p c idle) (is_on : W → Type 0)
    (on : OnLaws is_on p c idle) where
  received_on : (r : Reply (List (List Message))) (w : W) → is_on w → is_on (received p c r w).1
  unfolding received
  received_on nil w h = h
  received_on fail w h = h
  received_on (reply ss) w h = batch_kept p c is_on on.kept 0 (concat ss) w h

  once_on : (w : W) → is_on w → is_on (process_once p c true w).1
  unfolding process_once
  once_on w h = received_on (c.read_group batch_size true w).0 _ (on.on_read w h)

  -- Run goes on, and every message has been read.
  abbrev pub Drained : Bool × W → Type 0
  Drained r = (r.0 ≡ false) × (stream r.1 ≡ [])

  after_drains :
      (rest : Action W Bool) (r : ℕ × Option Error) (w : W)
      → is_on w
      → ((x : W) → is_on x → stream x ≡ stream w → Drained (rest x))
      → Drained (after_batch p c idle rest r w)
  unfolding after_batch
  after_drains rest (n, e) w h next = elim (Bool-cases (n == 0)) [
    | inl z ↦
        let (go, still) = on.on_idle w h in rw (z, go) (next (idle w).1 still (laws.on_idle w))
    | inr z ↦ rw z (next w h refl)
  ]

  checked_drains :
      (rest : Action W Bool) (n : ℕ) (w : W)
      → is_on w
      → ((x : W) → (c.read_group batch_size true x).0 ≢ fail)
      → length (stream w) ≤ batch_size * suc n
      → ((x : W) → is_on x → length (stream x) ≤ batch_size * n → Drained (rest x))
      → Drained (checked p c idle rest false w)
  unfolding checked
  checked_drains rest n w h answered few next =
      after_drains rest (process_once p c true w).0 _ (once_on w h) (λ x k same.
        let e : length (stream x) ≡ length (stream (process_once p c true w).1) = ap length same in
        elim (once_reads stream p c idle laws true w (answered w)) [
          | inl l ↦ next x k (omega arith)
          | inr l ↦
              (let z : length (stream (process_once p c true w).1) ≡ 0 = ap length l in
                next x k (omega arith))
        ])

  no_message : (s : List Message) → length s ≤ 0 → s ≡ []
  no_message [] h = refl
  no_message (m ∷ rest) h = absurd (omega arith)

  -- While Redis answers every XREADGROUP and the context is on, enough rounds of the loop (one for every 32 messages)
  -- read every message that the stream holds, whether or not the handling of a message fails, and
  -- Run has not returned.
  pub run_drains :
      (rounds : ℕ) (w : W)
      → is_on w
      → ((x : W) → (c.read_group batch_size true x).0 ≢ fail)
      → length (stream w) ≤ batch_size * rounds
      → Drained (run p c idle rounds w)
  unfolding run
  run_drains zero w h answered few = (refl, no_message (stream w) (omega arith))
  run_drains (suc n) w h answered few =
      let same : length (stream (p.context_done w).1) ≡ length (stream w) =
        ap length (laws.on_context_done w) in
      let (go, still) = on.on_context_done w h in
      rw go (
        checked_drains (run p c idle n) n (p.context_done w).1 still answered (omega arith)
          (λ x k l. run_drains n x k answered l))

-- A context that is done stays done while the loop waits, and reports it.
pub record CancelLaws {W : Type 0} (is_done : W → Type 0) (p : Platform W) (idle : Action W Bool)
    : Type 0 where
  pub reported : (w : W) → is_done w → (p.context_done w).0 ≡ true
  pub on_idle : (w : W) → is_done w → is_done (idle w).1

module _ {W : Type 0} (stream : W → List Message) (p : Platform W) (c : Worker W)
    (idle : Action W Bool) (laws : StreamLaws stream p c idle) (is_done : W → Type 0)
    (cancel : CancelLaws is_done p idle) where
  -- Run has returned, and has read no message since `w`.
  abbrev pub Stopped : W → Bool × W → Type 0
  Stopped w r = (r.0 ≡ true) × (stream r.1 ≡ stream w)

  run_done : (n : ℕ) (w : W) → is_done w → Stopped w (run p c idle (suc n) w)
  unfolding run checked
  run_done n w h = rw (cancel.reported w h) (refl, laws.on_context_done w)

  after_stops :
      (n : ℕ) (r : ℕ × Option Error) (w : W)
      → is_done w
      → Stopped w (after_batch p c idle (run p c idle (suc n)) r w)
  unfolding after_batch
  after_stops n (k, e) w h = elim (Bool-cases (k == 0)) [
    | inl z ↦ elim (Bool-cases (idle w).0) [
      | inl stop ↦ rw (z, stop) (refl, laws.on_idle w)
      | inr go ↦
          let (a, b) = run_done n (idle w).1 (cancel.on_idle w h) in
          rw (z, go) (a, b ∙ laws.on_idle w)
    ]
    | inr z ↦ rw z (run_done n w h)
  ]

  -- When the context is cancelled while a batch is processed, Run returns before it reads another
  -- message, whatever the batch gave.
  pub run_cancelled :
      (n : ℕ) (w : W)
      → (p.context_done w).0 ≡ false
      → is_done (process_once p c true (p.context_done w).1).1
      → Stopped (process_once p c true (p.context_done w).1).1 (run p c idle (suc (suc n)) w)
  unfolding run checked
  run_cancelled n w on h = rw on (after_stops n (process_once p c true (p.context_done w).1).0 _ h)
