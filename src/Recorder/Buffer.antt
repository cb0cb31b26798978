-- ===== src/Recorder/Buffer.antt =====
-- The buffer of the recorder: bounded, in order, and never blocking.
use url_shortener.Common.{
  ◌≡◌, inl, inr, refl, sym, ap, ◌∙◌, Bytes, List, [], ◌∷◌, ◌++◌, append_assoc, append-nil, length,
  ltb, Bool, true, false, Bool-cases, if◌then◌else◌,
}
use url_shortener.World.{Action}
use url_shortener.World.Platform.{Platform, Counter, events_dropped}
use url_shortener.World.Redis.{Reply, reply, nil, fail}
use url_shortener.Recorder.{buffer_size, Event, Channel, on_rest, push, counted, publish, run_once}

-- What can happen to the channel: a request pushes an event, or the loop publishes the oldest.
pub data Step : Type 0 where
  pushes : Event → Step
  publishes : Step

module _ {W : Type 0} (p : Platform W) (xadd : Event → Action W (Reply Bytes)) where
  unfoldable pub step : Step → Channel W → Channel W
  step (pushes e) c = (push p e c).1
  step publishes c = run_once p xadd c

  -- The channel after a sequence of steps.
  unfoldable pub steps : List Step → Channel W → Channel W
  steps [] c = c
  steps (s ∷ rest) c = steps rest (step s c)

  -- The events that the steps accepted, in their order.
  unfoldable pub accepted : List Step → Channel W → List Event
  accepted [] c = []
  accepted (pushes e ∷ rest) c =
      let behind = accepted rest (step (pushes e) c) in
      if (push p e c).0 then e ∷ behind else behind
  accepted (publishes ∷ rest) c = accepted rest (step publishes c)

-- `sent` are the events for which an XADD was sent, in their order, whatever Redis answered.
pub record SentLaws {W : Type 0} (p : Platform W) (xadd : Event → Action W (Reply Bytes))
    (sent : W → List Event) : Type 0 where
  pub on_xadd : (e : Event) (w : W) → sent (xadd e w).1 ≡ sent w ++ (e ∷ [])
  pub on_inc : (k : Counter) (w : W) → sent (p.inc k w).1 ≡ sent w

module _ {W : Type 0} (p : Platform W) (xadd : Event → Action W (Reply Bytes))
    (sent : W → List Event) (laws : SentLaws p xadd sent) where
  -- What has been sent, and behind it what waits.
  known : Channel W → List Event
  known c = sent c.rest ++ c.waiting

  counted_sent : (r : Reply Bytes) (w : W) → sent (counted p r w).1 ≡ sent w
  unfolding counted
  counted_sent (reply id) w = laws.on_inc _ w
  counted_sent nil w = laws.on_inc _ w
  counted_sent fail w = laws.on_inc _ w

  -- A round of the loop sends the oldest event.
  publish_lem :
      (es : List Event) (c : Channel W)
      → es ≡ c.waiting
      → known (publish p xadd es c) ≡ sent c.rest ++ es
  unfolding publish known
  publish_lem [] c h = ap (λ es. sent c.rest ++ es) (sym h)
  publish_lem (e ∷ es) c h =
      ap (λ l. l ++ es) (counted_sent (xadd e c.rest).0 (xadd e c.rest).1 ∙ laws.on_xadd e c.rest)
      ∙ append_assoc (sent c.rest) (e ∷ []) es

  -- A push adds the event at the end, or drops it and changes nothing.
  IsPushed : Event → List Event → Bool × Channel W → Type 0
  IsPushed e before (true, c) = known c ≡ before ++ (e ∷ [])
  IsPushed e before (false, c) = known c ≡ before

  push_lem : (e : Event) (c : Channel W) → IsPushed e (known c) (push p e c)
  unfolding push on_rest IsPushed known
  push_lem e c = elim (Bool-cases (ltb (length c.waiting) buffer_size)) [
    | inl y ↦ rw y (sym (append_assoc (sent c.rest) c.waiting (e ∷ [])))
    | inr y ↦ rw y (ap (λ l. l ++ c.waiting) (laws.on_inc events_dropped c.rest))
  ]

  pushed :
      (e : Event) (ss : List Step) (before : List Event) (r : Bool × Channel W)
      → IsPushed e before r
      → known (steps p xadd ss r.1) ≡ known r.1 ++ accepted p xadd ss r.1
      → known (steps p xadd ss r.1)
        ≡ before ++ (if r.0 then e ∷ accepted p xadd ss r.1 else accepted p xadd ss r.1)
  unfolding IsPushed
  pushed e ss before (true, c) h rest =
      rest
      ∙ ap (λ es. es ++ accepted p xadd ss c) h
      ∙ append_assoc before (e ∷ []) (accepted p xadd ss c)
  pushed e ss before (false, c) h rest = rest ∙ ap (λ es. es ++ accepted p xadd ss c) h

  -- However requests and the publisher take turns, every event is sent in the order in which it was
  -- accepted, once, and none that was accepted is lost: what has been sent in the end, and behind it
  -- what waits still, is what had been sent at the start, then what waited, then what was accepted.
  pub steps_fifo :
      (ss : List Step) (c : Channel W)
      → sent (steps p xadd ss c).rest ++ (steps p xadd ss c).waiting
        ≡ (sent c.rest ++ c.waiting) ++ accepted p xadd ss c
  unfolding steps step run_once accepted known
  steps_fifo [] c = sym (append-nil (sent c.rest ++ c.waiting))
  steps_fifo (pushes e ∷ ss) c =
      pushed e ss (known c) (push p e c) (push_lem e c) (steps_fifo ss (push p e c).1)
  steps_fifo (publishes ∷ ss) c =
      steps_fifo ss (publish p xadd c.waiting c)
      ∙ ap (λ l. l ++ accepted p xadd ss (publish p xadd c.waiting c))
          (publish_lem c.waiting c refl)
