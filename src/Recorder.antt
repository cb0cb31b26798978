-- ===== src/Recorder.antt =====
-- internal/analytics/recorder.go
pub mod Buffer
use url_shortener.Common.{
  ℕ, suc, ◌+◌, Bytes, List, [], ◌∷◌, ◌++◌, length, ltb, Bool, true, false, if◌then◌else◌,
}
use url_shortener.World.{Action, pure, ◌>>=◌, ◌>>◌}
use url_shortener.World.Platform.{Platform, events_published, events_dropped, events_failed}
use url_shortener.World.Redis.{Reply, reply, nil, fail}

abbrev pub buffer_size : ℕ
buffer_size = 4096

-- `ts` is a Unix time in seconds.
pub record Event : Type 0 where
  pub code : Bytes
  pub referrer : Bytes
  pub ts : ℕ

-- The channel: the events that wait, the oldest first, and whatever else there is.
pub record Channel (W : Type 0) : Type 0 where
  pub waiting : List Event
  pub rest : W

module _ {W : Type 0} (p : Platform W) where
  unfoldable pub on_rest : {A : Type 0} → Action W A → Action (Channel W) A
  on_rest m c = ((m c.rest).0, record { waiting = c.waiting; rest = (m c.rest).1 })

  -- `false` for an event that was dropped because the buffer is full
  unfoldable pub push : Event → Action (Channel W) Bool
  unfolding on_rest
  push e c =
      if ltb (length c.waiting) buffer_size
      then (true, record { waiting = c.waiting ++ (e ∷ []); rest = c.rest })
      else (false, (on_rest (p.inc events_dropped) c).1)

  unfoldable pub counted : Reply Bytes → Action W (Unit {0})
  counted (reply id) = p.inc events_published
  counted nil = p.inc events_failed
  counted fail = p.inc events_failed

  -- One round of the loop of `run`, on the oldest event; `xadd` is XADD with the event's values.
  unfoldable pub publish : (Event → Action W (Reply Bytes)) → List Event → Channel W → Channel W
  unfolding counted
  publish xadd [] c = c
  publish xadd (e ∷ waiting) c = record {
    waiting = waiting;
    rest = (counted (xadd e c.rest).0 (xadd e c.rest).1).1;
  }

  unfoldable pub run_once : (Event → Action W (Reply Bytes)) → Channel W → Channel W
  unfolding publish
  run_once xadd c = publish xadd c.waiting c
