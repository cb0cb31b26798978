-- ===== src/World/Platform.antt =====
-- Go's clock, contexts and JSON, and the Prometheus counters of internal/metrics/metrics.go.
use url_shortener.Common.{ℕ, ◌≤◌, ◌≡◌, Bool, Option, some, Bytes}
use url_shortener.Model.{Url}
use url_shortener.World.{Action, View, Quiet}

-- metrics.go: one constructor for each counter
pub data Counter : Type 0 where
  cache_hits cache_misses cache_fail_open : Counter
  rate_limit_fail_open : Counter
  events_published events_dropped events_failed : Counter
  analytics_processed analytics_deduped : Counter
  idempotency_replays idempotency_skipped : Counter

pub record Platform (W : Type 0) : Type 0 where
  -- time.Now
  pub now : Action W ℕ
  -- time.Sleep
  pub sleep : ℕ → Action W (Unit {0})
  -- `ctx.Err() != nil`
  pub context_done : Action W Bool
  -- Counter.Inc
  pub inc : Counter → Action W (Unit {0})
  -- json.Marshal and json.Unmarshal of a model.URL; `none` is an error
  pub marshal : Url → Option Bytes
  pub unmarshal : Bytes → Option Url

pub record PlatformLaws {W : Type 0} (v : View W) (p : Platform W) : Type 0 where
  pub now_quiet : (w : W) → Quiet v w (p.now w).1
  -- the clock never runs backwards, and the reading lies between the times before and after it
  pub now_later : (w : W) → v.time w ≤ (p.now w).0
  pub now_earlier : (w : W) → (p.now w).0 ≤ v.time (p.now w).1
  pub sleep_quiet : (d : ℕ) (w : W) → Quiet v w (p.sleep d w).1
  pub done_quiet : (w : W) → Quiet v w (p.context_done w).1
  pub inc_quiet : (c : Counter) (w : W) → Quiet v w (p.inc c w).1
  -- what Marshal writes, Unmarshal reads
  pub unmarshal-marshal :
      (u : Url) (raw : Bytes) → p.marshal u ≡ some raw → p.unmarshal raw ≡ some u
