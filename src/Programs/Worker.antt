-- ===== src/Programs/Worker.antt =====
-- cmd/worker/main.go
use url_shortener.Common.{
  ℕ, ◌≡◌, ◌≢◌, Bool, true, false, Bytes, [], Option, none, some, text_eq, if◌then◌else◌,
}
use url_shortener.Common.Int64.{ℤ}
use url_shortener.Errors.{Result, ok, err}
use url_shortener.World.{Action, pure, ◌>>=◌, ◌>>◌}
use url_shortener.World.Platform.{Platform}
use url_shortener.World.Analytics
use url_shortener.Config.{Environment, Config, load}
use url_shortener.Consumer.{ensure_group}
use url_shortener.Consumer.Run.{run}
use url_shortener.Programs.{
  invalid_configuration, database_failed, no_redis_addr, redis_unreachable, group_failed, Exit,
  exit_one, exit_zero, Boot, failed, ready,
}

-- `R` are the Redis clients and `C` the connections of pgx.
pub record WorkerLibraries (W R C : Type 0) : Type 0 where
  pub env : Environment
  pub parse_duration : Bytes → Option ℤ
  pub platform : Platform W
  -- redis.NewClient, Ping and Close
  pub new_client : Bytes → R
  pub redis_ping : R → Action W Bool
  pub redis_close : R → Action W (Unit {0})
  -- pgx.Connect and Close
  pub connect : Bytes → Action W (Option C)
  pub close : C → Action W (Unit {0})
  -- consumer.New on a stream
  pub consumer : R → Bytes → C → Analytics.Worker W
  -- the wait of 100 ms in Run
  pub idle : Action W Bool
  -- the server of the metrics, in the background
  pub listen_metrics : Bytes → Action W (Unit {0})
  pub shutdown_metrics : Action W (Unit {0})

pub record Started (R C : Type 0) : Type 0 where
  pub config : Config
  pub rdb : R
  pub conn : C

module _ {W R C : Type 0} (l : WorkerLibraries W R C) where
  abbrev pub consumer_of : Started R C → Analytics.Worker W
  consumer_of s = l.consumer s.rdb s.config.redis_stream s.conn

  unfoldable pub grouped : Started R C → Result (Unit {0}) → Boot (Started R C)
  grouped s (err e) = failed group_failed
  grouped s (ok _) = ready s

  unfoldable pub connected : Config → R → Option C → Action W (Boot (Started R C))
  unfolding grouped
  connected cfg rdb none = pure (failed database_failed)
  connected cfg rdb (some conn) =
      let s : Started R C = record { config = cfg; rdb = rdb; conn = conn } in
      (do e ← ensure_group l.platform (consumer_of s); pure (grouped s e))

  unfoldable pub pinged : Config → R → Bool → Action W (Boot (Started R C))
  unfolding connected
  pinged cfg rdb false = pure (failed redis_unreachable)
  pinged cfg rdb true = do conn ← l.connect cfg.database_url; connected cfg rdb conn

  unfoldable pub configured : Result Config → Action W (Boot (Started R C))
  unfolding pinged
  configured (err e) = pure (failed invalid_configuration)
  configured (ok cfg) = if text_eq cfg.redis_addr [] then pure (failed no_redis_addr) else (do
    alive ← l.redis_ping (l.new_client cfg.redis_addr)
    pinged cfg (l.new_client cfg.redis_addr) alive)

  -- main up to the loop
  unfoldable pub start : Action W (Boot (Started R C))
  unfolding configured load
  start = configured (load l.env l.parse_duration)

  -- What follows Run, which never returns an error; `false` means that it has not returned yet.
  unfoldable pub ended : Started R C → Bool → Action W (Option Exit)
  ended s false = pure none
  ended s true = do l.shutdown_metrics; l.close s.conn; l.redis_close s.rdb; pure (some exit_zero)

  unfoldable pub work : ℕ → Boot (Started R C) → Action W (Option Exit)
  unfolding ended run
  work rounds (failed f) = pure (some (exit_one f))
  work rounds (ready s) = do
    l.listen_metrics s.config.metrics_addr
    stop ← run l.platform (consumer_of s) l.idle rounds
    ended s stop

  -- main of cmd/worker, with so many rounds of Run
  unfoldable pub worker_main : ℕ → Action W (Option Exit)
  unfolding start work
  worker_main rounds = do b ← start; work rounds b

  -- The worker as it starts to read: Redis has answered, the database is connected, and the group
  -- exists.
  pub record IsStarted (s : Started R C) (w : W) : Type 0 where
    pub loaded : load l.env l.parse_duration ≡ ok s.config
    pub has_redis : s.config.redis_addr ≢ []
    pub client : s.rdb ≡ l.new_client s.config.redis_addr
    pub answered : (x : W) × ((l.redis_ping s.rdb x).0 ≡ true)
    pub database : (x : W) × ((l.connect s.config.database_url x).0 ≡ some s.conn)
    pub group : (x : W) × (ensure_group l.platform (consumer_of s) x ≡ (ok tt, w))
