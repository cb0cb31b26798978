-- ===== src/Programs.antt =====
-- cmd/server/main.go: how the server starts and ends. os.Exit(1) with its reason is a value; the
-- deferred calls do not run then.
pub mod Migrate
pub mod Worker
pub mod WorkerStart
pub mod Ready
pub mod Started
use url_shortener.Common.{
  ℕ, Bool, true, false, not, Bytes, codes, List, [], ◌∷◌, ◌++◌, Option, none, some, text_eq,
  if◌then◌else◌,
}
use url_shortener.Common.Int64.{ℤ}
use url_shortener.Errors.{Error, Result, ok, err}
use url_shortener.World.{Action, pure, ◌>>=◌, ◌>>◌}
use url_shortener.World.Redis.{Redis}
use url_shortener.World.Postgres.{Postgres}
use url_shortener.Web.{Handler}
use url_shortener.Config.{Environment, Config, load}
use url_shortener.Pool.{Pgxpool, new_pool}
use url_shortener.Migrator
use url_shortener.Migrator.{Database}
use url_shortener.Cache.{UrlCache}
use url_shortener.Idempotency.{IdemStore, new_store}
use url_shortener.RateLimit.{Counts}
use url_shortener.Recorder.{Event}
use url_shortener.Service.LongUrl.{UrlLib}
use url_shortener.Service.Store.{url_repository}
use url_shortener.Service.UrlService.{UrlService, new_url_service}
use url_shortener.Router.{
  Options, with_rate_limiter, with_recorder, with_instance_id, with_metrics, Parts, router,
}

-- The level of newLogger.
pub data Level : Type 0 where
  debug info warn error : Level

unfoldable pub new_logger : Environment → Level
new_logger env =
    if text_eq (env (codes "LOG_LEVEL")) (codes "debug")
    then debug
    else if text_eq (env (codes "LOG_LEVEL")) (codes "warn")
    then warn
    else if text_eq (env (codes "LOG_LEVEL")) (codes "warning")
    then warn
    else if text_eq (env (codes "LOG_LEVEL")) (codes "error")
    then error
    else info

-- Why a program exits with status 1.
pub data Failure : Type 0 where
  invalid_configuration database_failed migrations_failed service_failed : Failure
  no_redis_addr redis_unreachable group_failed : Failure

pub data Exit : Type 0 where
  exit_one : Failure → Exit
  exit_zero : Exit

-- http.Server
pub record HttpServer (W : Type 0) : Type 0 where
  pub addr : Bytes
  pub handler : Handler W
  pub read_timeout : ℤ
  pub write_timeout : ℤ
  pub idle_timeout : ℤ

-- How the wait of the server ends: with a signal, or with an error of ListenAndServe.
pub data Stop : Type 0 where
  signalled listen_failed : Stop

-- The libraries that the server is built on. `C` and `Q` are those of pgxpool, `R` the Redis clients,
-- `P` the URLs of net/url.
pub record Libraries (W P C Q R : Type 0) : Type 0 where
  pub env : Environment
  pub parse_duration : Bytes → Option ℤ
  pub pgx : Pgxpool W C Q
  pub database : Q → Database W
  pub postgres : Q → Postgres W
  -- redis.NewClient, Ping and Close
  pub new_client : Bytes → R
  pub redis_ping : R → Action W Bool
  pub redis_close : R → Action W (Unit {0})
  pub redis : R → Redis W
  pub counts : R → Counts W
  -- analytics.NewRecorder on a stream, and its Push
  pub new_recorder : R → Bytes → Event → Action W Bool
  pub hostname : Action W Bytes
  -- what New takes besides the service and the pool
  pub parts : UrlService W P → Q → Parts W P
  pub lib : UrlLib P
  -- ListenAndServe until it fails or a signal arrives, and Shutdown with its time-out
  pub listen : HttpServer W → Action W Stop
  pub shutdown : ℤ → Action W (Unit {0})

-- What the server is made of when it starts to listen.
pub record Booted (W P Q R : Type 0) : Type 0 where
  pub config : Config
  pub pool : Q
  pub rdb : Option R
  pub urls : UrlService W P
  pub options : List (Options W → Options W)
  pub server : HttpServer W

pub data Boot (A : Type 0) : Type 0 where
  failed : Failure → Boot A
  ready : A → Boot A

module _ {W P C Q R : Type 0} (l : Libraries W P C Q R) where
  -- The client is there whenever REDIS_ADDR is set, whether or not it answers the ping.
  unfoldable pub connect_redis : Config → Action W (Option R)
  connect_redis cfg = if text_eq cfg.redis_addr [] then pure none else (do
    l.redis_ping (l.new_client cfg.redis_addr)
    pure (some (l.new_client cfg.redis_addr)))

  unfoldable pub url_cache : Config → Option R → Option (UrlCache W)
  url_cache cfg none = none
  url_cache cfg (some r) = some (record { rdb = l.redis r; key_base = cfg.redis_key_prefix })

  unfoldable pub idem_store : Config → Option R → Option (IdemStore W)
  unfolding new_store
  idem_store cfg none = none
  idem_store cfg (some r) = some (new_store (l.redis r) cfg.redis_key_prefix)

  unfoldable pub redis_options : Config → Option R → List (Options W → Options W)
  unfolding with_rate_limiter with_recorder
  redis_options cfg none = []
  redis_options cfg (some r) =
      with_rate_limiter (l.counts r) cfg.redis_key_prefix cfg.rate_limit_per_min
      ∷ with_recorder (l.new_recorder r cfg.redis_stream)
      ∷ []

  unfoldable pub server_of : Config → Q → Option R → UrlService W P → Bytes → Booted W P Q R
  unfolding redis_options with_instance_id with_metrics router
  server_of cfg pool rdb urls hostname =
      let opts = redis_options cfg rdb ++ (with_instance_id hostname ∷ with_metrics ∷ []) in
      record {
        config = cfg;
        pool = pool;
        rdb = rdb;
        urls = urls;
        options = opts;
        server = record {
          addr = codes ":" ++ cfg.app_port;
          handler = router (l.parts urls pool) opts;
          read_timeout = cfg.read_timeout;
          write_timeout = cfg.write_timeout;
          idle_timeout = cfg.idle_timeout;
        };
      }

  unfoldable pub with_service :
      Config → Q → Option R → Option (UrlService W P) → Action W (Boot (Booted W P Q R))
  unfolding server_of
  with_service cfg pool rdb none = pure (failed service_failed)
  with_service cfg pool rdb (some urls) = do
    name ← l.hostname
    pure (ready (server_of cfg pool rdb urls name))

  unfoldable pub migrated : Config → Q → Result (Unit {0}) → Action W (Boot (Booted W P Q R))
  unfolding connect_redis with_service url_cache idem_store new_url_service
  migrated cfg pool (err e) = pure (failed migrations_failed)
  migrated cfg pool (ok _) = do
    rdb ← connect_redis cfg
    with_service cfg pool rdb (
        new_url_service l.lib (url_repository (l.postgres pool)) (url_cache cfg rdb)
          (idem_store cfg rdb) cfg.base_url)

  unfoldable pub with_pool : Config → Result Q → Action W (Boot (Booted W P Q R))
  unfolding migrated
  with_pool cfg (err e) = pure (failed database_failed)
  with_pool cfg (ok pool) = do r ← Migrator.apply (l.database pool); migrated cfg pool r

  unfoldable pub configured : Result Config → Action W (Boot (Booted W P Q R))
  unfolding with_pool
  configured (err e) = pure (failed invalid_configuration)
  configured (ok cfg) = do
    pool ← new_pool l.pgx cfg.database_url cfg.pg_max_conns
    with_pool cfg pool

  -- The server's main, up to the point where it listens.
  unfoldable pub boot : Action W (Boot (Booted W P Q R))
  unfolding configured load
  boot = configured (load l.env l.parse_duration)

  unfoldable pub close_redis : Option R → Action W (Unit {0})
  close_redis none = pure tt
  close_redis (some r) = l.redis_close r

  unfoldable pub stopped : Config → Stop → Action W (Unit {0})
  stopped cfg signalled = l.shutdown cfg.shutdown_timeout
  stopped cfg listen_failed = pure tt

  unfoldable pub serve : Boot (Booted W P Q R) → Action W Exit
  unfolding stopped close_redis
  serve (failed f) = pure (exit_one f)
  serve (ready b) = do
    how ← l.listen b.server
    stopped b.config how
    close_redis b.rdb
    l.pgx.close b.pool
    pure exit_zero

  -- main of cmd/server
  unfoldable pub server_main : Action W Exit
  unfolding boot serve
  server_main = do b ← boot; serve b
