-- ===== src/Tests/Startup.antt =====
-- The theorems on the configuration and on the start of the programs, for an environment with a
-- database and a Redis that does not answer.
use url_shortener.Common.{
  ◌≡◌, ◌≢◌, ◌↔◌, refl, Bytes, codes, true, false, List, [], ◌∷◌, Option, none, some, text_eq,
  if◌then◌else◌,
}
use url_shortener.Common.Int64.{ℤ}
use url_shortener.Errors.{ok}
use url_shortener.World.Platform.{Platform}
use url_shortener.World.Redis.{Redis, fail}
use url_shortener.World.Postgres.{Postgres, PgError, failed}
use url_shortener.Web.{returned}
use url_shortener.Config.{Environment, Config, config_of, get_env, load}
use url_shortener.Config.Laws.{IsUsable, load_iff}
use url_shortener.Pool.{Pgxpool, new_pool, parsed, limited, opened, pinged}
use url_shortener.RateLimit.{Counts}
use url_shortener.Handler.{Decoded}
use url_shortener.Service.UrlService.{
  UrlService, new_url_service, parsed_base, check_base, has_http_scheme,
}
use url_shortener.Service.Store.{url_repository}
use url_shortener.Router.{Parts, unmatched}
use url_shortener.Programs
use url_shortener.Programs.{
  Libraries, Booted, Boot, ready, exit_zero, signalled, boot, connect_redis, url_cache, idem_store,
  redis_options, server_of, with_service, migrated, with_pool,
}
use url_shortener.Programs.Migrate.{
  migrate_main, migrate_configured, migrate_with_pool, migrate_applied,
}
use url_shortener.Programs.Ready.{IsReady}
use url_shortener.Programs.Started.{boot-ready}
use url_shortener.Tests.Sandbox.Net.{net}
use url_shortener.Tests.Migrations.{Schema, database, database_laws, first_only, applies}

abbrev env : Environment
env key =
    if text_eq key (codes "DATABASE_URL")
    then codes "postgres://db"
    else if text_eq key (codes "REDIS_ADDR")
    then codes "cache:6379"
    else []

abbrev no_duration : Bytes → Option ℤ
no_duration s = none

load_iff_example :
    (((cfg : Config) × (load env no_duration ≡ ok cfg)) ↔ (env (codes "DATABASE_URL") ≢ []))
    × ((cfg : Config) → load env no_duration ≡ ok cfg → IsUsable env cfg)
load_iff_example = load_iff env no_duration

abbrev redis : Redis Schema
redis = record {
  get = λ k w. (fail, w);
  set = λ k x d w. (fail, w);
  set_nx = λ k x d w. (fail, w);
  del = λ k w. (fail, w);
}

abbrev counts : Counts Schema
counts = record {
  incr = λ k w. (fail, w);
  expire = λ k n w. (fail, w);
  unix_now = λ w. (0, w);
  split_host_port = λ s. none;
  format_int = λ n. [];
}

abbrev postgres : Postgres Schema
postgres = record {
  insert_url = λ l x w. (failed PgError.failure, w);
  insert_url_with_code = λ c l x w. (failed PgError.failure, w);
  update_code = λ c i w. (failed PgError.failure, w);
  select_by_code = λ c w. (failed PgError.no_rows, w);
  delete_by_code = λ c w. (failed PgError.failure, w);
  sum_total = λ i w. (failed PgError.failure, w);
  select_daily = λ i w. (failed PgError.failure, w);
  select_referrers = λ i w. (failed PgError.failure, w);
}

abbrev platform : Platform Schema
platform = record {
  now = λ w. (0, w);
  sleep = λ d w. (tt, w);
  context_done = λ w. (true, w);
  inc = λ k w. (tt, w);
  marshal = λ u. none;
  unmarshal = λ s. none;
}

abbrev pool : Pgxpool Schema Bytes Bytes
pool = record {
  parse_config = λ s. some s;
  set_max_conns = λ n c. c;
  new_with_config = λ c w. (some c, w);
  ping = λ q w. (true, w);
  close = λ q w. (tt, w);
}

abbrev parts : UrlService Schema Bytes → Bytes → Parts Schema Bytes
parts urls q = record {
  lib = net;
  platform = platform;
  urls = urls;
  env = record { random = λ w. (none, w); log = λ l w. (tt, w); observe = λ d w. (tt, w) };
  lookup = λ es m path. unmatched;
  no_route = λ ctx r wr w. ((returned, wr), w);
  prometheus = λ ctx r wr w. ((returned, wr), w);
  decode = λ r. Decoded.invalid_json;
  ping = pool.ping q;
  unix = λ w. (0, w);
  location = λ s. s;
}

abbrev libraries : Libraries Schema Bytes Bytes Bytes Bytes
libraries = record {
  env = env;
  parse_duration = no_duration;
  pgx = pool;
  database = λ q. database;
  postgres = λ q. postgres;
  new_client = λ s. s;
  redis_ping = λ r w. (false, w);
  redis_close = λ r w. (tt, w);
  redis = λ r. redis;
  counts = λ r. counts;
  new_recorder = λ r s e w. (true, w);
  hostname = λ w. (codes "api-1", w);
  parts = parts;
  lib = net;
  listen = λ s w. (signalled, w);
  shutdown = λ d w. (tt, w);
}

abbrev names : List Bytes
names = codes "0002_stats.up.sql" ∷ codes "0001_init.up.sql" ∷ []

abbrev config : Config
config = config_of env no_duration

abbrev client : Option Bytes
client = some (codes "cache:6379")

abbrev urls : UrlService Schema Bytes
urls = record {
  store = url_repository postgres;
  cache = url_cache libraries config client;
  idem = idem_store libraries config client;
  base_url = codes "localhost:8080";
  block_domain = codes "localhost:8080";
}

abbrev booted : Booted Schema Bytes Bytes Bytes
booted = server_of libraries config (codes "postgres://db") client urls (codes "api-1")

loaded : load env no_duration ≡ ok config
unfolding load config_of text_eq
loaded = refl

pooled :
    (new_pool pool config.database_url config.pg_max_conns first_only).0
    ≡ ok (codes "postgres://db")
unfolding new_pool parsed opened pinged limited config_of text_eq
pooled = refl

boots : (boot libraries first_only).0 ≡ ready booted
unfolding boot Programs.configured with_pool migrated with_service connect_redis new_url_service
    parsed_base check_base has_http_scheme text_eq config_of get_env load new_pool parsed opened
    pinged limited
boots = rw applies refl

boot-ready_example : IsReady libraries (λ w. w.recorded) names booted (boot libraries first_only).1
boot-ready_example =
    boot-ready libraries (λ w. w.recorded) (λ w. w.pending) names (λ q. database_laws) (λ q. refl)
      (λ r w n h. h) (λ w n h. h) first_only booted boots

exits : (migrate_main libraries first_only).0 ≡ exit_zero
unfolding migrate_main migrate_configured migrate_with_pool migrate_applied text_eq config_of load
    new_pool parsed opened pinged limited
exits = rw applies refl
