-- ===== src/Config.antt =====
-- internal/config/config.go
pub mod Laws
use url_shortener.Common.{
  ℕ, ◌+◌, ◌-◌, ◌*◌, ◌%◌, ◌^◌, Bool, Bytes, codes, [], Option, none, some, text_eq, ltb,
  if◌then◌else◌,
}
use url_shortener.Common.Int64.{ℤ, pos, negsuc}
use url_shortener.Common.Decimal.{parse_int64}
use url_shortener.Errors.{Result, ok, err, driver, wrapped}

-- os.Getenv: the empty text for a variable that is not set
abbrev pub Environment : Type 0
Environment = Bytes → Bytes

-- A duration is a number of nanoseconds.
pub record Config : Type 0 where
  pub app_port : Bytes
  pub base_url : Bytes
  pub database_url : Bytes
  pub redis_addr : Bytes
  pub redis_key_prefix : Bytes
  pub redis_stream : Bytes
  pub rate_limit_per_min : ℤ
  pub read_timeout : ℤ
  pub write_timeout : ℤ
  pub idle_timeout : ℤ
  pub shutdown_timeout : ℤ
  pub log_level : Bytes
  pub pg_max_conns : ℤ
  pub metrics_addr : Bytes

-- The value of an int32 with these 32 bits.
unfoldable pub signed32 : ℕ → ℤ
signed32 w = if ltb w (2 ^ 31) then pos w else negsuc (2 ^ 32 - 1 - w)

-- The conversion `int32(n)`: the low 32 bits; those of -(n + 1) are the complement of those of n.
unfoldable pub to_int32 : ℤ → ℤ
unfolding signed32
to_int32 (pos n) = signed32 (n % 2 ^ 32)
to_int32 (negsuc n) = signed32 (2 ^ 32 - 1 - n % 2 ^ 32)

abbrev pub seconds : ℕ → ℤ
seconds n = pos (n * 1_000_000_000)

unfoldable pub or_else : {A : Type 0} → Option A → A → A
or_else none fallback = fallback
or_else (some a) fallback = a

module _ (env : Environment) where
  unfoldable pub get_env : Bytes → Bytes → Bytes
  get_env key fallback = if text_eq (env key) [] then fallback else env key

  -- strconv.Atoi on a machine with 64-bit integers
  unfoldable pub get_int : Bytes → ℤ → ℤ
  unfolding or_else
  get_int key fallback =
      if text_eq (env key) [] then fallback else or_else (parse_int64 (env key)) fallback

  -- `parse` is time.ParseDuration.
  unfoldable pub get_duration : (Bytes → Option ℤ) → Bytes → ℤ → ℤ
  unfolding or_else
  get_duration parse key fallback =
      if text_eq (env key) [] then fallback else or_else (parse (env key)) fallback

  unfoldable pub config_of : (Bytes → Option ℤ) → Config
  unfolding get_env get_int get_duration to_int32
  config_of parse = record {
    app_port = get_env (codes "APP_PORT") (codes "8080");
    base_url = get_env (codes "BASE_URL") (codes "http://localhost:8080");
    database_url = env (codes "DATABASE_URL");
    redis_addr = get_env (codes "REDIS_ADDR") (codes "");
    redis_key_prefix = get_env (codes "REDIS_KEY_PREFIX") (codes "us:");
    redis_stream = get_env (codes "REDIS_STREAM") (codes "us:events");
    rate_limit_per_min = get_int (codes "RATE_LIMIT_PER_MIN") (pos 60);
    read_timeout = get_duration parse (codes "HTTP_READ_TIMEOUT") (seconds 10);
    write_timeout = get_duration parse (codes "HTTP_WRITE_TIMEOUT") (seconds 10);
    idle_timeout = get_duration parse (codes "HTTP_IDLE_TIMEOUT") (seconds 60);
    shutdown_timeout = get_duration parse (codes "SHUTDOWN_TIMEOUT") (seconds 10);
    log_level = get_env (codes "LOG_LEVEL") (codes "info");
    pg_max_conns = to_int32 (get_int (codes "PG_MAX_CONNS") (pos 0));
    metrics_addr = get_env (codes "METRICS_ADDR") (codes ":8081");
  }

  -- Load
  unfoldable pub load : (Bytes → Option ℤ) → Result Config
  unfolding config_of
  load parse =
      let cfg = config_of parse in
      if text_eq cfg.database_url []
      then err (wrapped (codes "DATABASE_URL is required") driver)
      else ok cfg
