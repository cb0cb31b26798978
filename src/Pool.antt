-- ===== src/Pool.antt =====
-- NewPool of internal/repository/pool.go, over the pools of github.com/jackc/pgx.
pub mod Answered
use url_shortener.Common.{Bool, true, false, Bytes, codes, Option, none, some, if◌then◌else◌}
use url_shortener.Common.Int64.{ℤ, is_above}
use url_shortener.Errors.{Result, ok, err, driver, wrapped}
use url_shortener.World.{Action, pure, ◌>>=◌, ◌>>◌}

-- `C` are the configurations and `Q` the pools of pgxpool.
pub record Pgxpool (W C Q : Type 0) : Type 0 where
  -- pgxpool.ParseConfig; `none` is an error
  pub parse_config : Bytes → Option C
  -- the assignment of the field MaxConns
  pub set_max_conns : ℤ → C → C
  -- pgxpool.NewWithConfig
  pub new_with_config : C → Action W (Option Q)
  -- Ping, with its time-out of five seconds; `false` is an error
  pub ping : Q → Action W Bool
  pub close : Q → Action W (Unit {0})

module _ {W C Q : Type 0} (pg : Pgxpool W C Q) where
  -- A limit that is not positive leaves the default.
  unfoldable pub limited : ℤ → C → C
  limited max_conns cfg = if is_above max_conns 0 then pg.set_max_conns max_conns cfg else cfg

  unfoldable pub pinged : Q → Bool → Action W (Result Q)
  pinged pool true = pure (ok pool)
  pinged pool false = do pg.close pool; pure (err (wrapped (codes "ping database") driver))

  unfoldable pub opened : Option Q → Action W (Result Q)
  unfolding pinged
  opened none = pure (err (wrapped (codes "create pool") driver))
  opened (some pool) = do alive ← pg.ping pool; pinged pool alive

  unfoldable pub parsed : ℤ → Option C → Action W (Result Q)
  unfolding limited opened
  parsed max_conns none = pure (err (wrapped (codes "parse database url") driver))
  parsed max_conns (some cfg) = do pool ← pg.new_with_config (limited max_conns cfg); opened pool

  -- NewPool
  unfoldable pub new_pool : Bytes → ℤ → Action W (Result Q)
  unfolding parsed
  new_pool dsn max_conns = parsed max_conns (pg.parse_config dsn)
