-- ===== src/Pool/Answered.antt =====
-- What has happened when NewPool of internal/repository/pool.go returns a pool.
use url_shortener.Common.{◌≡◌, refl, Bool, true, false, Bytes, Option, none, some, arith}
use url_shortener.Common.Int64.{ℤ}
use url_shortener.Errors.{ok}
use url_shortener.Pool.{Pgxpool, limited, pinged, opened, parsed, new_pool}

-- The URL could be read, the pool was made with the limit of connections, and then it answered a ping.
pub record HasAnswered {W C Q : Type 0} (pg : Pgxpool W C Q) (dsn : Bytes) (max_conns : ℤ)
    (pool : Q) : Type 0 where
  pub cfg : C
  pub at : W
  pub readable : pg.parse_config dsn ≡ some cfg
  pub made : (pg.new_with_config (limited pg max_conns cfg) at).0 ≡ some pool
  pub answered : (pg.ping pool (pg.new_with_config (limited pg max_conns cfg) at).1).0 ≡ true

module _ {W C Q : Type 0} (pg : Pgxpool W C Q) where
  pinged_ok :
      (q pool : Q) (alive : Bool) (w : W)
      → (pinged pg q alive w).0 ≡ ok pool
      → (q ≡ pool) × (alive ≡ true)
  unfolding pinged
  pinged_ok q pool true w h = (ground arith, refl)
  pinged_ok q pool false w h = absurd (ground arith)

  opened_ok :
      (o : Option Q) (pool : Q) (w : W)
      → (opened pg o w).0 ≡ ok pool
      → (o ≡ some pool) × ((pg.ping pool w).0 ≡ true)
  unfolding opened
  opened_ok none pool w h = absurd (ground arith)
  opened_ok (some q) pool w h =
      let (same, alive) = pinged_ok q pool (pg.ping q w).0 (pg.ping q w).1 h in
      rw (← same) (refl, alive)

  parsed_ok :
      (dsn : Bytes) (max_conns : ℤ) (o : Option C) (pool : Q) (w : W)
      → pg.parse_config dsn ≡ o
      → (parsed pg max_conns o w).0 ≡ ok pool
      → HasAnswered pg dsn max_conns pool
  unfolding parsed
  parsed_ok dsn max_conns none pool w e h = absurd (ground arith)
  parsed_ok dsn max_conns (some cfg) pool w e h =
      let (made, answered) = opened_ok _ pool _ h in
      record { cfg = cfg; at = w; readable = e; made = made; answered = answered }

  pub new_pool_ok :
      (dsn : Bytes) (max_conns : ℤ) (pool : Q) (w : W)
      → (new_pool pg dsn max_conns w).0 ≡ ok pool
      → HasAnswered pg dsn max_conns pool
  unfolding new_pool
  new_pool_ok dsn max_conns pool w h = parsed_ok dsn max_conns _ pool w refl h
