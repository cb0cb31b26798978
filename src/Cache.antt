-- ===== src/Cache.antt =====
-- internal/cache/url_cache.go
pub mod Laws
pub mod Lifetime
use url_shortener.Common.{ℕ, ◌-◌, ◌++◌, Bytes, codes, Option, none, some, ltb, leb, if◌then◌else◌}
use url_shortener.Errors.{Result, ok, err, driver}
use url_shortener.Model.{Url}
use url_shortener.World.{Action, pure, ◌>>=◌, ◌>>◌}
use url_shortener.World.Platform.{Platform, cache_hits, cache_misses}
use url_shortener.World.Redis.{Redis, Reply, reply, nil, fail}

-- 60 seconds
abbrev pub cache_ttl : ℕ
cache_ttl = 60_000_000_000

pub record UrlCache (W : Type 0) : Type 0 where
  pub rdb : Redis W
  pub key_base : Bytes

unfoldable pub replied : Reply (Unit {0}) → Result (Unit {0})
replied (reply _) = ok tt
replied nil = err driver
replied fail = err driver

module _ {W : Type 0} where
  unfoldable pub url_key : UrlCache W → Bytes → Bytes
  url_key c code = c.key_base ++ (codes "url:" ++ code)

  -- `none` in a result is a miss.
  unfoldable pub decode : Platform W → Reply Bytes → Action W (Result (Option Url))
  decode p nil = do p.inc cache_misses; pure (ok none)
  decode p fail = pure (err driver)
  decode p (reply raw) = elim (p.unmarshal raw) [
    | none ↦ pure (err driver)
    | some u ↦ do p.inc cache_hits; pure (ok (some u))
  ]

  unfoldable pub get : Platform W → UrlCache W → Bytes → Action W (Result (Option Url))
  get p c code = do r ← c.rdb.get (url_key c code); decode p r

  -- The shorter of `cacheTTL` and the time that is left; time.Until reads the clock. What is less
  -- than 0 in the source is 0 here, and is refused alike.
  unfoldable pub ttl_for : Platform W → Option ℕ → Action W ℕ
  ttl_for p none = pure cache_ttl
  ttl_for p (some e) = do
    t ← p.now
    let remain = e - t
    pure (if ltb remain cache_ttl then remain else cache_ttl)

  unfoldable pub store : UrlCache W → Bytes → Bytes → ℕ → Action W (Result (Unit {0}))
  unfolding replied
  store c code raw ttl =
      if leb ttl 0
      then pure (ok tt)
      else (do r ← c.rdb.set (url_key c code) raw ttl; pure (replied r))

  unfoldable pub set : Platform W → UrlCache W → Bytes → Url → Action W (Result (Unit {0}))
  set p c code u = elim (p.marshal u) [
    | none ↦ pure (err driver)
    | some raw ↦ do ttl ← ttl_for p u.expires_at; store c code raw ttl
  ]

  unfoldable pub delete : UrlCache W → Bytes → Action W (Result (Unit {0}))
  unfolding replied
  delete c code = do r ← c.rdb.del (url_key c code); pure (replied r)
