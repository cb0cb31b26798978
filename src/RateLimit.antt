-- ===== src/RateLimit.antt =====
-- internal/middleware/ratelimit.go
pub mod Window
use url_shortener.Common.{
  ℕ, ◌-◌, ◌/◌, ◌%◌, ◌==◌, Bytes, codes, ◌++◌, Option, none, some, ltb, trim_space, if◌then◌else◌,
}
use url_shortener.Common.Int64.{ℤ, pos, negsuc}
use url_shortener.Errors.{Result, ok, err, driver}
use url_shortener.World.{Action, pure, ◌>>=◌, ◌>>◌}
use url_shortener.World.Platform.{Platform, rate_limit_fail_open}
use url_shortener.World.Redis.{Reply, reply, nil, fail}

-- What the limiter uses of Redis, of the clock, of package net and of strconv.
pub record Counts (W : Type 0) : Type 0 where
  -- INCR k
  pub incr : Bytes → Action W (Reply ℕ)
  -- EXPIRE k with a number of seconds
  pub expire : Bytes → ℕ → Action W (Reply (Unit {0}))
  -- time.Now().Unix()
  pub unix_now : Action W ℕ
  -- net.SplitHostPort, the host; `none` is an error
  pub split_host_port : Bytes → Option Bytes
  -- strconv.FormatInt in base 10
  pub format_int : ℕ → Bytes

pub record Limiter (W : Type 0) : Type 0 where
  pub rdb : Counts W
  pub key_base : Bytes
  pub per_minute : ℕ

-- RateLimit: a limit of 0 or less stands for 60.
unfoldable pub rate_limit : {W : Type 0} → Counts W → Bytes → ℤ → Limiter W
rate_limit rdb key_base (pos n) = record {
  rdb = rdb;
  key_base = key_base;
  per_minute = if n == 0 then 60 else n;
}
rate_limit rdb key_base (negsuc n) = record { rdb = rdb; key_base = key_base; per_minute = 60 }

-- `60 - int(now % 60)`, and 1 if that is less
unfoldable pub retry_after : ℕ → ℕ
retry_after now = let r = 60 - now % 60 in if ltb r 1 then 1 else r

-- What the handler of a request is answered: passed on to the next one, or refused with a status and
-- the seconds of Retry-After.
pub data Passage (A : Type 0) : Type 0 where
  served : A → Passage A
  refused : ℕ → ℕ → Passage A

module _ {W : Type 0} (rl : Limiter W) where
  unfoldable pub host_or : Option Bytes → Bytes → Bytes
  host_or (some host) remote = host
  host_or none remote = remote

  unfoldable pub client_ip : Bytes → Bytes
  client_ip remote = trim_space (host_or (rl.rdb.split_host_port remote) remote)

  unfoldable pub window_key : Bytes → ℕ → Bytes
  window_key remote window =
      rl.key_base
      ++ (codes "rl:ip:" ++ (client_ip remote ++ (codes ":" ++ rl.rdb.format_int window)))

  -- The first request of a window lets the counter expire.
  unfoldable pub start_window : Bytes → ℕ → Action W (Unit {0})
  start_window key count = if count == 1 then (do rl.rdb.expire key 61; pure tt) else pure tt

  -- `none` admits the request; else the seconds of Retry-After.
  unfoldable pub verdict : ℕ → Action W (Result (Option ℕ))
  verdict count =
      if ltb rl.per_minute count
      then (do now ← rl.rdb.unix_now; pure (ok (some (retry_after now))))
      else pure (ok none)

  unfoldable pub counted : Bytes → Reply ℕ → Action W (Result (Option ℕ))
  unfolding start_window verdict
  counted key nil = pure (err driver)
  counted key fail = pure (err driver)
  counted key (reply count) = do start_window key count; verdict count

  unfoldable pub allow : Bytes → Action W (Result (Option ℕ))
  unfolding counted
  allow remote = do
    now ← rl.rdb.unix_now
    r ← rl.rdb.incr (window_key remote (now / 60))
    counted (window_key remote (now / 60)) r

module _ {W : Type 0} (p : Platform W) (rl : Limiter W) where
  unfoldable pub passed : {A : Type 0} → Action W A → Result (Option ℕ) → Action W (Passage A)
  passed next (err e) = do p.inc rate_limit_fail_open; a ← next; pure (served a)
  passed next (ok (some seconds)) = pure (refused 429 seconds)
  passed next (ok none) = do a ← next; pure (served a)

  unfoldable pub middleware : {A : Type 0} → Action W A → Bytes → Action W (Passage A)
  unfolding passed
  middleware next remote = do r ← allow rl remote; passed next r
