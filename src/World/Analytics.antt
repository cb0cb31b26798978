-- ===== src/World/Analytics.antt =====
-- The clients of the worker: the stream commands of github.com/redis/go-redis/v9, and the statements
-- of internal/consumer/consumer.go on `idempotency_records`, `urls` and `analytics_daily`.
use url_shortener.Common.{ℕ, ◌≡◌, Bool, List, Option, Bytes}
use url_shortener.Common.Int64.{ℤ}
use url_shortener.World.{Action}
use url_shortener.World.Redis.{Reply}
use url_shortener.World.Postgres.{PgResult}

-- redis.XMessage; go-redis gives every value as a string.
pub record Message : Type 0 where
  pub id : Bytes
  pub values : List (Bytes × Bytes)

-- The values of the column `dim` that the worker writes.
pub data Dim : Type 0 where
  total referrer : Dim

-- A row of `analytics_daily`.
pub record Key : Type 0 where
  pub url_id : ℕ
  pub day : Bytes
  pub dim : Dim
  pub value : Bytes

pub record Worker (W : Type 0) : Type 0 where
  -- XGROUP CREATE stream analytics 0 MKSTREAM; an error with its text
  pub create_group : Action W (Option Bytes)
  -- XREADGROUP GROUP analytics worker-0 COUNT n STREAMS stream >, blocking or not
  pub read_group : ℕ → Bool → Action W (Reply (List (List Message)))
  -- XACK stream analytics id
  pub ack : Bytes → Action W (Reply (Unit {0}))
  -- INSERT INTO idempotency_records … ON CONFLICT (key, scope) DO NOTHING; the number of rows
  pub insert_claim : Bytes → Action W (PgResult ℕ)
  -- SELECT id FROM urls WHERE code = $1
  pub select_id : Bytes → Action W (PgResult ℕ)
  -- INSERT INTO analytics_daily … VALUES (…, 1) ON CONFLICT … DO UPDATE SET count = count + 1
  pub upsert : Key → Action W (PgResult (Unit {0}))
  -- time.Unix(sec, 0).UTC().Format("2006-01-02")
  pub format_day : ℤ → Bytes
  -- time.Now().Unix()
  pub unix_now : Action W ℤ

-- What can be seen of a world: the counters, and the event ids that are claimed or acknowledged.
pub record Tally (W : Type 0) : Type 0 where
  pub count : W → Key → ℕ
  pub is_claimed : W → Bytes → Bool
  pub is_acked : W → Bytes → Bool

-- From `w` to `w'` no counter, no claim and no acknowledgement has changed.
pub record IsStill {W : Type 0} (t : Tally W) (w w' : W) : Type 0 where
  pub same_count : (k : Key) → t.count w' k ≡ t.count w k
  pub same_claims : (i : Bytes) → t.is_claimed w' i ≡ t.is_claimed w i
  pub same_acks : (i : Bytes) → t.is_acked w' i ≡ t.is_acked w i
