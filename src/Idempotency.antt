-- ===== src/Idempotency.antt =====
-- internal/idempotency/store.go
pub mod Keys
use url_shortener.Common.{ℕ, ◌++◌, Bool, Bytes, codes, Option, none, some}
use url_shortener.Errors.{Result, ok, err, driver}
use url_shortener.World.{Action, pure, ◌>>=◌}
use url_shortener.World.Redis.{Redis, Reply, reply, nil, fail}

-- 24 hours
abbrev pub resp_ttl : ℕ
resp_ttl = 86_400_000_000_000

-- 10 seconds
abbrev pub lock_ttl : ℕ
lock_ttl = 10_000_000_000

pub record IdemStore (W : Type 0) : Type 0 where
  pub rdb : Redis W
  pub key_base : Bytes
  pub resp_ttl : ℕ
  pub lock_ttl : ℕ

unfoldable pub new_store : {W : Type 0} → Redis W → Bytes → IdemStore W
new_store rdb key_base = record {
  rdb = rdb;
  key_base = key_base;
  resp_ttl = resp_ttl;
  lock_ttl = lock_ttl;
}

-- `none` in a result is an unknown key.
unfoldable pub recorded : Reply Bytes → Result (Option Bytes)
recorded nil = ok none
recorded fail = err driver
recorded (reply raw) = ok (some raw)

unfoldable pub answered : {A : Type 0} → Reply A → Result A
answered (reply a) = ok a
answered nil = err driver
answered fail = err driver

module _ {W : Type 0} (s : IdemStore W) where
  unfoldable pub resp_key : Bytes → Bytes
  resp_key key = s.key_base ++ (codes "idem:resp:" ++ key)

  unfoldable pub lock_key : Bytes → Bytes
  lock_key key = s.key_base ++ (codes "idem:lock:" ++ key)

  unfoldable pub get : Bytes → Action W (Result (Option Bytes))
  unfolding recorded
  get key = do r ← s.rdb.get (resp_key key); pure (recorded r)

  unfoldable pub set : Bytes → Bytes → Action W (Result (Unit {0}))
  unfolding answered
  set key code = do r ← s.rdb.set (resp_key key) code s.resp_ttl; pure (answered r)

  -- SET NX: `true` for the caller that now owns the claim
  unfoldable pub claim : Bytes → Action W (Result Bool)
  unfolding answered
  claim key = do r ← s.rdb.set_nx (lock_key key) (codes "1") s.lock_ttl; pure (answered r)

  unfoldable pub release : Bytes → Action W (Result (Unit {0}))
  unfolding answered
  release key = do r ← s.rdb.del (lock_key key); pure (answered r)
