-- ===== src/World/Redis.antt =====
-- The Redis client, github.com/redis/go-redis/v9: the commands that the program sends for strings.
use url_shortener.Common.{ℕ, ◌≤◌, ◌≡◌, ◌⊎◌, Bool, none, some, Bytes}
use url_shortener.World.{Action, View, Quiet}

-- `nil` is redis.Nil, `fail` any other error, a time-out included.
pub data Reply (A : Type 0) : Type 0 where
  reply : A → Reply A
  nil : Reply A
  fail : Reply A

pub record Redis (W : Type 0) : Type 0 where
  -- GET k
  pub get : Bytes → Action W (Reply Bytes)
  -- SET k x with a time to live in nanoseconds
  pub set : Bytes → Bytes → ℕ → Action W (Reply (Unit {0}))
  -- SET k x NX with a time to live
  pub set_nx : Bytes → Bytes → ℕ → Action W (Reply Bool)
  -- DEL k
  pub del : Bytes → Action W (Reply (Unit {0}))

-- From `w` to `w'` time passes, keys may expire, and at most `k` may have been written, with `x`.
pub record Writes {W : Type 0} (v : View W) (k x : Bytes) (w w' : W) : Type 0 where
  pub later : v.time w ≤ v.time w'
  pub fades : (j y : Bytes) → v.live w' j ≡ some y → (v.live w j ≡ some y) ⊎ ((j ≡ k) × (y ≡ x))
  pub same_coded : (c : Bytes) → v.coded w' c ≡ v.coded w c
  pub same_draft : (i : ℕ) → v.draft w' i ≡ v.draft w i

pub record RedisLaws {W : Type 0} (v : View W) (r : Redis W) : Type 0 where
  pub get_quiet : (k : Bytes) (w : W) → Quiet v w (r.get k w).1
  pub get_live :
      (k : Bytes) (w : W) (x : Bytes) → (r.get k w).0 ≡ Reply.reply x → v.live w k ≡ some x
  pub set_writes : (k x : Bytes) (d : ℕ) (w : W) → Writes v k x w (r.set k x d w).1
  pub set_nx_writes : (k x : Bytes) (d : ℕ) (w : W) → Writes v k x w (r.set_nx k x d w).1
  pub del_quiet : (k : Bytes) (w : W) → Quiet v w (r.del k w).1
  pub del_gone :
      (k : Bytes) (w : W) → (r.del k w).0 ≡ Reply.reply tt → v.live (r.del k w).1 k ≡ none
