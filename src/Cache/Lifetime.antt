-- ===== src/Cache/Lifetime.antt =====
-- How long Set of url_cache.go lets an entry live.
use url_shortener.Common.{
  ℕ, ◌+◌, ◌≤◌, ◌<◌, ◌≡◌, ◌⊎◌, inl, inr, refl, Bytes, Option, none, some, Bool-cases, Option-cases,
  leb, arith,
}
use url_shortener.Model.{Url}
use url_shortener.World.{View, Quiet, Quiet-refl}
use url_shortener.World.Platform.{Platform, PlatformLaws}
use url_shortener.World.Redis.{RedisLaws}
use url_shortener.Cache
use url_shortener.Cache.{UrlCache, cache_ttl, url_key, store, ttl_for}
use url_shortener.Cache.Laws.{ttl_bounds, ttl-Quiet}

module _ {W : Type 0} (v : View W) (p : Platform W) (c : UrlCache W) (pl : PlatformLaws v p)
    (rl : RedisLaws v c.rdb) where
  -- No SET was sent, for one of the two reasons that there are.
  pub record IsSkipped (u : Url) (w end : W) : Type 0 where
    pub quiet : Quiet v w end
    pub reason : (p.marshal u ≡ none) ⊎ ((x : ℕ) × (u.expires_at ≡ some x) × (x ≤ v.time end))

  -- One SET was sent, which ends in `end`: the entry of `u` for `ttl` nanoseconds.
  pub record IsStored (code : Bytes) (u : Url) (w end : W) : Type 0 where
    pub raw : Bytes
    pub ttl : ℕ
    pub at : W
    pub marshalled : p.marshal u ≡ some raw
    pub positive : 0 < ttl
    pub a_minute : ttl ≤ cache_ttl
    pub in_time : (x : ℕ) → u.expires_at ≡ some x → v.time w + ttl ≤ x
    pub quiet : Quiet v w at
    pub sent : end ≡ (c.rdb.set (url_key c code) raw ttl at).1

  no_time :
      (o : Option ℕ) (w : W)
      → (ttl_for p o w).0 ≤ 0
      → (x : ℕ) × (o ≡ some x) × (x ≤ v.time (ttl_for p o w).1)
  unfolding ttl_for
  no_time none w h = absurd (ground arith)
  no_time (some x) w h = let l = pl.now_earlier w in (x, refl, ground arith)

  -- Set sends one SET, with a positive time to live of at most 60 seconds which is not longer than
  -- the time that the link has left when Set is called; or it sends none, and then the link cannot be
  -- marshalled or has expired by the time Set returns.
  pub set_lifetime :
      (code : Bytes) (u : Url) (w : W)
      → IsStored code u w (Cache.set p c code u w).1 ⊎ IsSkipped u w (Cache.set p c code u w).1
  unfolding Cache.set
  set_lifetime code u w = elim (Option-cases (p.marshal u)) [
    | inl e ↦ rw (e, Cache.set) (inr (record { quiet = Quiet-refl w; reason = inl e }))
    | inr (raw, e) ↦ rw (e, Cache.set) (stored raw e)
  ]
    where
      stored :
          (raw : Bytes)
          → p.marshal u ≡ some raw
          → IsStored code u w
              (store c code raw (ttl_for p u.expires_at w).0 (ttl_for p u.expires_at w).1).1
            ⊎ IsSkipped u w
                (store c code raw (ttl_for p u.expires_at w).0 (ttl_for p u.expires_at w).1).1
      stored raw e =
          unfold store in
          elim (Bool-cases (leb (ttl_for p u.expires_at w).0 0)) [
            | inl z ↦ rw z (
                inr (record {
                  quiet = ttl-Quiet v p c pl rl u.expires_at w;
                  reason = inr (no_time u.expires_at w (ground arith));
                }))
            | inr z ↦
                let (a, b) = ttl_bounds v p c pl rl u.expires_at w in
                let some_time : 0 < (ttl_for p u.expires_at w).0 = ground arith in
                rw z (
                  inl (record {
                    raw = raw;
                    ttl = (ttl_for p u.expires_at w).0;
                    at = (ttl_for p u.expires_at w).1;
                    marshalled = e;
                    positive = some_time;
                    a_minute = a;
                    in_time = λ x h. b x h some_time;
                    quiet = ttl-Quiet v p c pl rl u.expires_at w;
                    sent = refl;
                  }))
          ]
