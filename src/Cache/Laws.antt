-- ===== src/Cache/Laws.antt =====
-- What the operations of url_cache.go do to the world.
use mathlib.Core.List.{append_cancel_left}
use url_shortener.Common.{
  ℕ, ◌+◌, ◌≤◌, ◌<◌, ◌≡◌, ◌⊎◌, inl, inr, refl, Bytes, codes, Option, none, some, Bool-cases,
  Option-cases, leb, arith, ◌∙◌, ap,
}
use url_shortener.Errors.{ok}
use url_shortener.Model.{Url}
use url_shortener.World.{View, Quiet, Quiet-refl, Quiet-trans}
use url_shortener.World.Platform.{Platform, PlatformLaws}
use url_shortener.World.Redis.{Reply, reply, nil, fail, RedisLaws}
use url_shortener.Cache
use url_shortener.Cache.{UrlCache, cache_ttl, url_key, decode, store, ttl_for}

-- Two codes never share a cache key.
pub url_key_injective :
    {W : Type 0} (c : UrlCache W) (a b : Bytes) → url_key c a ≡ url_key c b → a ≡ b
unfolding url_key
url_key_injective c a b h =
    append_cancel_left (codes "url:") a b (append_cancel_left c.key_base _ _ h)

-- From `w` to `w'` time passes, keys may expire, and at most the cache entry of `u` was written.
pub record Remembers {W : Type 0} (v : View W) (p : Platform W) (k : Bytes) (u : Url) (w w' : W)
    : Type 0 where
  pub later : v.time w ≤ v.time w'
  pub fades :
      (j y : Bytes)
      → v.live w' j ≡ some y
      → (v.live w j ≡ some y) ⊎ ((j ≡ k) × (p.unmarshal y ≡ some u))
  pub same_coded : (d : Bytes) → v.coded w' d ≡ v.coded w d
  pub same_draft : (i : ℕ) → v.draft w' i ≡ v.draft w i

module _ {W : Type 0} {v : View W} {p : Platform W} {k : Bytes} {u : Url} where
  pub Quiet→Remembers : {w w' : W} → Quiet v w w' → Remembers v p k u w w'
  Quiet→Remembers q = record {
    later = q.later;
    fades = λ j y h. inl (q.fades j y h);
    same_coded = q.same_coded;
    same_draft = q.same_draft;
  }

  pub Remembers-after : {a b c : W} → Quiet v a b → Remembers v p k u b c → Remembers v p k u a c
  Remembers-after {a} q r = record {
    later = let l = q.later in let m = r.later in omega arith;
    fades = λ j y h. elim (r.fades j y h) [ inl old ↦ inl (q.fades j y old) | inr new ↦ inr new ];
    same_coded = λ d. r.same_coded d ∙ q.same_coded d;
    same_draft = λ i. r.same_draft i ∙ q.same_draft i;
  }

module _ {W : Type 0} (v : View W) (p : Platform W) (c : UrlCache W) (pl : PlatformLaws v p)
    (rl : RedisLaws v c.rdb) where
  decode-Quiet : (r : Reply Bytes) (w : W) → Quiet v w (decode p r w).1
  unfolding decode
  decode-Quiet nil w = pl.inc_quiet _ w
  decode-Quiet fail w = Quiet-refl w
  decode-Quiet (reply raw) w = elim (Option-cases (p.unmarshal raw)) [
    | inl e ↦ rw (e, decode) (Quiet-refl w)
    | inr (u, e) ↦ rw (e, decode) (pl.inc_quiet _ w)
  ]

  pub get-Quiet : (code : Bytes) (w : W) → Quiet v w (Cache.get p c code w).1
  unfolding Cache.get
  get-Quiet code w = Quiet-trans (rl.get_quiet _ w) (decode-Quiet _ _)

  decode_hit :
      (r : Reply Bytes) (w : W) (u : Url)
      → (decode p r w).0 ≡ ok (some u)
      → (raw : Bytes) × (r ≡ reply raw) × (p.unmarshal raw ≡ some u)
  unfolding decode
  decode_hit nil w u h = absurd (ground arith)
  decode_hit fail w u h = absurd (ground arith)
  decode_hit (reply raw) w u h = (raw, refl, ground arith)

  -- A hit is the decoded value of a live key.
  pub get_hit :
      (code : Bytes) (w : W) (u : Url)
      → (Cache.get p c code w).0 ≡ ok (some u)
      → (raw : Bytes) × (v.live w (url_key c code) ≡ some raw) × (p.unmarshal raw ≡ some u)
  unfolding Cache.get
  get_hit code w u h = let (raw, e, d) = decode_hit _ _ u h in (raw, rl.get_live _ w raw e, d)

  pub delete-Quiet : (code : Bytes) (w : W) → Quiet v w (Cache.delete c code w).1
  unfolding Cache.delete
  delete-Quiet code w = rl.del_quiet _ w

  pub ttl-Quiet : (e : Option ℕ) (w : W) → Quiet v w (ttl_for p e w).1
  unfolding ttl_for
  ttl-Quiet none w = Quiet-refl w
  ttl-Quiet (some e) w = pl.now_quiet w

  -- The time to live is at most 60 seconds, and ends no later than the expiry.
  pub ttl_bounds :
      (e : Option ℕ) (w : W)
      → ((ttl_for p e w).0 ≤ cache_ttl)
        × ((x : ℕ) → e ≡ some x → 0 < (ttl_for p e w).0 → v.time w + (ttl_for p e w).0 ≤ x)
  unfolding ttl_for
  ttl_bounds none w = (omega arith, λ x h. absurd (ground arith))
  ttl_bounds (some e) w = let l = pl.now_later w in (ground arith, λ x h. ground arith)

  store-Remembers :
      (code raw : Bytes) (ttl : ℕ) (u : Url) (w : W)
      → p.unmarshal raw ≡ some u
      → Remembers v p (url_key c code) u w (store c code raw ttl w).1
  unfolding store
  store-Remembers code raw ttl u w d = elim (Bool-cases (leb ttl 0)) [
    | inl e ↦ rw e (Quiet→Remembers (Quiet-refl w))
    | inr e ↦ rw e (
        let s = rl.set_writes (url_key c code) raw ttl w in
        record {
          later = s.later;
          fades = λ j y h. elim (s.fades j y h) [
            | inl old ↦ inl old
            | inr (same, text) ↦ inr (same, ap p.unmarshal text ∙ d)
          ];
          same_coded = s.same_coded;
          same_draft = s.same_draft;
        })
  ]

  pub set-Remembers :
      (code : Bytes) (u : Url) (w : W)
      → Remembers v p (url_key c code) u w (Cache.set p c code u w).1
  unfolding Cache.set
  set-Remembers code u w = elim (Option-cases (p.marshal u)) [
    | inl e ↦ rw (e, Cache.set) (Quiet→Remembers (Quiet-refl w))
    | inr (raw, e) ↦
        rw (e, Cache.set)
          (Remembers-after (ttl-Quiet u.expires_at w)
            (store-Remembers code raw _ u _ (pl.unmarshal-marshal u raw e)))
  ]
