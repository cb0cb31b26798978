-- ===== src/Service/Resolve/Coherence.antt =====
-- The cache of the service against the rows of PostgreSQL: what Resolve and Delete keep.
use url_shortener.Common.{
  ap, some_inj, ℕ, ◌≡◌, inl, inr, refl, sym, ◌∙◌, Bytes, Bool-cases, Option, none, some,
}
use url_shortener.Errors.{Result, ok, err}
use url_shortener.Model.{Url}
use url_shortener.World.{View, Quiet, Quiet-refl, Quiet-trans}
use url_shortener.World.Platform.{Platform, PlatformLaws}
use url_shortener.World.Redis.{RedisLaws}
use url_shortener.Cache.{UrlCache, url_key}
use url_shortener.Cache.Laws.{Remembers, url_key_injective, get-Quiet, delete-Quiet, set-Remembers}
use url_shortener.Service.Store.Contract.{StoreLaws}
use url_shortener.Service.UrlService.{UrlService}
use url_shortener.Service.Resolve.{
  is_expired, use_cached, look_up, remember, from_row, from_store, resolved, resolve,
}

-- Every cache entry that is live and can be decoded is the row of its code.
abbrev pub IsCoherent : {W P : Type 0} → View W → Platform W → UrlService W P → W → Type 0
IsCoherent v p s w =
    (c : UrlCache _)
    → s.cache ≡ some c
    → (code raw : Bytes) (u : Url) → v.live w (url_key c code) ≡ some raw
    → p.unmarshal raw ≡ some u
    → v.coded w code ≡ some u

-- What the service relies on: the laws of the platform, of Redis and of the store.
pub record ServiceLaws {W P : Type 0} (v : View W) (p : Platform W) (s : UrlService W P)
    : Type 0 where
  pub platform : PlatformLaws v p
  pub cache : (c : UrlCache W) → s.cache ≡ some c → RedisLaws v c.rdb
  pub store : StoreLaws v s.store

module _ {W P : Type 0} (v : View W) (p : Platform W) (s : UrlService W P)
    (laws : ServiceLaws v p s) where
  pub Quiet-IsCoherent : (w w' : W) → Quiet v w w' → IsCoherent v p s w → IsCoherent v p s w'
  Quiet-IsCoherent w w' q h c e code raw u l d =
      q.same_coded code ∙ h c e code raw u (q.fades _ raw l) d

  pub Remembers-IsCoherent :
      (w w' : W) (c : UrlCache W) (code : Bytes) (u : Url)
      → s.cache ≡ some c
      → Remembers v p (url_key c code) u w w'
      → v.coded w code ≡ some u
      → IsCoherent v p s w
      → IsCoherent v p s w'
  Remembers-IsCoherent w w' c code u e q row h c' e' code' raw u' l d =
      elim (q.fades (url_key c' code') raw l) [
        | inl old ↦ q.same_coded code' ∙ h c' e' code' raw u' old d
        | inr (same, new) ↦ same_row (some_inj (sym e' ∙ e)) same (some_inj (sym d ∙ new))
      ]
    where
      same_row :
          {c' : UrlCache W} {code' : Bytes} {u' : Url}
          → c' ≡ c
          → url_key c' code' ≡ url_key c code
          → u' ≡ u
          → v.coded w' code' ≡ some u'
      same_row {code' = code'} ec ek eu =
          let k = url_key_injective c code' code (ap (λ x. url_key x code') (sym ec) ∙ ek) in
          q.same_coded code' ∙ ap (v.coded w) k ∙ row ∙ ap some (sym eu)

  pub expired-Quiet : (e : Option ℕ) (w : W) → Quiet v w (is_expired p s e w).1
  unfolding is_expired
  expired-Quiet none w = Quiet-refl w
  expired-Quiet (some e) w = laws.platform.now_quiet w

  use_cached-Quiet :
      (c : UrlCache W) (e : s.cache ≡ some c) (code : Bytes) (r : Result (Option Url)) (w : W)
      → Quiet v w (use_cached p s c code r w).1
  unfolding use_cached
  use_cached-Quiet c e code (ok none) w = Quiet-refl w
  use_cached-Quiet c e code (ok (some u)) w = elim (Bool-cases (is_expired p s u.expires_at w).0) [
    | inl x ↦
        rw (x, use_cached)
          (Quiet-trans (expired-Quiet u.expires_at w)
            (delete-Quiet v p c laws.platform (laws.cache c e) code _))
    | inr x ↦ rw (x, use_cached) (expired-Quiet u.expires_at w)
  ]
  use_cached-Quiet c e code (err x) w = laws.platform.inc_quiet _ w

  pub look_up-Quiet :
      (o : Option (UrlCache W)) (e : s.cache ≡ o) (code : Bytes) (w : W)
      → Quiet v w (look_up p s o code w).1
  unfolding look_up
  look_up-Quiet none e code w = Quiet-refl w
  look_up-Quiet (some c) e code w =
      Quiet-trans (get-Quiet v p c laws.platform (laws.cache c e) code w)
        (use_cached-Quiet c e code _ _)

  pub remember-IsCoherent :
      (o : Option (UrlCache W)) (e : s.cache ≡ o) (code : Bytes) (u : Url) (w : W)
      → v.coded w code ≡ some u
      → IsCoherent v p s w
      → IsCoherent v p s (remember p s o code u w).1
  unfolding remember
  remember-IsCoherent none e code u w row h = h
  remember-IsCoherent (some c) e code u w row h =
      Remembers-IsCoherent w _ c code u e
        (set-Remembers v p c laws.platform (laws.cache c e) code u w) row h

  from_row-IsCoherent :
      (code : Bytes) (r : Result Url) (w : W)
      → ((u : Url) → r ≡ ok u → v.coded w code ≡ some u)
      → IsCoherent v p s w
      → IsCoherent v p s (from_row p s code r w).1
  unfolding from_row
  from_row-IsCoherent code (err e) w row h = h
  from_row-IsCoherent code (ok u) w row h =
      let q = expired-Quiet u.expires_at w in
      elim (Bool-cases (is_expired p s u.expires_at w).0) [
        | inl x ↦ rw (x, from_row) (Quiet-IsCoherent _ _ q h)
        | inr x ↦
            rw (x, from_row)
              (remember-IsCoherent s.cache refl code u _ (q.same_coded code ∙ row u refl)
                (Quiet-IsCoherent _ _ q h))
      ]

  pub from_store-IsCoherent :
      (code : Bytes) (w : W) → IsCoherent v p s w → IsCoherent v p s (from_store p s code w).1
  unfolding from_store
  from_store-IsCoherent code w h =
      let q = laws.store.get_quiet code w in
      from_row-IsCoherent code _ _ (λ u e. q.same_coded code ∙ laws.store.get_ok code w u e)
        (Quiet-IsCoherent _ _ q h)

  resolved-IsCoherent :
      (code : Bytes) (o : Option Url) (w : W)
      → IsCoherent v p s w
      → IsCoherent v p s (resolved p s code o w).1
  unfolding resolved
  resolved-IsCoherent code none w h = from_store-IsCoherent code w h
  resolved-IsCoherent code (some u) w h = h

  -- Resolve keeps the cache coherent, whatever Redis and PostgreSQL answer.
  pub resolve-IsCoherent :
      (code : Bytes) (w : W) → IsCoherent v p s w → IsCoherent v p s (resolve p s code w).1
  unfolding resolve
  resolve-IsCoherent code w h =
      resolved-IsCoherent code _ _ (Quiet-IsCoherent _ _ (look_up-Quiet s.cache refl code w) h)
