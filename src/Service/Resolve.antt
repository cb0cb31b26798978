-- ===== src/Service/Resolve.antt =====
-- Resolve, Delete and GetStats of internal/service/url.go.
pub mod Coherence
pub mod Outcome
pub mod Complete
pub mod Deletion
use url_shortener.Common.{ℕ, Bool, false, Bytes, Option, none, some, leb, if◌then◌else◌}
use url_shortener.Errors.{
  Error, Result, ok, err, sentinel, is, not_found, expired, repository_not_found,
}
use url_shortener.Model.{Url, StatsSummary}
use url_shortener.World.{Action, pure, ◌>>=◌, ◌>>◌}
use url_shortener.World.Platform.{Platform, cache_fail_open}
use url_shortener.Cache
use url_shortener.Cache.{UrlCache}
use url_shortener.Service.UrlService.{UrlService}

-- `if errors.Is(err, repository.ErrNotFound) { return ErrNotFound }; return err`
unfoldable pub not_found_or : Error → Error
not_found_or e = if is e repository_not_found then sentinel not_found else e

module _ {W P : Type 0} (p : Platform W) (s : UrlService W P) where
  -- `ExpiresAt != nil && !ExpiresAt.After(time.Now())`
  unfoldable pub is_expired : Option ℕ → Action W Bool
  is_expired none = pure false
  is_expired (some e) = do t ← p.now; pure (leb e t)

  -- The value to return if the cache has one; an expired entry is evicted.
  unfoldable pub use_cached : UrlCache W → Bytes → Result (Option Url) → Action W (Option Url)
  unfolding is_expired
  use_cached c code (ok none) = pure none
  use_cached c code (ok (some u)) = do
    gone ← is_expired u.expires_at
    if gone then (do Cache.delete c code; pure none) else pure (some u)
  use_cached c code (err e) = do p.inc cache_fail_open; pure none

  unfoldable pub look_up : Option (UrlCache W) → Bytes → Action W (Option Url)
  look_up none code = pure none
  look_up (some c) code = do r ← Cache.get p c code; use_cached c code r

  unfoldable pub remember : Option (UrlCache W) → Bytes → Url → Action W (Unit {0})
  remember none code u = pure tt
  remember (some c) code u = do Cache.set p c code u; pure tt

  unfoldable pub from_row : Bytes → Result Url → Action W (Result Url)
  from_row code (err e) = pure (err (not_found_or e))
  from_row code (ok u) = do
    gone ← is_expired u.expires_at
    if gone then pure (err (sentinel expired)) else (do remember s.cache code u; pure (ok u))

  -- The path through PostgreSQL.
  unfoldable pub from_store : Bytes → Action W (Result Url)
  from_store code = do r ← s.store.get_by_code code; from_row code r

  unfoldable pub resolved : Bytes → Option Url → Action W (Result Url)
  resolved code (some u) = pure (ok u)
  resolved code none = from_store code

  unfoldable pub resolve : Bytes → Action W (Result Url)
  unfolding resolved
  resolve code = do hit ← look_up s.cache code; resolved code hit

  unfoldable pub evict : Option (UrlCache W) → Bytes → Action W (Unit {0})
  evict none code = pure tt
  evict (some c) code = do Cache.delete c code; pure tt

  unfoldable pub after_delete : Bytes → Result (Unit {0}) → Action W (Result (Unit {0}))
  after_delete code (ok _) = do evict s.cache code; pure (ok tt)
  after_delete code (err e) = pure (err (not_found_or e))

  unfoldable pub delete : Bytes → Action W (Result (Unit {0}))
  unfolding after_delete
  delete code = do r ← s.store.delete_by_code code; after_delete code r

  unfoldable pub stats_of : Result Url → Action W (Result StatsSummary)
  stats_of (err e) = pure (err e)
  stats_of (ok u) = s.store.stats_by_url_id u.id

  unfoldable pub get_stats : Bytes → Action W (Result StatsSummary)
  unfolding stats_of
  get_stats code = do r ← resolve code; stats_of r
