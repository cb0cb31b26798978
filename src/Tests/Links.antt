-- ===== src/Tests/Links.antt =====
-- The theorems on Resolve and Delete, in a world with one link that expires and one that does not.
use url_shortener.Common.{
  ◌⊎◌, ◌≡◌, refl, true, Bytes, codes, [], ◌∷◌, Option, none, some, arith, some_inj, text_eq,
}
use url_shortener.Errors.{Error, sentinel, ok, err, is, not_found, repository_not_found}
use url_shortener.Model.{Url}
use url_shortener.Cache
use url_shortener.Cache.Lifetime.{IsStored, IsSkipped, set_lifetime}
use url_shortener.Cache.{UrlCache, url_key}
use url_shortener.Idempotency.{IdemStore}
use url_shortener.Repository
use url_shortener.Repository.{found, deleted}
use url_shortener.Service.Store.{url_repository}
use url_shortener.Service.Store.Exact.{IsExact, url_repository-IsExact}
use url_shortener.Service.Store.Contract.{url_repository-StoreLaws}
use url_shortener.Service.UrlService.{UrlService}
use url_shortener.Service.Resolve.{
  is_expired, use_cached, look_up, remember, from_row, from_store, resolved, resolve, evict,
  after_delete, delete,
}
use url_shortener.Service.Resolve.Coherence.{IsCoherent, ServiceLaws, resolve-IsCoherent}
use url_shortener.Service.Resolve.Outcome.{IsAnswering}
use url_shortener.Service.Resolve.Complete.{IsDue, resolve_complete}
use url_shortener.Service.Resolve.Deletion.{IsEvicting, delete-IsCoherent, resolve-delete}
use url_shortener.Tests.Sandbox.{Sand, find, view, platform, redis, postgres, selected}
use url_shortener.Tests.Sandbox.Laws.{sand-PlatformLaws, sand-RedisLaws, sand-PostgresLaws}

abbrev pub url_cache : UrlCache Sand
url_cache = record { rdb = redis; key_base = codes "us:" }

abbrev pub idem_store : IdemStore Sand
idem_store = record { rdb = redis; key_base = codes "us:"; resp_ttl = 86_400; lock_ttl = 10 }

abbrev pub service : UrlService Sand Bytes
service = record {
  store = url_repository postgres;
  cache = some url_cache;
  idem = some idem_store;
  base_url = codes "sho.rt";
  block_domain = codes "sho.rt";
}

abbrev pub docs : Url
docs = record {
  id = 1;
  code = codes "docs";
  long_url = codes "http://a.b";
  expires_at = some 100;
  created_at = 5;
}

abbrev pub world : Sand
world = record { time = 10; keys = λ k. none; rows = docs ∷ []; drafts = λ i. none; next = 2 }

pub service_laws : ServiceLaws view platform service
service_laws = record {
  platform = sand-PlatformLaws;
  cache = λ c e. let same : url_cache ≡ c = some_inj e in rw (← same) sand-RedisLaws;
  store = url_repository-StoreLaws view postgres sand-PostgresLaws;
}

url_repository-IsExact_example : IsExact view postgres (url_repository postgres)
url_repository-IsExact_example = url_repository-IsExact view postgres sand-PostgresLaws

-- The cache is empty.
pub world-IsCoherent : IsCoherent view platform service world
world-IsCoherent c e code raw u live d = absurd (ground arith)

selected_answer :
    (o : Option Url) (e : Error) → found (selected o) ≡ err e → is e repository_not_found ≡ true
unfolding found
selected_answer none e h = ground arith
selected_answer (some u) e h = absurd (ground arith)

pub store-IsAnswering : IsAnswering (url_repository postgres)
unfolding Repository.get_by_code
store-IsAnswering c w e h = selected_answer _ e h

-- After one Resolve the link is in the cache.
abbrev warm : Sand
warm = (resolve platform service (codes "docs") world).1

resolve-IsCoherent_example : IsCoherent view platform service warm
resolve-IsCoherent_example =
    resolve-IsCoherent view platform service service_laws (codes "docs") world world-IsCoherent

resolves : (resolve platform service (codes "docs") world).0 ≡ ok docs
unfolding resolve look_up use_cached from_store from_row remember resolved is_expired Cache.get
    Cache.decode Cache.set Cache.store Cache.ttl_for Cache.replied Cache.url_key
    Repository.get_by_code found find text_eq
resolves = refl

resolve_complete_example :
    IsDue
      (find (codes "gone") (docs ∷ []))
      10
      (resolve platform service (codes "gone") world).1.time
      (resolve platform service (codes "gone") world).0
resolve_complete_example =
    resolve_complete view platform service service_laws (codes "gone") world world-IsCoherent
      store-IsAnswering

evicts :
    IsEvicting service
      (codes "docs")
      ((url_repository postgres).delete_by_code (codes "docs") world).1
unfolding Cache.delete Cache.replied
evicts c e = let same : url_cache ≡ c = some_inj e in rw (← same) refl

deletes : (delete platform service (codes "docs") world).0 ≡ ok tt
unfolding delete after_delete evict Repository.delete_by_code deleted find text_eq
deletes = refl

delete-IsCoherent_example :
    IsCoherent view platform service (delete platform service (codes "docs") world).1
delete-IsCoherent_example =
    delete-IsCoherent view platform service service_laws (codes "docs") world world-IsCoherent
      evicts deletes

resolve-delete_example :
    (resolve platform service (codes "docs") (delete platform service (codes "docs") world).1).0
    ≡ err (sentinel not_found)
resolve-delete_example =
    resolve-delete view platform service service_laws (codes "docs") world world-IsCoherent
      store-IsAnswering evicts deletes

set_lifetime_example :
    IsStored view platform url_cache sand-PlatformLaws sand-RedisLaws
      (codes "docs")
      docs
      world
      (Cache.set platform url_cache (codes "docs") docs world).1
    ⊎ IsSkipped view platform url_cache sand-PlatformLaws sand-RedisLaws docs world
        (Cache.set platform url_cache (codes "docs") docs world).1
set_lifetime_example =
    set_lifetime view platform url_cache sand-PlatformLaws sand-RedisLaws (codes "docs") docs world
