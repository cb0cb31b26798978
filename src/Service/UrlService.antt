-- ===== src/Service/UrlService.antt =====
-- The type URLService of internal/service/url.go and its constructor.
use url_shortener.Common.{Bool, Bytes, codes, [], Option, none, some, text_eq, not, if◌then◌else◌}
use url_shortener.Cache.{UrlCache}
use url_shortener.Idempotency.{IdemStore}
use url_shortener.Service.Store.{UrlStore}
use url_shortener.Service.LongUrl.{UrlLib}

-- `none` stands for a nil cache or a nil idempotency store, which disable these.
pub record UrlService (W P : Type 0) : Type 0 where
  pub store : UrlStore W
  pub cache : Option (UrlCache W)
  pub idem : Option (IdemStore W)
  pub base_url : P
  pub block_domain : Bytes

unfoldable pub has_http_scheme : {P : Type 0} → UrlLib P → P → Bool
has_http_scheme lib u =
    if text_eq (lib.scheme u) (codes "http")
    then Bool.true
    else text_eq (lib.scheme u) (codes "https")

module _ {W P : Type 0} (lib : UrlLib P) where
  unfoldable pub check_base :
      UrlStore W → Option (UrlCache W) → Option (IdemStore W) → P → Option (UrlService W P)
  check_base store cache idem u =
      if not (has_http_scheme lib u)
      then none
      else if text_eq (lib.host u) []
      then none
      else some (record {
        store = store;
        cache = cache;
        idem = idem;
        base_url = u;
        block_domain = lib.host u;
      })

  unfoldable pub parsed_base :
      UrlStore W → Option (UrlCache W) → Option (IdemStore W) → Option P → Option (UrlService W P)
  unfolding check_base
  parsed_base store cache idem none = none
  parsed_base store cache idem (some u) = check_base store cache idem u

  -- `none` is an error; the logger is left out.
  unfoldable pub new_url_service :
      UrlStore W → Option (UrlCache W) → Option (IdemStore W) → Bytes → Option (UrlService W P)
  unfolding parsed_base
  new_url_service store cache idem base_url = parsed_base store cache idem (lib.parse base_url)

  unfoldable pub short_url_for : UrlService W P → Bytes → Bytes
  short_url_for s code = lib.to_string (lib.join_path s.base_url code)
