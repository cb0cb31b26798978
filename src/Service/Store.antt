-- ===== src/Service/Store.antt =====
-- The interface URLStore of internal/service/url.go, what the service relies on, and its
-- implementation by URLRepository.
pub mod Contract
pub mod Exact
use url_shortener.Common.{ℕ, Bytes, Option}
use url_shortener.Errors.{Result}
use url_shortener.Model.{Url, StatsSummary}
use url_shortener.World.{Action}
use url_shortener.World.Postgres.{Postgres}
use url_shortener.Repository
use url_shortener.Statistics

pub record UrlStore (W : Type 0) : Type 0 where
  pub create : Bytes → Option ℕ → Action W (Result ℕ)
  pub create_with_code : Bytes → Bytes → Option ℕ → Action W (Result ℕ)
  pub set_code : ℕ → Bytes → Action W (Result (Unit {0}))
  pub get_by_code : Bytes → Action W (Result Url)
  pub delete_by_code : Bytes → Action W (Result (Unit {0}))
  pub stats_by_url_id : ℕ → Action W (Result StatsSummary)

abbrev pub url_repository : {W : Type 0} → Postgres W → UrlStore W
url_repository pg = record {
  create = Repository.create pg;
  create_with_code = Repository.create_with_code pg;
  set_code = Repository.set_code pg;
  get_by_code = Repository.get_by_code pg;
  delete_by_code = Repository.delete_by_code pg;
  stats_by_url_id = Statistics.stats_by_url_id pg;
}
