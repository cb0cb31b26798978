-- ===== src/Model.antt =====
-- internal/model/url.go and internal/model/stats.go. A time is a number of nanoseconds since the
-- epoch; a missing one is `none`.
use url_shortener.Common.{ℕ, List, Option, Bytes}

pub record Url : Type 0 where
  pub id : ℕ
  pub code : Bytes
  pub long_url : Bytes
  pub expires_at : Option ℕ
  pub created_at : ℕ

pub record DailyCount : Type 0 where
  pub day : ℕ
  pub clicks : ℕ

pub record ReferrerCount : Type 0 where
  pub referrer : Bytes
  pub clicks : ℕ

pub record StatsSummary : Type 0 where
  pub total_clicks : ℕ
  pub daily : List DailyCount
  pub top_referrers : List ReferrerCount
