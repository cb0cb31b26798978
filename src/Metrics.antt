-- ===== src/Metrics.antt =====
-- internal/metrics/metrics.go: the collectors that init registers, and the readers of counters.
pub mod Registered
use url_shortener.Common.{ℕ, Bytes, codes, List, [], ◌∷◌, Option, none, some}
use url_shortener.World.Platform.{
  Counter, cache_hits, cache_misses, cache_fail_open, rate_limit_fail_open, events_published,
  events_dropped, events_failed, analytics_processed, analytics_deduped, idempotency_replays,
  idempotency_skipped,
}

pub data Kind : Type 0 where
  -- a CounterVec with its label
  counter_vec : Bytes → Kind
  counter : Kind
  -- a Histogram with prometheus.DefBuckets
  histogram : Kind

pub record Collector : Type 0 where
  pub name : Bytes
  pub help : Bytes
  pub kind : Kind

-- The variable of a counter that the program increments.
unfoldable pub collector_of : Counter → Collector
collector_of cache_hits = record {
  name = codes "url_cache_hits_total";
  help = codes "Cache hits, labelled by cache layer.";
  kind = counter_vec (codes "layer");
}
collector_of cache_misses = record {
  name = codes "url_cache_misses_total";
  help = codes "Cache misses, labelled by cache layer.";
  kind = counter_vec (codes "layer");
}
collector_of cache_fail_open = record {
  name = codes "url_cache_fail_open_total";
  help = codes "Cache-like layer fell back to the source of truth.";
  kind = counter_vec (codes "layer");
}
collector_of rate_limit_fail_open = record {
  name = codes "url_ratelimit_fail_open_total";
  help = codes "Rate limiter allowed a request because Redis was unreachable.";
  kind = counter;
}
collector_of events_published = record {
  name = codes "url_events_published_total";
  help = codes "Analytics events appended to the Redis stream.";
  kind = counter;
}
collector_of events_dropped = record {
  name = codes "url_events_dropped_total";
  help = codes "Analytics events dropped because the outgoing buffer was full.";
  kind = counter;
}
collector_of events_failed = record {
  name = codes "url_events_failed_total";
  help = codes "Analytics events that could not be appended to Redis.";
  kind = counter;
}
collector_of analytics_processed = record {
  name = codes "url_analytics_processed_total";
  help = codes "Analytics events aggregated into PostgreSQL by the worker.";
  kind = counter;
}
collector_of analytics_deduped = record {
  name = codes "url_analytics_deduped_total";
  help = codes "Analytics events skipped as duplicates.";
  kind = counter;
}
collector_of idempotency_replays = record {
  name = codes "url_idempotency_replays_total";
  help = codes "Create requests answered with a previously stored short code.";
  kind = counter;
}
collector_of idempotency_skipped = record {
  name = codes "url_idempotency_skipped_total";
  help = codes "Create requests that bypassed the idempotency store because it was unreachable.";
  kind = counter;
}

unfoldable pub http_requests : Collector
http_requests = record {
  name = codes "url_http_request_duration_seconds";
  help = codes "HTTP request duration in seconds (measured at the router).";
  kind = histogram;
}

-- The arguments of MustRegister.
unfoldable pub registered : List Collector
unfolding collector_of http_requests
registered =
    collector_of cache_hits
    ∷ collector_of cache_misses
    ∷ collector_of cache_fail_open
    ∷ collector_of rate_limit_fail_open
    ∷ collector_of events_published
    ∷ collector_of events_dropped
    ∷ collector_of events_failed
    ∷ collector_of analytics_processed
    ∷ collector_of analytics_deduped
    ∷ http_requests
    ∷ collector_of idempotency_replays
    ∷ collector_of idempotency_skipped
    ∷ []
