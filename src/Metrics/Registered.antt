-- ===== src/Metrics/Registered.antt =====
-- The names of the collectors.
use url_shortener.Common.{
  ◌≡◌, refl, sym, ap, ◌∙◌, Bool, true, not, ◌&&◌, Bytes, codes, List, [], ◌∷◌, ◌++◌, Option, none,
  some, some_inj, text_eq, has_prefix, if◌then◌else◌,
}
use url_shortener.World.Platform.{
  Counter, cache_hits, cache_misses, cache_fail_open, rate_limit_fail_open, events_published,
  events_dropped, events_failed, analytics_processed, analytics_deduped, idempotency_replays,
  idempotency_skipped,
}
use url_shortener.Metrics.{Collector, collector_of, http_requests, registered}

-- No collector of the list has this name.
unfoldable pub is_new : Bytes → List Collector → Bool
unfolding text_eq
is_new name [] = true
is_new name (c ∷ rest) = not (text_eq name c.name) && is_new name rest

-- The names differ from each other, and none is one of the runtime and process collectors that the
-- default registry holds already, which begin with `go_` and `process_`.
unfoldable pub are_registrable : List Collector → Bool
unfolding is_new has_prefix
are_registrable [] = true
are_registrable (c ∷ rest) =
    (not (has_prefix c.name (codes "go_")) && not (has_prefix c.name (codes "process_")))
    && (is_new c.name rest && are_registrable rest)

unfoldable every_counter : List Counter
every_counter =
    cache_hits ∷ cache_misses ∷ cache_fail_open ∷ rate_limit_fail_open ∷ events_published
    ∷ events_dropped ∷ events_failed ∷ analytics_processed ∷ analytics_deduped ∷ idempotency_replays
    ∷ idempotency_skipped ∷ []

-- The counter of the list with this name.
unfoldable named : Bytes → List Counter → Option Counter
unfolding text_eq
named name [] = none
named name (c ∷ rest) =
    let next = named name rest in if text_eq (collector_of c).name name then some c else next

named_self : (c : Counter) → named (collector_of c).name every_counter ≡ some c
unfolding named every_counter collector_of text_eq
named_self cache_hits = refl
named_self cache_misses = refl
named_self cache_fail_open = refl
named_self rate_limit_fail_open = refl
named_self events_published = refl
named_self events_dropped = refl
named_self events_failed = refl
named_self analytics_processed = refl
named_self analytics_deduped = refl
named_self idempotency_replays = refl
named_self idempotency_skipped = refl

name_inj : (c d : Counter) → (collector_of c).name ≡ (collector_of d).name → c ≡ d
name_inj c d e = some_inj (sym (named_self c) ∙ ap (λ n. named n every_counter) e ∙ named_self d)

-- The collector stands in the list.
abbrev pub Contains : List Collector → Collector → Type 0
Contains cs c =
    (before : List Collector) × ((behind : List Collector) × (cs ≡ before ++ (c ∷ behind)))

counter_contained : (c : Counter) → Contains registered (collector_of c)
unfolding registered
counter_contained cache_hits = ([], (_, refl))
counter_contained cache_misses = (collector_of cache_hits ∷ [], (_, refl))
counter_contained cache_fail_open =
    (collector_of cache_hits ∷ collector_of cache_misses ∷ [], (_, refl))
counter_contained rate_limit_fail_open = (
  collector_of cache_hits ∷ collector_of cache_misses ∷ collector_of cache_fail_open ∷ [],
  (_, refl),
)
counter_contained events_published = (
  collector_of cache_hits
      ∷ collector_of cache_misses
      ∷ collector_of cache_fail_open
      ∷ collector_of rate_limit_fail_open
      ∷ [],
  (_, refl),
)
counter_contained events_dropped = (
  collector_of cache_hits
      ∷ collector_of cache_misses
      ∷ collector_of cache_fail_open
      ∷ collector_of rate_limit_fail_open
      ∷ collector_of events_published
      ∷ [],
  (_, refl),
)
counter_contained events_failed = (
  collector_of cache_hits
      ∷ collector_of cache_misses
      ∷ collector_of cache_fail_open
      ∷ collector_of rate_limit_fail_open
      ∷ collector_of events_published
      ∷ collector_of events_dropped
      ∷ [],
  (_, refl),
)
counter_contained analytics_processed = (
  collector_of cache_hits
      ∷ collector_of cache_misses
      ∷ collector_of cache_fail_open
      ∷ collector_of rate_limit_fail_open
      ∷ collector_of events_published
      ∷ collector_of events_dropped
      ∷ collector_of events_failed
      ∷ [],
  (_, refl),
)
counter_contained analytics_deduped = (
  collector_of cache_hits
      ∷ collector_of cache_misses
      ∷ collector_of cache_fail_open
      ∷ collector_of rate_limit_fail_open
      ∷ collector_of events_published
      ∷ collector_of events_dropped
      ∷ collector_of events_failed
      ∷ collector_of analytics_processed
      ∷ [],
  (_, refl),
)
counter_contained idempotency_replays = (
  collector_of cache_hits
      ∷ collector_of cache_misses
      ∷ collector_of cache_fail_open
      ∷ collector_of rate_limit_fail_open
      ∷ collector_of events_published
      ∷ collector_of events_dropped
      ∷ collector_of events_failed
      ∷ collector_of analytics_processed
      ∷ collector_of analytics_deduped
      ∷ http_requests
      ∷ [],
  (_, refl),
)
counter_contained idempotency_skipped = (
  collector_of cache_hits
      ∷ collector_of cache_misses
      ∷ collector_of cache_fail_open
      ∷ collector_of rate_limit_fail_open
      ∷ collector_of events_published
      ∷ collector_of events_dropped
      ∷ collector_of events_failed
      ∷ collector_of analytics_processed
      ∷ collector_of analytics_deduped
      ∷ http_requests
      ∷ collector_of idempotency_replays
      ∷ [],
  (_, refl),
)

-- MustRegister finds no two collectors of one name, and none with a name of the collectors that the
-- registry holds already. Every counter that the program increments is among those that are
-- registered, and different counters have different names.
pub registered_lem :
    (are_registrable registered ≡ true)
    × (((c : Counter) → Contains registered (collector_of c))
        × ((c d : Counter) → (collector_of c).name ≡ (collector_of d).name → c ≡ d))
unfolding registered are_registrable is_new has_prefix text_eq collector_of http_requests
registered_lem = (refl, (counter_contained, name_inj))
