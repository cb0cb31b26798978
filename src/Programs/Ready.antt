-- ===== src/Programs/Ready.antt =====
-- What has happened when the server starts to listen, and when cmd/migrate has ended well.
use mathlib.Core.Path.{subst}
use url_shortener.Common.{
  ◌≡◌, refl, Bool, true, false, Bytes, codes, List, [], ◌∷◌, ◌++◌, Option, none, some, text_eq, not,
  arith,
}
use url_shortener.Common.Int64.{ℤ}
use url_shortener.Errors.{ok}
use url_shortener.Cache.{UrlCache}
use url_shortener.Idempotency.{IdemStore}
use url_shortener.Config.{Config, load}
use url_shortener.Pool.Answered.{HasAnswered}
use url_shortener.Migrator.Step.{IsKept, DatabaseLaws}
use url_shortener.Migrator.Applied.{AllRecorded, kept_all}
use url_shortener.Service.LongUrl.{UrlLib}
use url_shortener.Service.Store.{UrlStore, url_repository}
use url_shortener.Service.UrlService.{UrlService, check_base, parsed_base, new_url_service}
use url_shortener.Router.{
  Options, no_options, with_rate_limiter, with_recorder, with_instance_id, with_metrics, Parts,
  router,
}
use url_shortener.Router
use url_shortener.Programs.{
  Libraries, Booted, Boot, ready, url_cache, idem_store, redis_options, server_of, with_service,
}

abbrev pub is_some : {A : Type 0} → Option A → Bool
is_some none = false
is_some (some a) = true

-- The service that the constructor makes has the parts that it was given.
module _ {W P : Type 0} (lib : UrlLib P) (store : UrlStore W) (cache : Option (UrlCache W))
    (idem : Option (IdemStore W)) where
  HasParts : UrlService W P → Type 0
  HasParts s = (s.store ≡ store) × ((s.cache ≡ cache) × (s.idem ≡ idem))

  checked_parts :
      (u : P) (s : UrlService W P) → check_base lib store cache idem u ≡ some s → HasParts s
  unfolding check_base HasParts
  checked_parts u s h = ground arith

  parsed_parts :
      (o : Option P) (s : UrlService W P) → parsed_base lib store cache idem o ≡ some s → HasParts s
  unfolding parsed_base
  parsed_parts none s h = absurd (ground arith)
  parsed_parts (some u) s h = checked_parts u s h

  service_parts :
      (base : Bytes) (s : UrlService W P)
      → new_url_service lib store cache idem base ≡ some s
      → HasParts s
  unfolding new_url_service
  service_parts base s h = parsed_parts (lib.parse base) s h

-- The server as it starts to listen.
pub record IsReady {W P C Q R : Type 0} (l : Libraries W P C Q R) (recorded : W → ℤ → Bool)
    (names : List Bytes) (b : Booted W P Q R) (w : W) : Type 0 where
  -- the environment gives its configuration, and the pool was made with it and has answered a ping
  pub loaded : load l.env l.parse_duration ≡ ok b.config
  pub connected : HasAnswered l.pgx b.config.database_url b.config.pg_max_conns b.pool
  -- all migrations are applied
  pub applied : AllRecorded recorded names w
  -- there is a Redis client exactly if an address is configured, whether it answers or not, and the
  -- cache, the idempotency store, the limiter and the recorder are there exactly with it
  pub client : is_some b.rdb ≡ not (text_eq b.config.redis_addr [])
  pub cache : b.urls.cache ≡ url_cache l b.config b.rdb
  pub idem : b.urls.idem ≡ idem_store l b.config b.rdb
  pub limiter : is_some (Router.configured b.options no_options).limiter ≡ is_some b.rdb
  pub recorder : is_some (Router.configured b.options no_options).recorder ≡ is_some b.rdb
  pub metrics : (Router.configured b.options no_options).metrics ≡ true
  -- what listens is the router of this service with these options
  pub address : b.server.addr ≡ codes ":" ++ b.config.app_port
  pub handler : b.server.handler ≡ router (l.parts b.urls b.pool) b.options

module _ {W P C Q R : Type 0} (l : Libraries W P C Q R) (recorded pending : W → ℤ → Bool)
    (names : List Bytes) (laws : (q : Q) → DatabaseLaws (l.database q) recorded pending)
    (files : (q : Q) → (l.database q).files ≡ some names)
    (ping_kept : (r : R) (w : W) → IsKept recorded w (l.redis_ping r w).1)
    (hostname_kept : (w : W) → IsKept recorded w (l.hostname w).1) where
  -- What the last steps of the start need of the steps before them.
  pub record Prepared (cfg : Config) (pool : Q) (rdb : Option R) (w : W) : Type 0 where
    pub loaded : load l.env l.parse_duration ≡ ok cfg
    pub connected : HasAnswered l.pgx cfg.database_url cfg.pg_max_conns pool
    pub applied : AllRecorded recorded names w
    pub client : is_some rdb ≡ not (text_eq cfg.redis_addr [])

  options_lem :
      (cfg : Config) (rdb : Option R) (name : Bytes)
      → (let o =
            Router.configured
              (redis_options l cfg rdb ++ (with_instance_id name ∷ with_metrics ∷ []))
              no_options in
          (is_some o.limiter ≡ is_some rdb)
          × ((is_some o.recorder ≡ is_some rdb) × (o.metrics ≡ true)))
  unfolding redis_options Router.configured no_options with_rate_limiter with_recorder
      with_instance_id with_metrics
  options_lem cfg none name = (refl, (refl, refl))
  options_lem cfg (some r) name = (refl, (refl, refl))

  server-IsReady :
      (cfg : Config) (pool : Q) (rdb : Option R) (urls : UrlService W P) (name : Bytes) (w : W)
      → Prepared cfg pool rdb w
      → HasParts l.lib
          (url_repository (l.postgres pool))
          (url_cache l cfg rdb)
          (idem_store l cfg rdb)
          urls
      → IsReady l recorded names (server_of l cfg pool rdb urls name) w
  unfolding server_of HasParts
  server-IsReady cfg pool rdb urls name w p (s, (c, i)) =
      let (a, (b, m)) = options_lem cfg rdb name in
      record {
        loaded = p.loaded;
        connected = p.connected;
        applied = p.applied;
        client = p.client;
        cache = c;
        idem = i;
        limiter = a;
        recorder = b;
        metrics = m;
        address = refl;
        handler = refl;
      }

  -- A part of the start that ends well leaves a server that is ready.
  abbrev pub EndsReady : Boot (Booted W P Q R) × W → Type 0
  EndsReady r = (b : Booted W P Q R) → r.0 ≡ ready b → IsReady l recorded names b r.1

  ready_inj : {A : Type 0} {a b : A} → ready a ≡ ready b → a ≡ b
  ready_inj h = ground arith

  pub with_service_ready :
      (cfg : Config) (pool : Q) (rdb : Option R) (o : Option (UrlService W P)) (w : W)
      → Prepared cfg pool rdb w
      → new_url_service l.lib
          (url_repository (l.postgres pool))
          (url_cache l cfg rdb)
          (idem_store l cfg rdb)
          cfg.base_url
        ≡ o
      → EndsReady (with_service l cfg pool rdb o w)
  unfolding with_service
  with_service_ready cfg pool rdb none w p e b h = absurd (ground arith)
  with_service_ready cfg pool rdb (some urls) w p e b h =
      subst (λ x. IsReady l recorded names x (l.hostname w).1) (ready_inj h)
        (server-IsReady cfg pool rdb urls (l.hostname w).0 (l.hostname w).1
          (record {
            loaded = p.loaded;
            connected = p.connected;
            applied =
                kept_all (l.database pool) recorded pending (laws pool) names (hostname_kept w)
                  p.applied;
            client = p.client;
          })
          (service_parts l.lib _ _ _ cfg.base_url urls e))
