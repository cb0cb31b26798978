-- ===== src/Programs/Started.antt =====
-- The start of the server and of cmd/migrate, from the first step to the last.
use url_shortener.Common.{
  ◌≡◌, inl, inr, refl, Bool, Bool-cases, Bytes, List, [], some, text_eq, not, arith,
}
use url_shortener.Common.Int64.{ℤ}
use url_shortener.Errors.{Result, ok, err}
use url_shortener.Config.{Config, load}
use url_shortener.Pool.{new_pool}
use url_shortener.Pool.Answered.{HasAnswered, new_pool_ok}
use url_shortener.Migrator
use url_shortener.Migrator.Step.{IsKept, DatabaseLaws}
use url_shortener.Migrator.Applied.{AllRecorded, kept_all, apply_ok}
use url_shortener.Programs.{
  exit_zero, Libraries, Booted, Boot, ready, connect_redis, migrated, with_pool, configured, boot,
}
use url_shortener.Programs.Migrate.{
  migrate_applied, migrate_with_pool, migrate_configured, migrate_main,
}
use url_shortener.Programs.Ready.{is_some, IsReady, EndsReady, with_service_ready}

module _ {W P C Q R : Type 0} (l : Libraries W P C Q R) (recorded pending : W → ℤ → Bool)
    (names : List Bytes) (laws : (q : Q) → DatabaseLaws (l.database q) recorded pending)
    (files : (q : Q) → (l.database q).files ≡ some names)
    (ping_kept : (r : R) (w : W) → IsKept recorded w (l.redis_ping r w).1)
    (hostname_kept : (w : W) → IsKept recorded w (l.hostname w).1) where
  connect_lem :
      (cfg : Config) (w : W)
      → (is_some (connect_redis l cfg w).0 ≡ not (text_eq cfg.redis_addr []))
        × IsKept recorded w (connect_redis l cfg w).1
  unfolding connect_redis
  connect_lem cfg w = elim (Bool-cases (text_eq cfg.redis_addr [])) [
    | inl e ↦ rw e (refl, λ n h. h)
    | inr e ↦ rw e (refl, ping_kept _ w)
  ]

  IsEndingReady : Boot (Booted W P Q R) × W → Type 0
  IsEndingReady = EndsReady l recorded pending names laws files ping_kept hostname_kept

  migrated_ready :
      (cfg : Config) (pool : Q) (r : Result (Unit {0})) (w : W)
      → load l.env l.parse_duration ≡ ok cfg
      → HasAnswered l.pgx cfg.database_url cfg.pg_max_conns pool
      → (r ≡ ok tt → AllRecorded recorded names w)
      → IsEndingReady (migrated l cfg pool r w)
  unfolding migrated IsEndingReady
  migrated_ready cfg pool (err e) w loaded connected applied b h = absurd (ground arith)
  migrated_ready cfg pool (ok tt) w loaded connected applied b h =
      let (c, k) = connect_lem cfg w in
      with_service_ready l recorded pending names laws files ping_kept hostname_kept cfg pool
        (connect_redis l cfg w).0 _ (connect_redis l cfg w).1
        (record {
          loaded = loaded;
          connected = connected;
          applied = kept_all (l.database pool) recorded pending (laws pool) names k (applied refl);
          client = c;
        })
        refl b h

  applied_all :
      (pool : Q) (w : W)
      → (Migrator.apply (l.database pool) w).0 ≡ ok tt
      → AllRecorded recorded names (Migrator.apply (l.database pool) w).1
  applied_all pool w h =
      apply_ok (l.database pool) recorded pending (laws pool) names w (files pool) h

  with_pool_ready :
      (cfg : Config) (r : Result Q) (x w : W)
      → load l.env l.parse_duration ≡ ok cfg
      → (new_pool l.pgx cfg.database_url cfg.pg_max_conns x).0 ≡ r
      → IsEndingReady (with_pool l cfg r w)
  unfolding with_pool IsEndingReady
  with_pool_ready cfg (err e) x w loaded connected b h = absurd (ground arith)
  with_pool_ready cfg (ok pool) x w loaded connected b h =
      migrated_ready cfg pool _ _ loaded (new_pool_ok l.pgx _ _ pool x connected)
        (applied_all pool w) b h

  configured_ready :
      (r : Result Config) (w : W)
      → load l.env l.parse_duration ≡ r
      → IsEndingReady (configured l r w)
  unfolding configured IsEndingReady
  configured_ready (err e) w loaded b h = absurd (ground arith)
  configured_ready (ok cfg) w loaded b h = with_pool_ready cfg _ w _ loaded refl b h

  -- When the server starts to listen: its configuration was loaded, the pool was made with its URL
  -- and limit and has answered a ping, the version of every migration is recorded as applied, and what listens is the
  -- router with the cache, the idempotency store, the rate limiter and the recorder exactly if
  -- REDIS_ADDR is set, whether or not Redis has answered.
  pub boot-ready :
      (w : W) (b : Booted W P Q R)
      → (boot l w).0 ≡ ready b
      → IsReady l recorded names b (boot l w).1
  unfolding boot IsEndingReady
  boot-ready w b h = configured_ready (load l.env l.parse_duration) w refl b h

  migrate_with_pool_ok :
      (close_kept : (q : Q) (w : W) → IsKept recorded w (l.pgx.close q w).1) (r : Result Q) (w : W)
      → (migrate_with_pool l r w).0 ≡ exit_zero
      → AllRecorded recorded names (migrate_with_pool l r w).1
  unfolding migrate_with_pool
  migrate_with_pool_ok close_kept (err e) w h = absurd (ground arith)
  migrate_with_pool_ok close_kept (ok pool) w h = applied _ _ (applied_all pool w) h
    where
      applied :
          (r : Result (Unit {0})) (x : W)
          → (r ≡ ok tt → AllRecorded recorded names x)
          → (migrate_applied l pool r x).0 ≡ exit_zero
          → AllRecorded recorded names (migrate_applied l pool r x).1
      applied (err e) x a q = absurd (unfold migrate_applied in ground arith)
      applied (ok tt) x a q =
          unfold migrate_applied in
          kept_all (l.database pool) recorded pending (laws pool) names (close_kept pool x) (a refl)

  migrate_configured_ok :
      (close_kept : (q : Q) (w : W) → IsKept recorded w (l.pgx.close q w).1) (r : Result Config)
      (w : W)
      → (migrate_configured l r w).0 ≡ exit_zero
      → AllRecorded recorded names (migrate_configured l r w).1
  unfolding migrate_configured
  migrate_configured_ok close_kept (err e) w h = absurd (ground arith)
  migrate_configured_ok close_kept (ok cfg) w h = migrate_with_pool_ok close_kept _ _ h

  -- When cmd/migrate exits with status 0, the version of every migration is recorded as applied.
  pub migrate_main_ok :
      (close_kept : (q : Q) (w : W) → IsKept recorded w (l.pgx.close q w).1) (w : W)
      → (migrate_main l w).0 ≡ exit_zero
      → AllRecorded recorded names (migrate_main l w).1
  unfolding migrate_main
  migrate_main_ok close_kept w h =
      migrate_configured_ok close_kept (load l.env l.parse_duration) w h
