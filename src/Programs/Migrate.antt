-- ===== src/Programs/Migrate.antt =====
-- cmd/migrate/main.go
use url_shortener.Errors.{Result, ok, err}
use url_shortener.World.{Action, pure, ◌>>=◌, ◌>>◌}
use url_shortener.Config.{Config, load}
use url_shortener.Pool.{new_pool}
use url_shortener.Migrator
use url_shortener.Programs.{
  invalid_configuration, database_failed, migrations_failed, Exit, exit_one, exit_zero, Libraries,
}

module _ {W P C Q R : Type 0} (l : Libraries W P C Q R) where
  unfoldable pub migrate_applied : Q → Result (Unit {0}) → Action W Exit
  migrate_applied pool (err e) = pure (exit_one migrations_failed)
  migrate_applied pool (ok _) = do l.pgx.close pool; pure exit_zero

  unfoldable pub migrate_with_pool : Result Q → Action W Exit
  unfolding migrate_applied
  migrate_with_pool (err e) = pure (exit_one database_failed)
  migrate_with_pool (ok pool) = do r ← Migrator.apply (l.database pool); migrate_applied pool r

  unfoldable pub migrate_configured : Result Config → Action W Exit
  unfolding migrate_with_pool
  migrate_configured (err e) = pure (exit_one invalid_configuration)
  migrate_configured (ok cfg) = do
    pool ← new_pool l.pgx cfg.database_url cfg.pg_max_conns
    migrate_with_pool pool

  -- main of cmd/migrate
  unfoldable pub migrate_main : Action W Exit
  unfolding migrate_configured load
  migrate_main = migrate_configured (load l.env l.parse_duration)
