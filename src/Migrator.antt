-- ===== src/Migrator.antt =====
-- internal/repository/migrate.go
pub mod Step
pub mod Applied
pub mod Executed
pub mod Journal
pub mod Again
use url_shortener.Common.{
  ℕ, Bool, true, false, Bytes, codes, List, [], ◌∷◌, ◌++◌, Option, none, some, ◌==◌, ltb,
  if◌then◌else◌, text_eq,
}
use url_shortener.Common.Int64.{ℤ}
use url_shortener.Common.Decimal.{parse_int64}
use url_shortener.Errors.{Error, Result, ok, err, driver, wrapped}
use url_shortener.World.{Action, pure, ◌>>=◌, ◌>>◌}
use url_shortener.World.Postgres.{PgResult, done, failed}

-- What Apply uses: the connection and the directory of the migrations.
pub record Database (W : Type 0) : Type 0 where
  pub acquire : Action W (PgResult (Unit {0}))
  pub release : Action W (Unit {0})
  -- SELECT pg_advisory_lock($1) and pg_advisory_unlock
  pub lock : Action W (PgResult (Unit {0}))
  pub unlock : Action W (Unit {0})
  -- CREATE TABLE IF NOT EXISTS schema_migrations
  pub ensure_table : Action W (PgResult (Unit {0}))
  -- SELECT EXISTS (SELECT 1 FROM schema_migrations WHERE version = $1)
  pub is_recorded : ℤ → Action W (PgResult Bool)
  pub begin : Action W (PgResult (Unit {0}))
  -- the text of a migration
  pub execute : Bytes → Action W (PgResult (Unit {0}))
  -- INSERT INTO schema_migrations (version) VALUES ($1)
  pub insert_version : ℤ → Action W (PgResult (Unit {0}))
  pub rollback : Action W (Unit {0})
  pub commit : Action W (PgResult (Unit {0}))
  -- fs.Glob with *.up.sql, and fs.ReadFile; `none` is an error
  pub files : Option (List Bytes)
  pub read_file : Bytes → Option Bytes

-- The order of Go's strings, byte by byte.
abbrev pub before : Bytes → Bytes → Bool
before [] t = true
before (a ∷ s) [] = false
before (a ∷ s) (b ∷ t) =
    let rest = before s t in if ltb a b then true else if a == b then rest else false

abbrev pub put_in : Bytes → List Bytes → List Bytes
put_in s [] = s ∷ []
put_in s (t ∷ rest) = let behind = put_in s rest in if before s t then s ∷ t ∷ rest else t ∷ behind

-- sort.Strings
unfoldable pub sort_strings : List Bytes → List Bytes
sort_strings [] = []
sort_strings (s ∷ rest) = put_in s (sort_strings rest)

-- What stands before the first `_`, or all of it.
unfoldable pub before_underscore : Bytes → Bytes
before_underscore [] = []
before_underscore (c ∷ s) = let rest = before_underscore s in if c == b'_' then [] else c ∷ rest

-- The text without the suffix `.up.sql`, if it has it.
unfoldable pub trim_up_sql : Bytes → Bytes
trim_up_sql [] = []
trim_up_sql (c ∷ s) =
    let rest = trim_up_sql s in if text_eq (c ∷ s) (codes ".up.sql") then [] else c ∷ rest

unfoldable pub migration_version : Bytes → Option ℤ
migration_version name = parse_int64 (before_underscore (trim_up_sql name))

module _ {W : Type 0} (db : Database W) where
  unfoldable pub committed : Bytes → PgResult (Unit {0}) → Result (Unit {0})
  committed name (failed e) = err (wrapped (codes "commit migration") driver)
  committed name (done _) = ok tt

  unfoldable pub version_inserted : Bytes → PgResult (Unit {0}) → Action W (Result (Unit {0}))
  unfolding committed
  version_inserted name (failed e) = do
    db.rollback
    pure (err (wrapped (codes "record migration") driver))
  version_inserted name (done _) = do r ← db.commit; pure (committed name r)

  unfoldable pub executed : Bytes → ℤ → PgResult (Unit {0}) → Action W (Result (Unit {0}))
  unfolding version_inserted
  executed name version (failed e) = do
    db.rollback
    pure (err (wrapped (codes "apply migration") driver))
  executed name version (done _) = do r ← db.insert_version version; version_inserted name r

  unfoldable pub begun : Bytes → ℤ → Bytes → PgResult (Unit {0}) → Action W (Result (Unit {0}))
  unfolding executed
  begun name version text (failed e) = pure (err (wrapped (codes "begin migration") driver))
  begun name version text (done _) = do r ← db.execute text; executed name version r

  unfoldable pub read : Bytes → ℤ → Option Bytes → Action W (Result (Unit {0}))
  unfolding begun
  read name version none = pure (err (wrapped (codes "read migration") driver))
  read name version (some text) = do r ← db.begin; begun name version text r

  unfoldable pub checked : Bytes → ℤ → PgResult Bool → Action W (Result (Unit {0}))
  unfolding read
  checked name version (failed e) = pure (err (wrapped (codes "check migration") driver))
  checked name version (done true) = pure (ok tt)
  checked name version (done false) = read name version (db.read_file name)

  -- One round of the loop over the files.
  unfoldable pub migrate : Bytes → Option ℤ → Action W (Result (Unit {0}))
  unfolding checked
  migrate name none = pure (err (wrapped (codes "parse migration") driver))
  migrate name (some version) = do r ← db.is_recorded version; checked name version r

  unfoldable pub go_on :
      Action W (Result (Unit {0})) → Result (Unit {0}) → Action W (Result (Unit {0}))
  go_on rest (err e) = pure (err e)
  go_on rest (ok _) = rest

  unfoldable pub migrate_all : List Bytes → Action W (Result (Unit {0}))
  unfolding migrate go_on migration_version
  migrate_all [] = pure (ok tt)
  migrate_all (name ∷ names) =
      let rest = migrate_all names in (do r ← migrate name (migration_version name); go_on rest r)

  unfoldable pub listed : Option (List Bytes) → Action W (Result (Unit {0}))
  unfolding migrate_all sort_strings
  listed none = pure (err (wrapped (codes "list migrations") driver))
  listed (some names) = migrate_all (sort_strings names)

  unfoldable pub with_table : PgResult (Unit {0}) → Action W (Result (Unit {0}))
  unfolding listed
  with_table (failed e) = pure (err (wrapped (codes "ensure schema_migrations") driver))
  with_table (done _) = listed db.files

  -- The deferred unlock runs whatever the result is.
  unfoldable pub with_lock : PgResult (Unit {0}) → Action W (Result (Unit {0}))
  unfolding with_table
  with_lock (failed e) = pure (err (wrapped (codes "acquire advisory lock") driver))
  with_lock (done _) = do t ← db.ensure_table; r ← with_table t; db.unlock; pure r

  -- The deferred release as well.
  unfoldable pub with_connection : PgResult (Unit {0}) → Action W (Result (Unit {0}))
  unfolding with_lock
  with_connection (failed e) = pure (err (wrapped (codes "acquire migration connection") driver))
  with_connection (done _) = do l ← db.lock; r ← with_lock l; db.release; pure r

  unfoldable pub apply : Action W (Result (Unit {0}))
  unfolding with_connection
  apply = do c ← db.acquire; with_connection c
