-- ===== src/Repository.antt =====
-- internal/repository/url_repo.go: each method sends one statement, and reads its outcome.
use url_shortener.Common.{ℕ, zero, suc, Bytes, codes, Bool, false, Option, text_eq, if◌then◌else◌}
use url_shortener.Errors.{
  Error, sentinel, wrapped, driver, Result, ok, err, repository_not_found, repository_conflict,
}
use url_shortener.Model.{Url}
use url_shortener.World.{Action, pure, ◌>>=◌}
use url_shortener.World.Postgres.{
  Postgres, PgError, no_rows, pg_error, failure, PgResult, done, failed,
}

-- `errors.As(err, &pgErr) && pgErr.Code == "23505"`
unfoldable pub is_unique_violation : PgError → Bool
is_unique_violation (pg_error state) = text_eq state (codes "23505")
is_unique_violation no_rows = false
is_unique_violation failure = false

unfoldable pub conflict_or : Bytes → PgError → Error
unfolding is_unique_violation
conflict_or context e =
    if is_unique_violation e
    then wrapped (codes "code") (sentinel repository_conflict)
    else wrapped context driver

-- `errors.Is(err, pgx.ErrNoRows)`
unfoldable pub missing_or : PgError → Error
missing_or no_rows = sentinel repository_not_found
missing_or (pg_error state) = wrapped (codes "get url by code") driver
missing_or failure = wrapped (codes "get url by code") driver

unfoldable pub created : PgResult ℕ → Result ℕ
created (done id) = ok id
created (failed e) = err (wrapped (codes "insert url") driver)

unfoldable pub created_with_code : PgResult ℕ → Result ℕ
unfolding conflict_or
created_with_code (done id) = ok id
created_with_code (failed e) = err (conflict_or (codes "insert url with code") e)

-- The test on `ct.RowsAffected()` is the pattern.
unfoldable pub code_set : PgResult ℕ → Result (Unit {0})
unfolding conflict_or
code_set (done zero) = err (wrapped (codes "id") (sentinel repository_not_found))
code_set (done (suc n)) = ok tt
code_set (failed e) = err (conflict_or (codes "set code") e)

unfoldable pub found : PgResult Url → Result Url
unfolding missing_or
found (done u) = ok u
found (failed e) = err (missing_or e)

unfoldable pub deleted : PgResult ℕ → Result (Unit {0})
deleted (done zero) = err (sentinel repository_not_found)
deleted (done (suc n)) = ok tt
deleted (failed e) = err (wrapped (codes "delete url") driver)

module _ {W : Type 0} (pg : Postgres W) where
  unfoldable pub create : Bytes → Option ℕ → Action W (Result ℕ)
  create long_url expires_at = do r ← pg.insert_url long_url expires_at; pure (created r)

  unfoldable pub create_with_code : Bytes → Bytes → Option ℕ → Action W (Result ℕ)
  create_with_code code long_url expires_at = do
    r ← pg.insert_url_with_code code long_url expires_at
    pure (created_with_code r)

  unfoldable pub set_code : ℕ → Bytes → Action W (Result (Unit {0}))
  set_code id code = do r ← pg.update_code code id; pure (code_set r)

  unfoldable pub get_by_code : Bytes → Action W (Result Url)
  get_by_code code = do r ← pg.select_by_code code; pure (found r)

  unfoldable pub delete_by_code : Bytes → Action W (Result (Unit {0}))
  delete_by_code code = do r ← pg.delete_by_code code; pure (deleted r)
