-- ===== src/World/Postgres.antt =====
-- The PostgreSQL driver, github.com/jackc/pgx/v5: the statements of internal/repository/stats_repo.go
-- on `analytics_daily`, and those of internal/repository/url_repo.go
-- on the table `urls` of migrations/0001_init.up.sql.
use url_shortener.Common.{
  ℕ, zero, suc, ◌*◌, ◌/◌, ◌≤◌, ◌≡◌, ◌≢◌, false, Option, none, some, Bytes, text_eq, if◌then◌else◌,
}
use url_shortener.Model.{Url, DailyCount, ReferrerCount}
use url_shortener.World.{Action, View, Draft, Quiet}

pub data PgError : Type 0 where
  -- pgx.ErrNoRows
  no_rows : PgError
  -- *pgconn.PgError with its SQLSTATE
  pg_error : Bytes → PgError
  -- any other error: the connection, the pool, the context
  failure : PgError

pub data PgResult (A : Type 0) : Type 0 where
  done : A → PgResult A
  failed : PgError → PgResult A

-- pgx.Rows, as Next, Scan and Err show them.
pub data Rows (A : Type 0) : Type 0 where
  row : A → Rows A → Rows A
  -- Scan fails on the next row.
  scan_error : Rows A
  -- Next gives no more; Err is an error or not.
  broken end : Rows A

pub record Postgres (W : Type 0) : Type 0 where
  -- INSERT INTO urls (long_url, expires_at) VALUES ($1, $2) RETURNING id
  pub insert_url : Bytes → Option ℕ → Action W (PgResult ℕ)
  -- INSERT INTO urls (code, long_url, expires_at) VALUES ($1, $2, $3) RETURNING id
  pub insert_url_with_code : Bytes → Bytes → Option ℕ → Action W (PgResult ℕ)
  -- UPDATE urls SET code = $1 WHERE id = $2; the number of rows
  pub update_code : Bytes → ℕ → Action W (PgResult ℕ)
  -- SELECT id, code, long_url, expires_at, created_at FROM urls WHERE code = $1
  pub select_by_code : Bytes → Action W (PgResult Url)
  -- DELETE FROM urls WHERE code = $1; the number of rows
  pub delete_by_code : Bytes → Action W (PgResult ℕ)
  -- SELECT coalesce(sum(count), 0) FROM analytics_daily WHERE url_id = $1 AND dim = 'total'
  pub sum_total : ℕ → Action W (PgResult ℕ)
  -- SELECT day, count FROM analytics_daily WHERE url_id = $1 AND dim = 'total' ORDER BY day
  pub select_daily : ℕ → Action W (PgResult (Rows DailyCount))
  -- SELECT value, sum(count) … WHERE url_id = $1 AND dim = 'referrer' GROUP BY value … LIMIT 10
  pub select_referrers : ℕ → Action W (PgResult (Rows ReferrerCount))

-- What a column of type timestamptz keeps of a time in nanoseconds: whole microseconds.
abbrev pub micros : Option ℕ → Option ℕ
micros none = none
micros (some e) = some (e / 1_000 * 1_000)

-- From `w` to `w'` rows may have been added, and no coded row has changed.
pub record Adds {W : Type 0} (v : View W) (w w' : W) : Type 0 where
  pub later : v.time w ≤ v.time w'
  pub fades : (k x : Bytes) → v.live w' k ≡ some x → v.live w k ≡ some x
  pub keeps : (c : Bytes) (u : Url) → v.coded w c ≡ some u → v.coded w' c ≡ some u

-- From `w` to `w'` the row `u` was given its code, which was free.
pub record Gains {W : Type 0} (v : View W) (u : Url) (w w' : W) : Type 0 where
  pub was_free : v.coded w u.code ≡ none
  pub coded : (c : Bytes) → v.coded w' c ≡ (if text_eq u.code c then some u else v.coded w c)

-- From `w` to `w'` at most the row with the code `c` may have gone.
pub record Drops {W : Type 0} (v : View W) (c : Bytes) (w w' : W) : Type 0 where
  pub later : v.time w ≤ v.time w'
  pub fades : (k x : Bytes) → v.live w' k ≡ some x → v.live w k ≡ some x
  pub others : (d : Bytes) → text_eq c d ≡ false → v.coded w' d ≡ v.coded w d

pub record PostgresLaws {W : Type 0} (v : View W) (pg : Postgres W) : Type 0 where
  -- the code of a row is the code by which it is found
  pub code_found : (w : W) (c : Bytes) (u : Url) → v.coded w c ≡ some u → u.code ≡ c
  pub select_quiet : (c : Bytes) (w : W) → Quiet v w (pg.select_by_code c w).1
  pub select_done :
      (c : Bytes) (w : W) (u : Url)
      → (pg.select_by_code c w).0 ≡ PgResult.done u
      → v.coded w c ≡ some u
  pub select_no_rows :
      (c : Bytes) (w : W)
      → (pg.select_by_code c w).0 ≡ PgResult.failed PgError.no_rows
      → v.coded w c ≡ none
  pub insert_adds : (l : Bytes) (e : Option ℕ) (w : W) → Adds v w (pg.insert_url l e w).1
  pub insert_done :
      (l : Bytes) (e : Option ℕ) (w : W) (id : ℕ)
      → (pg.insert_url l e w).0 ≡ PgResult.done id
      → (t : ℕ) × (v.draft (pg.insert_url l e w).1 id
          ≡ some (record { long_url = l; expires_at = micros e; created_at = t }))
        × ((c : Bytes) → v.coded (pg.insert_url l e w).1 c ≡ v.coded w c)
  pub insert_code_adds :
      (c l : Bytes) (e : Option ℕ) (w : W) → Adds v w (pg.insert_url_with_code c l e w).1
  pub insert_code_done :
      (c l : Bytes) (e : Option ℕ) (w : W) (id : ℕ)
      → (pg.insert_url_with_code c l e w).0 ≡ PgResult.done id
      → (t : ℕ) × Gains v
          (record { id = id; code = c; long_url = l; expires_at = micros e; created_at = t })
          w
          (pg.insert_url_with_code c l e w).1
  -- an error that the server reports has rolled the statement back
  pub insert_code_refused :
      (c l : Bytes) (e : Option ℕ) (w : W) (state : Bytes)
      → (pg.insert_url_with_code c l e w).0 ≡ PgResult.failed (PgError.pg_error state)
      → (d : Bytes) → v.coded (pg.insert_url_with_code c l e w).1 d ≡ v.coded w d
  pub update_adds :
      (c : Bytes) (id : ℕ) (w : W) (d : Draft)
      → v.draft w id ≡ some d
      → Adds v w (pg.update_code c id w).1
  pub update_done :
      (c : Bytes) (id : ℕ) (w : W) (d : Draft) (n : ℕ)
      → v.draft w id ≡ some d
      → (pg.update_code c id w).0 ≡ PgResult.done (suc n)
      → Gains v
          (record {
            id = id;
            code = c;
            long_url = d.long_url;
            expires_at = d.expires_at;
            created_at = d.created_at;
          })
          w
          (pg.update_code c id w).1
  pub delete_drops : (c : Bytes) (w : W) → Drops v c w (pg.delete_by_code c w).1
  pub delete_done :
      (c : Bytes) (w : W) (n : ℕ)
      → (pg.delete_by_code c w).0 ≡ PgResult.done n
      → v.coded (pg.delete_by_code c w).1 c ≡ none
  -- a statement that has deleted a row has found one
  pub delete_some :
      (c : Bytes) (w : W) (n : ℕ)
      → (pg.delete_by_code c w).0 ≡ PgResult.done (suc n)
      → v.coded w c ≢ none
  pub delete_none :
      (c : Bytes) (w : W) → (pg.delete_by_code c w).0 ≡ PgResult.done zero → v.coded w c ≡ none
