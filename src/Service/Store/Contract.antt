-- ===== src/Service/Store/Contract.antt =====
-- What the service relies on in a URLStore, and that URLRepository keeps it.
use url_shortener.Common.{ℕ, zero, suc, ◌≡◌, refl, Bytes, true, false, Option, none, some, arith}
use url_shortener.Errors.{
  Error, ok, err, is, repository_not_found, not_found, expired, repository_conflict,
}
use url_shortener.Model.{Url}
use url_shortener.World.{View, Draft, Quiet}
use url_shortener.World.Postgres.{
  Postgres, PostgresLaws, no_rows, pg_error, failure, PgResult, done, failed, micros, Adds, Gains,
  Drops,
}
use url_shortener.Repository
use url_shortener.Repository.{found, created, created_with_code, code_set, deleted}
use url_shortener.Service.Store.{UrlStore, url_repository}

pub record StoreLaws {W : Type 0} (v : View W) (s : UrlStore W) : Type 0 where
  pub code_found : (w : W) (c : Bytes) (u : Url) → v.coded w c ≡ some u → u.code ≡ c
  pub get_quiet : (c : Bytes) (w : W) → Quiet v w (s.get_by_code c w).1
  pub get_ok : (c : Bytes) (w : W) (u : Url) → (s.get_by_code c w).0 ≡ ok u → v.coded w c ≡ some u
  pub get_not_found :
      (c : Bytes) (w : W) (e : Error)
      → (s.get_by_code c w).0 ≡ err e
      → is e repository_not_found ≡ true
      → v.coded w c ≡ none
  -- the store's errors are not the service's own
  pub get_foreign :
      (c : Bytes) (w : W) (e : Error)
      → (s.get_by_code c w).0 ≡ err e
      → (is e not_found ≡ false) × (is e expired ≡ false)
  pub create_adds : (l : Bytes) (x : Option ℕ) (w : W) → Adds v w (s.create l x w).1
  pub create_ok :
      (l : Bytes) (x : Option ℕ) (w : W) (id : ℕ)
      → (s.create l x w).0 ≡ ok id
      → (t : ℕ) × (v.draft (s.create l x w).1 id
          ≡ some (record { long_url = l; expires_at = micros x; created_at = t }))
        × ((c : Bytes) → v.coded (s.create l x w).1 c ≡ v.coded w c)
  pub create_code_adds :
      (c l : Bytes) (x : Option ℕ) (w : W) → Adds v w (s.create_with_code c l x w).1
  pub create_code_ok :
      (c l : Bytes) (x : Option ℕ) (w : W) (id : ℕ)
      → (s.create_with_code c l x w).0 ≡ ok id
      → (t : ℕ) × Gains v
          (record { id = id; code = c; long_url = l; expires_at = micros x; created_at = t })
          w
          (s.create_with_code c l x w).1
  pub create_code_conflict :
      (c l : Bytes) (x : Option ℕ) (w : W) (e : Error)
      → (s.create_with_code c l x w).0 ≡ err e
      → is e repository_conflict ≡ true
      → (d : Bytes) → v.coded (s.create_with_code c l x w).1 d ≡ v.coded w d
  pub set_adds :
      (id : ℕ) (c : Bytes) (w : W) (d : Draft)
      → v.draft w id ≡ some d
      → Adds v w (s.set_code id c w).1
  pub set_ok :
      (id : ℕ) (c : Bytes) (w : W) (d : Draft)
      → v.draft w id ≡ some d
      → (s.set_code id c w).0 ≡ ok tt
      → Gains v
          (record {
            id = id;
            code = c;
            long_url = d.long_url;
            expires_at = d.expires_at;
            created_at = d.created_at;
          })
          w
          (s.set_code id c w).1
  pub delete_drops : (c : Bytes) (w : W) → Drops v c w (s.delete_by_code c w).1
  pub delete_ok :
      (c : Bytes) (w : W)
      → (s.delete_by_code c w).0 ≡ ok tt
      → v.coded (s.delete_by_code c w).1 c ≡ none
  pub delete_not_found :
      (c : Bytes) (w : W) (e : Error)
      → (s.delete_by_code c w).0 ≡ err e
      → is e repository_not_found ≡ true
      → v.coded w c ≡ none

-- What an outcome of the repository says about the outcome of the statement.
found_ok : (r : PgResult Url) {u : Url} → found r ≡ ok u → r ≡ done u
unfolding found
found_ok (done u) h = cc
found_ok (failed e) h = cc

found_missing :
    (r : PgResult Url) (e : Error)
    → found r ≡ err e
    → is e repository_not_found ≡ true
    → r ≡ failed no_rows
unfolding found
found_missing (done u) e h k = cc
found_missing (failed no_rows) e h k = refl
found_missing (failed (pg_error state)) e h k = ground arith
found_missing (failed failure) e h k = ground arith

found_foreign :
    (r : PgResult Url) (e : Error)
    → found r ≡ err e
    → (is e not_found ≡ false) × (is e expired ≡ false)
unfolding found
found_foreign (done u) e h = absurd (ground arith)
found_foreign (failed no_rows) e h = ground arith
found_foreign (failed (pg_error state)) e h = ground arith
found_foreign (failed failure) e h = ground arith

created_ok : (r : PgResult ℕ) {id : ℕ} → created r ≡ ok id → r ≡ done id
unfolding created
created_ok (done id) h = cc
created_ok (failed e) h = cc

created_with_code_ok : (r : PgResult ℕ) {id : ℕ} → created_with_code r ≡ ok id → r ≡ done id
unfolding created_with_code
created_with_code_ok (done id) h = cc
created_with_code_ok (failed e) h = cc

created_with_code_conflict :
    (r : PgResult ℕ) (e : Error)
    → created_with_code r ≡ err e
    → is e repository_conflict ≡ true
    → (state : Bytes) × (r ≡ failed (pg_error state))
unfolding created_with_code
created_with_code_conflict (done id) e h k = absurd (ground arith)
created_with_code_conflict (failed no_rows) e h k = absurd (ground arith)
created_with_code_conflict (failed (pg_error state)) e h k = (state, refl)
created_with_code_conflict (failed failure) e h k = absurd (ground arith)

code_set_ok : (r : PgResult ℕ) → code_set r ≡ ok tt → (n : ℕ) × (r ≡ done (suc n))
unfolding code_set
code_set_ok (done zero) h = absurd (ground arith)
code_set_ok (done (suc n)) h = (n, refl)
code_set_ok (failed e) h = absurd (ground arith)

deleted_ok : (r : PgResult ℕ) → deleted r ≡ ok tt → (n : ℕ) × (r ≡ done n)
unfolding deleted
deleted_ok (done n) h = (n, refl)
deleted_ok (failed e) h = absurd (ground arith)

deleted_missing :
    (r : PgResult ℕ) (e : Error)
    → deleted r ≡ err e
    → is e repository_not_found ≡ true
    → r ≡ done zero
unfolding deleted
deleted_missing (done zero) e h k = refl
deleted_missing (done (suc n)) e h k = absurd (ground arith)
deleted_missing (failed e') e h k = absurd (ground arith)

module _ {W : Type 0} (v : View W) (pg : Postgres W) (laws : PostgresLaws v pg) where
  -- URLRepository keeps the contract of URLStore.
  pub url_repository-StoreLaws : StoreLaws v (url_repository pg)
  unfolding Repository.create Repository.create_with_code Repository.set_code Repository.get_by_code
      Repository.delete_by_code
  url_repository-StoreLaws = record {
    code_found = laws.code_found;
    get_quiet = laws.select_quiet;
    get_ok = λ c w u h. laws.select_done c w u (found_ok _ h);
    get_not_found = λ c w e h k. laws.select_no_rows c w (found_missing _ e h k);
    get_foreign = λ c w e h. found_foreign _ e h;
    create_adds = laws.insert_adds;
    create_ok = λ l x w id h. laws.insert_done l x w id (created_ok _ h);
    create_code_adds = laws.insert_code_adds;
    create_code_ok = λ c l x w id h. laws.insert_code_done c l x w id (created_with_code_ok _ h);
    create_code_conflict = λ c l x w e h k.
        let (state, refused) = created_with_code_conflict _ e h k in
        laws.insert_code_refused c l x w state refused;
    set_adds = λ id c. laws.update_adds c id;
    set_ok = λ id c w d h k.
        let (n, some_row) = code_set_ok _ k in laws.update_done c id w d n h some_row;
    delete_drops = laws.delete_drops;
    delete_ok = λ c w h. let (n, e) = deleted_ok _ h in laws.delete_done c w n e;
    delete_not_found = λ c w e h k. laws.delete_none c w (deleted_missing _ e h k);
  }
