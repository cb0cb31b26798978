-- ===== src/Service/Store/Exact.antt =====
-- When the methods of URLRepository succeed, and when they report one of the package's own errors.
use url_shortener.Common.{
  ℕ, zero, suc, ◌≡◌, ◌≢◌, ◌↔◌, inl, inr, refl, ap, Bytes, codes, true, false, Bool-cases, Option,
  none, text_eq, text_eq_iff, arith,
}
use url_shortener.Errors.{
  Sentinel, Error, Result, ok, err, is, repository_not_found, repository_conflict,
}
use url_shortener.Model.{Url}
use url_shortener.World.{View}
use url_shortener.World.Postgres.{
  Postgres, PostgresLaws, PgError, no_rows, pg_error, failure, PgResult, done, failed,
}
use url_shortener.Repository
use url_shortener.Repository.{
  is_unique_violation, conflict_or, found, created, created_with_code, code_set, deleted,
}
use url_shortener.Service.Store.{UrlStore, url_repository}

-- The result is an error that is the given one of the package.
abbrev pub Reports : {A : Type 0} → Sentinel → Result A → Type 0
Reports target r = (e : Error) × (r ≡ err e) × (is e target ≡ true)

-- PostgreSQL's answer is `unique_violation`.
abbrev pub IsTaken : {A : Type 0} → PgResult A → Type 0
IsTaken r = r ≡ failed (pg_error (codes "23505"))

-- What each method reports, against PostgreSQL's answer to its statement and the rows.
pub record IsExact {W : Type 0} (v : View W) (pg : Postgres W) (s : UrlStore W) : Type 0 where
  pub get_ok :
      (c : Bytes) (w : W) (u : Url)
      → ((s.get_by_code c w).0 ≡ ok u) ↔ ((pg.select_by_code c w).0 ≡ done u)
  pub get_missing :
      (c : Bytes) (w : W)
      → Reports repository_not_found (s.get_by_code c w).0
        ↔ ((pg.select_by_code c w).0 ≡ failed no_rows)
  pub delete_ok :
      (c : Bytes) (w : W)
      → ((s.delete_by_code c w).0 ≡ ok tt) ↔ ((n : ℕ) × ((pg.delete_by_code c w).0 ≡ done (suc n)))
  pub delete_missing :
      (c : Bytes) (w : W)
      → Reports repository_not_found (s.delete_by_code c w).0
        ↔ ((pg.delete_by_code c w).0 ≡ done zero)
  pub was_deleted :
      (c : Bytes) (w : W)
      → (s.delete_by_code c w).0 ≡ ok tt
      → (v.coded w c ≢ none) × (v.coded (s.delete_by_code c w).1 c ≡ none)
  pub was_missing :
      (c : Bytes) (w : W)
      → Reports repository_not_found (s.delete_by_code c w).0
      → v.coded w c ≡ none
  pub set_ok :
      (id : ℕ) (c : Bytes) (w : W)
      → ((s.set_code id c w).0 ≡ ok tt) ↔ ((n : ℕ) × ((pg.update_code c id w).0 ≡ done (suc n)))
  pub set_missing :
      (id : ℕ) (c : Bytes) (w : W)
      → Reports repository_not_found (s.set_code id c w).0 ↔ ((pg.update_code c id w).0 ≡ done zero)
  pub set_conflict :
      (id : ℕ) (c : Bytes) (w : W)
      → Reports repository_conflict (s.set_code id c w).0 ↔ IsTaken (pg.update_code c id w).0
  pub create_code_ok :
      (c l : Bytes) (x : Option ℕ) (w : W) (id : ℕ)
      → ((s.create_with_code c l x w).0 ≡ ok id) ↔ ((pg.insert_url_with_code c l x w).0 ≡ done id)
  pub create_code_conflict :
      (c l : Bytes) (x : Option ℕ) (w : W)
      → Reports repository_conflict (s.create_with_code c l x w).0
        ↔ IsTaken (pg.insert_url_with_code c l x w).0
  pub create_ok :
      (l : Bytes) (x : Option ℕ) (w : W) (id : ℕ)
      → ((s.create l x w).0 ≡ ok id) ↔ ((pg.insert_url l x w).0 ≡ done id)

-- A violation of uniqueness is what becomes a conflict, and nothing else does.
conflict_iff :
    (context : Bytes) (e : PgError)
    → (is (conflict_or context e) repository_conflict ≡ true) ↔ (e ≡ pg_error (codes "23505"))
unfolding conflict_or is_unique_violation
conflict_iff context no_rows = (λ h. absurd (ground arith), λ h. absurd (ground arith))
conflict_iff context failure = (λ h. absurd (ground arith), λ h. absurd (ground arith))
conflict_iff context (pg_error state) = elim (Bool-cases (text_eq state (codes "23505"))) [
  | inl y ↦ rw y (λ h. ap pg_error ((text_eq_iff state (codes "23505")).0 y), λ h. refl)
  | inr y ↦ rw y (
    λ h. absurd (ground arith),
    λ h. absurd (
        let same : state ≡ codes "23505" = ground arith in
        let z = (text_eq_iff state (codes "23505")).1 same in ground arith),
  )
]

conflict_missing :
    (context : Bytes) (e : PgError) → is (conflict_or context e) repository_not_found ≡ false
unfolding conflict_or
conflict_missing context e = elim (Bool-cases (is_unique_violation e)) [
  | inl y ↦ rw y refl
  | inr y ↦ rw y refl
]

conflict_reported :
    {A B : Type 0} (context : Bytes) (e : PgError)
    → Reports {A = A} repository_conflict (err (conflict_or context e)) ↔ IsTaken {A = B} (failed e)
conflict_reported {A} {B} context e = (from, to)
  where
    from :
        Reports {A = A} repository_conflict (err (conflict_or context e))
        → IsTaken {A = B} (failed e)
    from (x, h, k) =
        let same : conflict_or context e ≡ x = ground arith in
        ap failed ((conflict_iff context e).0 (rw same k))

    to :
        IsTaken {A = B} (failed e)
        → Reports {A = A} repository_conflict (err (conflict_or context e))
    to h =
        let same : e ≡ pg_error (codes "23505") = ground arith in
        (conflict_or context e, refl, (conflict_iff context e).1 same)

found_ok_iff : (r : PgResult Url) (u : Url) → (found r ≡ ok u) ↔ (r ≡ done u)
unfolding found
found_ok_iff (done x) u = (λ h. ground arith, λ h. ground arith)
found_ok_iff (failed e) u = (λ h. absurd (ground arith), λ h. absurd (ground arith))

found_missing_iff :
    (r : PgResult Url) → Reports repository_not_found (found r) ↔ (r ≡ failed no_rows)
unfolding found
found_missing_iff (done x) = (λ (e, h, k). absurd (ground arith), λ h. absurd (ground arith))
found_missing_iff (failed no_rows) = (λ h. refl, λ h. (_, refl, refl))
found_missing_iff (failed (pg_error state)) =
    (λ (e, h, k). absurd (ground arith), λ h. absurd (ground arith))
found_missing_iff (failed failure) =
    (λ (e, h, k). absurd (ground arith), λ h. absurd (ground arith))

deleted_ok_iff : (r : PgResult ℕ) → (deleted r ≡ ok tt) ↔ ((n : ℕ) × (r ≡ done (suc n)))
unfolding deleted
deleted_ok_iff (done zero) = (λ h. absurd (ground arith), λ (n, h). absurd (ground arith))
deleted_ok_iff (done (suc n)) = (λ h. (n, refl), λ h. refl)
deleted_ok_iff (failed e) = (λ h. absurd (ground arith), λ (n, h). absurd (ground arith))

deleted_missing_iff : (r : PgResult ℕ) → Reports repository_not_found (deleted r) ↔ (r ≡ done zero)
unfolding deleted
deleted_missing_iff (done zero) = (λ h. refl, λ h. (_, refl, refl))
deleted_missing_iff (done (suc n)) =
    (λ (e, h, k). absurd (ground arith), λ h. absurd (ground arith))
deleted_missing_iff (failed x) = (λ (e, h, k). absurd (ground arith), λ h. absurd (ground arith))

code_set_ok_iff : (r : PgResult ℕ) → (code_set r ≡ ok tt) ↔ ((n : ℕ) × (r ≡ done (suc n)))
unfolding code_set
code_set_ok_iff (done zero) = (λ h. absurd (ground arith), λ (n, h). absurd (ground arith))
code_set_ok_iff (done (suc n)) = (λ h. (n, refl), λ h. refl)
code_set_ok_iff (failed e) = (λ h. absurd (ground arith), λ (n, h). absurd (ground arith))

code_set_missing_iff :
    (r : PgResult ℕ) → Reports repository_not_found (code_set r) ↔ (r ≡ done zero)
unfolding code_set
code_set_missing_iff (done zero) = (λ h. refl, λ h. (_, refl, refl))
code_set_missing_iff (done (suc n)) =
    (λ (e, h, k). absurd (ground arith), λ h. absurd (ground arith))
code_set_missing_iff (failed x) = (
  λ (e, h, k). absurd (
      let z = conflict_missing (codes "set code") x in
      let same : conflict_or (codes "set code") x ≡ e = ground arith in
      (let y = rw same at z in ground arith)),
  λ h. absurd (ground arith),
)

code_set_conflict_iff : (r : PgResult ℕ) → Reports repository_conflict (code_set r) ↔ IsTaken r
unfolding code_set
code_set_conflict_iff (done zero) = (λ (e, h, k). absurd (ground arith), λ h. absurd (ground arith))
code_set_conflict_iff (done (suc n)) =
    (λ (e, h, k). absurd (ground arith), λ h. absurd (ground arith))
code_set_conflict_iff (failed x) = conflict_reported (codes "set code") x

with_code_ok_iff : (r : PgResult ℕ) (id : ℕ) → (created_with_code r ≡ ok id) ↔ (r ≡ done id)
unfolding created_with_code
with_code_ok_iff (done n) id = (λ h. ground arith, λ h. ground arith)
with_code_ok_iff (failed e) id = (λ h. absurd (ground arith), λ h. absurd (ground arith))

with_code_conflict_iff :
    (r : PgResult ℕ) → Reports repository_conflict (created_with_code r) ↔ IsTaken r
unfolding created_with_code
with_code_conflict_iff (done n) = (λ (e, h, k). absurd (ground arith), λ h. absurd (ground arith))
with_code_conflict_iff (failed x) = conflict_reported (codes "insert url with code") x

created_ok_iff : (r : PgResult ℕ) (id : ℕ) → (created r ≡ ok id) ↔ (r ≡ done id)
unfolding created
created_ok_iff (done n) id = (λ h. ground arith, λ h. ground arith)
created_ok_iff (failed e) id = (λ h. absurd (ground arith), λ h. absurd (ground arith))

module _ {W : Type 0} (v : View W) (pg : Postgres W) (laws : PostgresLaws v pg) where
  -- Each method of URLRepository succeeds exactly if PostgreSQL carried its statement out, with a row
  -- for SELECT, UPDATE and DELETE; ErrNotFound is reported exactly if there was no such row, and
  -- ErrConflict exactly for the SQLSTATE 23505. A row that was deleted existed and is gone, and where
  -- the deletion reports ErrNotFound there was none.
  pub url_repository-IsExact : IsExact v pg (url_repository pg)
  unfolding Repository.create Repository.create_with_code Repository.set_code Repository.get_by_code
      Repository.delete_by_code
  url_repository-IsExact = record {
    get_ok = λ c w u. found_ok_iff _ u;
    get_missing = λ c w. found_missing_iff _;
    delete_ok = λ c w. deleted_ok_iff _;
    delete_missing = λ c w. deleted_missing_iff _;
    was_deleted = λ c w h.
        let (n, e) = (deleted_ok_iff (pg.delete_by_code c w).0).0 h in
        (laws.delete_some c w n e, laws.delete_done c w (suc n) e);
    was_missing = λ c w h. laws.delete_none c w ((deleted_missing_iff _).0 h);
    set_ok = λ id c w. code_set_ok_iff _;
    set_missing = λ id c w. code_set_missing_iff _;
    set_conflict = λ id c w. code_set_conflict_iff _;
    create_code_ok = λ c l x w id. with_code_ok_iff _ id;
    create_code_conflict = λ c l x w. with_code_conflict_iff _;
    create_ok = λ l x w id. created_ok_iff _ id;
  }
