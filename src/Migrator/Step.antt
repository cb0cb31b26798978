-- ===== src/Migrator/Step.antt =====
-- What one round of the loop of migrate.go has done when it ends without an error.
use url_shortener.Common.{◌≡◌, refl, Bool, true, false, Bytes, Option, none, some, arith}
use url_shortener.Common.Int64.{ℤ}
use url_shortener.Errors.{ok}
use url_shortener.World.Postgres.{PgResult, done, failed}
use url_shortener.Migrator.{
  Database, committed, version_inserted, executed, begun, read, checked, migrate,
}

-- From `w` to `w'` no recorded version is lost.
abbrev pub IsKept : {W : Type 0} → (W → ℤ → Bool) → W → W → Type 0
IsKept recorded w w' = (n : ℤ) → recorded w n ≡ true → recorded w' n ≡ true

-- What Apply relies on: `recorded` are the versions of schema_migrations that are committed, and
-- `pending` those that the open transaction has inserted.
pub record DatabaseLaws {W : Type 0} (db : Database W) (recorded pending : W → ℤ → Bool)
    : Type 0 where
  pub acquire_kept : (w : W) → IsKept recorded w (db.acquire w).1
  pub release_kept : (w : W) → IsKept recorded w (db.release w).1
  pub lock_kept : (w : W) → IsKept recorded w (db.lock w).1
  pub unlock_kept : (w : W) → IsKept recorded w (db.unlock w).1
  pub ensure_kept : (w : W) → IsKept recorded w (db.ensure_table w).1
  pub check_kept : (n : ℤ) (w : W) → IsKept recorded w (db.is_recorded n w).1
  pub check_done : (n : ℤ) (w : W) (b : Bool) → (db.is_recorded n w).0 ≡ done b → recorded w n ≡ b
  pub begin_kept : (w : W) → IsKept recorded w (db.begin w).1
  pub execute_kept : (text : Bytes) (w : W) → IsKept recorded w (db.execute text w).1
  pub insert_kept : (n : ℤ) (w : W) → IsKept recorded w (db.insert_version n w).1
  pub insert_done :
      (n : ℤ) (w : W)
      → (db.insert_version n w).0 ≡ done tt
      → pending (db.insert_version n w).1 n ≡ true
  pub commit_kept : (w : W) → IsKept recorded w (db.commit w).1
  pub commit_done :
      (w : W)
      → (db.commit w).0 ≡ done tt
      → (n : ℤ) → pending w n ≡ true
      → recorded (db.commit w).1 n ≡ true

module _ {W : Type 0} (db : Database W) (recorded pending : W → ℤ → Bool)
    (laws : DatabaseLaws db recorded pending) where
  -- A step that ended well has recorded the version `n` and lost none.
  pub record IsStep (n : ℤ) (w w' : W) : Type 0 where
    pub now : recorded w' n ≡ true
    pub kept : IsKept recorded w w'

  committed_ok :
      (name : Bytes) (r : PgResult (Unit {0})) → committed db name r ≡ ok tt → r ≡ done tt
  unfolding committed
  committed_ok name (done _) h = refl
  committed_ok name (failed e) h = absurd (ground arith)

  inserted_ok :
      (name : Bytes) (n : ℤ) (r : PgResult (Unit {0})) (w : W)
      → (r ≡ done tt → pending w n ≡ true)
      → (version_inserted db name r w).0 ≡ ok tt
      → IsStep n w (version_inserted db name r w).1
  unfolding version_inserted
  inserted_ok name n (failed e) w p h = absurd (ground arith)
  inserted_ok name n (done _) w p h = record {
    now = laws.commit_done w (committed_ok name _ h) n (p refl);
    kept = laws.commit_kept w;
  }

  after : {n : ℤ} {a b c : W} → IsKept recorded a b → IsStep n b c → IsStep n a c
  after k q = record { now = q.now; kept = λ m h. q.kept m (k m h) }

  executed_ok :
      (name : Bytes) (n : ℤ) (r : PgResult (Unit {0})) (w : W)
      → (executed db name n r w).0 ≡ ok tt
      → IsStep n w (executed db name n r w).1
  unfolding executed
  executed_ok name n (failed e) w h = absurd (ground arith)
  executed_ok name n (done _) w h =
      after (laws.insert_kept n w) (inserted_ok name n _ _ (laws.insert_done n w) h)

  begun_ok :
      (name : Bytes) (n : ℤ) (text : Bytes) (r : PgResult (Unit {0})) (w : W)
      → (begun db name n text r w).0 ≡ ok tt
      → IsStep n w (begun db name n text r w).1
  unfolding begun
  begun_ok name n text (failed e) w h = absurd (ground arith)
  begun_ok name n text (done _) w h = after (laws.execute_kept text w) (executed_ok name n _ _ h)

  read_ok :
      (name : Bytes) (n : ℤ) (o : Option Bytes) (w : W)
      → (read db name n o w).0 ≡ ok tt
      → IsStep n w (read db name n o w).1
  unfolding read
  read_ok name n none w h = absurd (ground arith)
  read_ok name n (some text) w h = after (laws.begin_kept w) (begun_ok name n text _ _ h)

  checked_ok :
      (name : Bytes) (n : ℤ) (r : PgResult Bool) (w : W)
      → (r ≡ done true → recorded w n ≡ true)
      → (checked db name n r w).0 ≡ ok tt
      → IsStep n w (checked db name n r w).1
  unfolding checked
  checked_ok name n (failed e) w p h = absurd (ground arith)
  checked_ok name n (done true) w p h = record { now = p refl; kept = λ m k. k }
  checked_ok name n (done false) w p h = read_ok name n _ w h

  pub migrate_ok :
      (name : Bytes) (o : Option ℤ) (w : W)
      → (migrate db name o w).0 ≡ ok tt
      → (n : ℤ) × (o ≡ some n) × IsStep n w (migrate db name o w).1
  unfolding migrate
  migrate_ok name none w h = absurd (ground arith)
  migrate_ok name (some n) w h = (
    n,
    refl,
    after (laws.check_kept n w)
        (checked_ok name n _ _ (λ e. laws.check_kept n w n (laws.check_done n w true e)) h),
  )
