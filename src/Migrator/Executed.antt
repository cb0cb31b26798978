-- ===== src/Migrator/Executed.antt =====
-- What Apply of migrate.go has executed when it returns no error.
use mathlib.Core.Path.{subst}
use url_shortener.Common.{
  ◌≡◌, ◌⊎◌, inl, inr, refl, ap, ◌∙◌, Bool, true, false, Bool-cases, Bytes, List, [], ◌∷◌, Option,
  none, some, some_inj, arith,
}
use url_shortener.Common.Int64.{ℤ}
use url_shortener.Errors.{Result, ok, err}
use url_shortener.World.{Action}
use url_shortener.World.Postgres.{PgResult, done, failed}
use url_shortener.Migrator.{
  Database, sort_strings, migration_version, version_inserted, executed, begun, read, checked,
  migrate, go_on, migrate_all, listed, with_table, with_lock, with_connection, apply,
}
use url_shortener.Migrator.Step.{IsKept, DatabaseLaws}
use url_shortener.Migrator.Applied.{AllRecorded, with_table_ok, applied_names}
use url_shortener.Migrator.Journal.{
  IsListed, sort-IsListed, JournalLaws, HasRun, Grows, IsStep, still_run, stay, quiet, then,
}

module _ {W : Type 0} (db : Database W) (recorded pending : W → ℤ → Bool) (ran : W → Bytes → Bool)
    (laws : JournalLaws db recorded pending ran) where
  -- The transaction of one file, from the execution of its text on.
  module _ (names : List Bytes) (name text : Bytes) (n : ℤ) (listed_name : IsListed name names)
      (version : migration_version name ≡ some n) (content : db.read_file name ≡ some text) where
    run_now : (w : W) → ran w text ≡ true → HasRun db recorded pending ran names n w
    run_now w h = record {
      name = name;
      text = text;
      listed = listed_name;
      version = version;
      content = content;
      has_run = h;
    }

    inserted :
        (r : PgResult (Unit {0})) (w : W)
        → ran w text ≡ true
        → ((m : ℤ) → pending w m ≡ true → n ≡ m)
        → (version_inserted db name r w).0 ≡ ok tt
        → IsStep db recorded pending ran names w (version_inserted db name r w).1
    unfolding version_inserted
    inserted (failed e) w h own k = absurd (ground arith)
    inserted (done _) w h own k = record {
      justified = λ m q. elim (laws.commit_recorded w m q) [
        | inl old ↦ inl old
        | inr new ↦ inr (
            subst (λ j. HasRun db recorded pending ran names j (db.commit w).1) (own m new)
              (run_now (db.commit w).1 (laws.commit_ran w text h)))
      ];
      grows = laws.commit_ran w;
    }

    ran_text :
        (r : PgResult (Unit {0})) (w : W)
        → (r ≡ done tt → ran w text ≡ true)
        → ((m : ℤ) → pending w m ≡ false)
        → (executed db name n r w).0 ≡ ok tt
        → IsStep db recorded pending ran names w (executed db name n r w).1
    unfolding executed
    ran_text (failed e) w h none_open k = absurd (ground arith)
    ran_text (done tt) w h none_open k =
        then
          (record {
            justified = λ m q. inl (laws.insert_recorded n w m q);
            grows = laws.insert_ran n w;
          })
          (inserted (db.insert_version n w).0 (db.insert_version n w).1
            (laws.insert_ran n w text (h refl)) (λ m q. only m (laws.insert_pending n w m q)) k)
      where
        only : (m : ℤ) → (pending w m ≡ true) ⊎ (n ≡ m) → n ≡ m
        only m (inl old) = absurd (let z = none_open m in ground arith)
        only m (inr new) = new

    begun_step :
        (r : PgResult (Unit {0})) (w : W)
        → (r ≡ done tt → (m : ℤ) → pending w m ≡ false)
        → (begun db name n text r w).0 ≡ ok tt
        → IsStep db recorded pending ran names w (begun db name n text r w).1
    unfolding begun
    begun_step (failed e) w h k = absurd (ground arith)
    begun_step (done tt) w h k =
        let q = laws.on_execute text w in
        then (quiet names q) (
          ran_text (db.execute text w).0 (db.execute text w).1 (laws.execute_done text w)
            (λ m. closed m (Bool-cases (pending (db.execute text w).1 m))) k)
      where
        closed :
            (m : ℤ)
            → (pending (db.execute text w).1 m ≡ true) ⊎ (pending (db.execute text w).1 m ≡ false)
            → pending (db.execute text w).1 m ≡ false
        closed m (inl e) =
            absurd (
              let y = (laws.on_execute text w).same_pending m e in let z = h refl m in ground arith)
        closed m (inr e) = e

  read_step :
      (names : List Bytes) (name : Bytes) (n : ℤ) (o : Option Bytes) (w : W)
      → IsListed name names
      → migration_version name ≡ some n
      → db.read_file name ≡ o
      → (read db name n o w).0 ≡ ok tt
      → IsStep db recorded pending ran names w (read db name n o w).1
  unfolding read
  read_step names name n none w l v c h = absurd (ground arith)
  read_step names name n (some text) w l v c h =
      then (record { justified = λ m q. inl (laws.begin_recorded w m q); grows = laws.begin_ran w })
        (begun_step names name text n l v c (db.begin w).0 (db.begin w).1
          (λ e m. laws.begin_pending w m e) h)

  checked_step :
      (names : List Bytes) (name : Bytes) (n : ℤ) (r : PgResult Bool) (w : W)
      → IsListed name names
      → migration_version name ≡ some n
      → (checked db name n r w).0 ≡ ok tt
      → IsStep db recorded pending ran names w (checked db name n r w).1
  unfolding checked
  checked_step names name n (failed e) w l v h = absurd (ground arith)
  checked_step names name n (done true) w l v h = stay names w
  checked_step names name n (done false) w l v h = read_step names name n _ w l v refl h

  migrate_step :
      (names : List Bytes) (name : Bytes) (o : Option ℤ) (w : W)
      → IsListed name names
      → migration_version name ≡ o
      → (migrate db name o w).0 ≡ ok tt
      → IsStep db recorded pending ran names w (migrate db name o w).1
  unfolding migrate
  migrate_step names name none w l v h = absurd (ground arith)
  migrate_step names name (some n) w l v h =
      then (quiet names (laws.on_check n w)) (checked_step names name n _ _ l v h)

  go_on_step :
      (names : List Bytes) (rest : Action W (Result (Unit {0}))) (r : Result (Unit {0})) (w : W)
      → (go_on db rest r w).0 ≡ ok tt
      → ((rest w).0 ≡ ok tt → IsStep db recorded pending ran names w (rest w).1)
      → (r ≡ ok tt) × IsStep db recorded pending ran names w (go_on db rest r w).1
  unfolding go_on
  go_on_step names rest (err e) w h next = absurd (ground arith)
  go_on_step names rest (ok tt) w h next = (refl, next h)

  migrate_all_step :
      (names rest : List Bytes) (w : W)
      → ((x : Bytes) → IsListed x rest → IsListed x names)
      → (migrate_all db rest w).0 ≡ ok tt
      → IsStep db recorded pending ran names w (migrate_all db rest w).1
  unfolding migrate_all
  migrate_all_step names [] w l h = stay names w
  migrate_all_step names (name ∷ rest) w l h =
      let (now, next) =
        go_on_step names (migrate_all db rest) (migrate db name (migration_version name) w).0
          (migrate db name (migration_version name) w).1 h
          (migrate_all_step names rest (migrate db name (migration_version name) w).1
            (λ x k. l x (inr k))) in
      then (migrate_step names name (migration_version name) w (l name (inl refl)) refl now) next

  listed_step :
      (o : Option (List Bytes)) (names : List Bytes) (w : W)
      → o ≡ some names
      → (listed db o w).0 ≡ ok tt
      → IsStep db recorded pending ran names w (listed db o w).1
  unfolding listed
  listed_step none names w e h = absurd (ground arith)
  listed_step (some ns) names w e h =
      let same : ns ≡ names = some_inj e in
      migrate_all_step names (sort_strings ns) w
        (λ x k. subst (IsListed x) same (sort-IsListed x ns k)) h

  module _ (names : List Bytes) (files : db.files ≡ some names) where
    with_table_step :
        (r : PgResult (Unit {0})) (w : W)
        → (with_table db r w).0 ≡ ok tt
        → IsStep db recorded pending ran names w (with_table db r w).1
    unfolding with_table
    with_table_step (failed e) w h = absurd (ground arith)
    with_table_step (done _) w h = listed_step db.files names w files h

    -- The file `name` is done: its version is recorded in `w'`, and it was recorded in `w`, or a file of
    -- that version was executed.
    pub record IsDone (name : Bytes) (w w' : W) : Type 0 where
      pub number : ℤ
      pub version : migration_version name ≡ some number
      pub now : recorded w' number ≡ true
      pub reason : (recorded w number ≡ true) ⊎ HasRun db recorded pending ran names number w'

    keep :
        {name : Bytes} {w a b : W}
        → IsKept recorded a b
        → Grows db recorded pending ran a b
        → IsDone name w a
        → IsDone name w b
    keep k g d = record {
      number = d.number;
      version = d.version;
      now = k d.number d.now;
      reason = elim d.reason [ inl old ↦ inl old | inr r ↦ inr (still_run g r) ];
    }

    recorded_listed :
        (name : Bytes) (all : List Bytes) (w : W)
        → IsListed name all
        → AllRecorded recorded all w
        → (n : ℤ) × (migration_version name ≡ some n) × (recorded w n ≡ true)
    recorded_listed name [] w l a = absurd l
    recorded_listed name (other ∷ rest) w (inl e) ((n, v, h), a) =
        (n, ap migration_version e ∙ v, h)
    recorded_listed name (other ∷ rest) w (inr l) (h, a) = recorded_listed name rest w l a

    module _ (record_laws : DatabaseLaws db recorded pending) (name : Bytes)
        (is_file : IsListed name names) where
      with_table_done :
          (r : PgResult (Unit {0})) (w0 w : W)
          → IsStep db recorded pending ran names w0 w
          → (with_table db r w).0 ≡ ok tt
          → IsDone name w0 (with_table db r w).1
      with_table_done r w0 w before_it h =
          let a =
            applied_names db recorded pending record_laws db.files names _ files
              (with_table_ok db recorded pending record_laws r w h) in
          let (n, v, now) = recorded_listed name names (with_table db r w).1 is_file a in
          record {
            number = n;
            version = v;
            now = now;
            reason = (then before_it (with_table_step r w h)).justified n now;
          }

      with_lock_done :
          (r : PgResult (Unit {0})) (w : W)
          → (with_lock db r w).0 ≡ ok tt
          → IsDone name w (with_lock db r w).1
      unfolding with_lock
      with_lock_done (failed e) w h = absurd (ground arith)
      with_lock_done (done _) w h = keep (record_laws.unlock_kept _) (laws.unlock_ran _) (
          with_table_done (db.ensure_table w).0 w (db.ensure_table w).1
            (quiet names (laws.on_ensure w)) h)

      with_connection_done :
          (r : PgResult (Unit {0})) (w : W)
          → (with_connection db r w).0 ≡ ok tt
          → IsDone name (db.lock w).1 (with_connection db r w).1
      unfolding with_connection
      with_connection_done (failed e) w h = absurd (ground arith)
      with_connection_done (done _) w h =
          keep (record_laws.release_kept _) (laws.release_ran _)
            (with_lock_done (db.lock w).0 (db.lock w).1 h)

      -- When Apply returns no error, every file of the directory is done: its version can be read and
      -- is recorded as applied, and it was recorded already when Apply had taken the lock, or the text
      -- of a file with that version was executed without an error.
      pub apply_complete :
          (w : W) → (apply db w).0 ≡ ok tt → IsDone name (db.lock (db.acquire w).1).1 (apply db w).1
      unfolding apply
      apply_complete w h = with_connection_done (db.acquire w).0 (db.acquire w).1 h
