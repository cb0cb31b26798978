-- ===== src/Migrator/Again.antt =====
-- Apply on a database on which all migrations are recorded.
use url_shortener.Common.{
  ◌≡◌, inl, inr, refl, sym, ◌∙◌, Bool, true, false, Bool-cases, Bytes, List, [], ◌∷◌, Option, none,
  some, some_inj, arith,
}
use url_shortener.Common.Int64.{ℤ}
use url_shortener.Errors.{Result, ok, err}
use url_shortener.World.{Action}
use url_shortener.World.Postgres.{PgResult, done, failed}
use url_shortener.Migrator.{
  Database, before, put_in, sort_strings, checked, migrate, go_on, migrate_all, listed, with_table,
  with_lock, with_connection, apply,
}
use url_shortener.Migrator.Step.{IsKept, DatabaseLaws}
use url_shortener.Migrator.Applied.{AllRecorded, kept_all, apply_ok}

-- `executed` are the texts of migrations that were executed; only Exec of a migration adds one.
pub record ExecutedLaws {W : Type 0} (db : Database W) (executed : W → List Bytes) : Type 0 where
  pub on_acquire : (w : W) → executed (db.acquire w).1 ≡ executed w
  pub on_release : (w : W) → executed (db.release w).1 ≡ executed w
  pub on_lock : (w : W) → executed (db.lock w).1 ≡ executed w
  pub on_unlock : (w : W) → executed (db.unlock w).1 ≡ executed w
  pub on_ensure : (w : W) → executed (db.ensure_table w).1 ≡ executed w
  pub on_check : (n : ℤ) (w : W) → executed (db.is_recorded n w).1 ≡ executed w

module _ {W : Type 0} (db : Database W) (recorded pending : W → ℤ → Bool)
    (laws : DatabaseLaws db recorded pending) (executed : W → List Bytes)
    (still : ExecutedLaws db executed) where
  -- From `w` to `w'` nothing was executed, and no record was lost.
  record IsIdle (w w' : W) : Type 0 where
    same : executed w' ≡ executed w
    kept : IsKept recorded w w'

  IsIdle-trans : {a b c : W} → IsIdle a b → IsIdle b c → IsIdle a c
  IsIdle-trans f g = record { same = g.same ∙ f.same; kept = λ n h. g.kept n (f.kept n h) }

  checked-IsIdle :
      (name : Bytes) (n : ℤ) (r : PgResult Bool) (w : W)
      → ((b : Bool) → r ≡ done b → b ≡ true)
      → IsIdle w (checked db name n r w).1
  unfolding checked
  checked-IsIdle name n (failed e) w h = record { same = refl; kept = λ m k. k }
  checked-IsIdle name n (done true) w h = record { same = refl; kept = λ m k. k }
  checked-IsIdle name n (done false) w h = absurd (let e = h false refl in ground arith)

  migrate-IsIdle :
      (name : Bytes) (n : ℤ) (w : W) → recorded w n ≡ true → IsIdle w (migrate db name (some n) w).1
  unfolding migrate
  migrate-IsIdle name n w h =
      IsIdle-trans (record { same = still.on_check n w; kept = laws.check_kept n w })
        (checked-IsIdle name n (db.is_recorded n w).0 _ (λ b e. sym (laws.check_done n w b e) ∙ h))

  go_on-IsIdle :
      (rest : Action W (Result (Unit {0}))) (r : Result (Unit {0})) (w : W)
      → IsIdle w (rest w).1
      → IsIdle w (go_on db rest r w).1
  unfolding go_on
  go_on-IsIdle rest (err e) w h = record { same = refl; kept = λ m k. k }
  go_on-IsIdle rest (ok _) w h = h

  migrate_all-IsIdle :
      (names : List Bytes) (w : W)
      → AllRecorded recorded names w
      → IsIdle w (migrate_all db names w).1
  unfolding migrate_all
  migrate_all-IsIdle [] w h = record { same = refl; kept = λ m k. k }
  migrate_all-IsIdle (name ∷ names) w ((n, e, r), hs) = rw e (
      let f = migrate-IsIdle name n w r in
      IsIdle-trans f (
        go_on-IsIdle (migrate_all db names) (migrate db name (some n) w).0 _
          (migrate_all-IsIdle names _ (kept_all db recorded pending laws names f.kept hs))))

  recorded_in :
      (s : Bytes) (names : List Bytes) (w : W)
      → AllRecorded recorded (s ∷ names) w
      → AllRecorded recorded (put_in s names) w
  recorded_in s [] w h = h
  recorded_in s (t ∷ rest) w (h, (k, ks)) = elim (Bool-cases (before s t)) [
    | inl e ↦ rw e (h, (k, ks))
    | inr e ↦ rw e (k, recorded_in s rest w (h, ks))
  ]

  sorted_recorded :
      (names : List Bytes) (w : W)
      → AllRecorded recorded names w
      → AllRecorded recorded (sort_strings names) w
  unfolding sort_strings
  sorted_recorded [] w h = tt
  sorted_recorded (s ∷ rest) w (h, hs) =
      recorded_in s (sort_strings rest) w (h, sorted_recorded rest w hs)

  listed-IsIdle :
      (o : Option (List Bytes)) (names : List Bytes) (w : W)
      → o ≡ some names
      → AllRecorded recorded names w
      → IsIdle w (listed db o w).1
  unfolding listed
  listed-IsIdle none names w e h = absurd (ground arith)
  listed-IsIdle (some ns) names w e h =
      rw (some_inj e) (migrate_all-IsIdle (sort_strings names) w (sorted_recorded names w h))

  module _ (names : List Bytes) (files : db.files ≡ some names) where
    with_table-IsIdle :
        (r : PgResult (Unit {0})) (w : W)
        → AllRecorded recorded names w
        → IsIdle w (with_table db r w).1
    unfolding with_table
    with_table-IsIdle (failed e) w h = record { same = refl; kept = λ m k. k }
    with_table-IsIdle (done _) w h = listed-IsIdle db.files names w files h

    with_lock-IsIdle :
        (r : PgResult (Unit {0})) (w : W)
        → AllRecorded recorded names w
        → IsIdle w (with_lock db r w).1
    unfolding with_lock
    with_lock-IsIdle (failed e) w h = record { same = refl; kept = λ m k. k }
    with_lock-IsIdle (done _) w h =
        let f : IsIdle w (db.ensure_table w).1 = record {
          same = still.on_ensure w;
          kept = laws.ensure_kept w;
        } in
        IsIdle-trans f (
          IsIdle-trans
            (with_table-IsIdle (db.ensure_table w).0 _
              (kept_all db recorded pending laws names f.kept h))
            (record { same = still.on_unlock _; kept = laws.unlock_kept _ }))

    with_connection-IsIdle :
        (r : PgResult (Unit {0})) (w : W)
        → AllRecorded recorded names w
        → IsIdle w (with_connection db r w).1
    unfolding with_connection
    with_connection-IsIdle (failed e) w h = record { same = refl; kept = λ m k. k }
    with_connection-IsIdle (done _) w h =
        let f : IsIdle w (db.lock w).1 = record {
          same = still.on_lock w;
          kept = laws.lock_kept w;
        } in
        IsIdle-trans f (
          IsIdle-trans
            (with_lock-IsIdle (db.lock w).0 _ (kept_all db recorded pending laws names f.kept h))
            (record { same = still.on_release _; kept = laws.release_kept _ }))

    apply-IsIdle : (w : W) → AllRecorded recorded names w → IsIdle w (apply db w).1
    unfolding apply
    apply-IsIdle w h =
        let f : IsIdle w (db.acquire w).1 = record {
          same = still.on_acquire w;
          kept = laws.acquire_kept w;
        } in
        IsIdle-trans f (
          with_connection-IsIdle (db.acquire w).0 _
            (kept_all db recorded pending laws names f.kept h))

    -- After Apply has returned without an error, Apply again executes no migration, whatever the
    -- database answers to its statements.
    pub apply-apply :
        (w : W)
        → (apply db w).0 ≡ ok tt
        → executed (apply db (apply db w).1).1 ≡ executed (apply db w).1
    apply-apply w h =
        (apply-IsIdle (apply db w).1 (apply_ok db recorded pending laws names w files h)).same
