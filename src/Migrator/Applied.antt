-- ===== src/Migrator/Applied.antt =====
-- What Apply of migrate.go has done when it returns no error.
use mathlib.Core.Path.{subst}
use url_shortener.Common.{
  ◌≡◌, inl, inr, refl, Bool, true, Bool-cases, Bytes, List, [], ◌∷◌, Option, none, some, some_inj,
  arith,
}
use url_shortener.Common.Int64.{ℤ}
use url_shortener.Errors.{Result, ok, err}
use url_shortener.World.{Action}
use url_shortener.World.Postgres.{PgResult, done, failed}
use url_shortener.Migrator.{
  Database, before, put_in, sort_strings, migration_version, go_on, migrate_all, listed, with_table,
  with_lock, with_connection, apply,
}
use url_shortener.Migrator.Step.{IsKept, DatabaseLaws, migrate_ok}

-- The versions of all the files are recorded in `w`.
abbrev pub AllRecorded : {W : Type 0} → (W → ℤ → Bool) → List Bytes → W → Type 0
AllRecorded recorded [] w = Unit {0}
AllRecorded recorded (name ∷ rest) w =
    ((n : ℤ) × (migration_version name ≡ some n) × (recorded w n ≡ true))
    × AllRecorded recorded rest w

module _ {W : Type 0} (db : Database W) (recorded pending : W → ℤ → Bool)
    (laws : DatabaseLaws db recorded pending) where
  go_on_ok :
      (rest : Action W (Result (Unit {0}))) (r : Result (Unit {0})) (w : W)
      → (go_on db rest r w).0 ≡ ok tt
      → (r ≡ ok tt) × ((rest w).0 ≡ ok tt) × ((go_on db rest r w).1 ≡ (rest w).1)
  unfolding go_on
  go_on_ok rest (err e) w h = absurd (ground arith)
  go_on_ok rest (ok _) w h = (refl, h, refl)

  pub kept_all :
      (names : List Bytes) {a b : W}
      → IsKept recorded a b
      → AllRecorded recorded names a
      → AllRecorded recorded names b
  kept_all [] k h = tt
  kept_all (name ∷ rest) k ((n, e, r), h) = ((n, e, k n r), kept_all rest k h)

  IsKept-trans : {a b c : W} → IsKept recorded a b → IsKept recorded b c → IsKept recorded a c
  IsKept-trans k l n h = l n (k n h)

  migrate_all_ok :
      (names : List Bytes) (w : W)
      → (migrate_all db names w).0 ≡ ok tt
      → AllRecorded recorded names (migrate_all db names w).1
        × IsKept recorded w (migrate_all db names w).1
  unfolding migrate_all
  migrate_all_ok [] w h = (tt, λ n k. k)
  migrate_all_ok (name ∷ names) w h =
      let (now, rest, world) = go_on_ok (migrate_all db names) _ _ h in
      let (n, e, q) = migrate_ok db recorded pending laws name (migration_version name) w now in
      let (all, k) = migrate_all_ok names _ rest in
      rw world (((n, e, k n q.now), all), IsKept-trans q.kept k)

  recorded_put :
      (s : Bytes) (names : List Bytes) (w : W)
      → AllRecorded recorded (put_in s names) w
      → AllRecorded recorded (s ∷ names) w
  recorded_put s [] w h = h
  recorded_put s (t ∷ rest) w h = elim (Bool-cases (before s t)) [
    | inl y ↦ rw y at h
    | inr y ↦
        let (first, others) = (rw y at h) in
        let (own, behind) = recorded_put s rest w others in (own, (first, behind))
  ]

  recorded_sort :
      (names : List Bytes) (w : W)
      → AllRecorded recorded (sort_strings names) w
      → AllRecorded recorded names w
  unfolding sort_strings
  recorded_sort [] w h = h
  recorded_sort (s ∷ rest) w h =
      let (own, behind) = recorded_put s (sort_strings rest) w h in
      (own, recorded_sort rest w behind)

  -- What a part of Apply that ended well has done with the files.
  pub IsApplied : Option (List Bytes) → W → Type 0
  IsApplied none w = ⊥
  IsApplied (some names) w = AllRecorded recorded names w

  listed_ok :
      (o : Option (List Bytes)) (w : W) → (listed db o w).0 ≡ ok tt → IsApplied o (listed db o w).1
  unfolding listed IsApplied
  listed_ok none w h = absurd (ground arith)
  listed_ok (some names) w h = recorded_sort names _ (migrate_all_ok (sort_strings names) w h).0

  IsApplied-kept :
      (o : Option (List Bytes)) {a b : W} → IsKept recorded a b → IsApplied o a → IsApplied o b
  unfolding IsApplied
  IsApplied-kept none k h = h
  IsApplied-kept (some names) k h = kept_all names k h

  pub applied_names :
      (o : Option (List Bytes)) (names : List Bytes) (w : W)
      → o ≡ some names
      → IsApplied o w
      → AllRecorded recorded names w
  unfolding IsApplied
  applied_names none names w e h = absurd h
  applied_names (some ns) names w e h = subst (λ l. AllRecorded recorded l w) (some_inj e) h

  pub with_table_ok :
      (r : PgResult (Unit {0})) (w : W)
      → (with_table db r w).0 ≡ ok tt
      → IsApplied db.files (with_table db r w).1
  unfolding with_table
  with_table_ok (failed e) w h = absurd (ground arith)
  with_table_ok (done _) w h = listed_ok db.files w h

  with_lock_ok :
      (r : PgResult (Unit {0})) (w : W)
      → (with_lock db r w).0 ≡ ok tt
      → IsApplied db.files (with_lock db r w).1
  unfolding with_lock
  with_lock_ok (failed e) w h = absurd (ground arith)
  with_lock_ok (done _) w h = IsApplied-kept db.files (laws.unlock_kept _) (with_table_ok _ _ h)

  with_connection_ok :
      (r : PgResult (Unit {0})) (w : W)
      → (with_connection db r w).0 ≡ ok tt
      → IsApplied db.files (with_connection db r w).1
  unfolding with_connection
  with_connection_ok (failed e) w h = absurd (ground arith)
  with_connection_ok (done _) w h =
      IsApplied-kept db.files (laws.release_kept _) (with_lock_ok _ _ h)

  -- When Apply returns no error, the version of every file of the directory can be read and is
  -- recorded as applied.
  pub apply_ok :
      (names : List Bytes) (w : W)
      → db.files ≡ some names
      → (apply db w).0 ≡ ok tt
      → AllRecorded recorded names (apply db w).1
  unfolding apply
  apply_ok names w e h = applied_names db.files names _ e (with_connection_ok _ _ h)
