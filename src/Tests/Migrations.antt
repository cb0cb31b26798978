-- ===== src/Tests/Migrations.antt =====
-- The theorem on Apply at a directory with two migrations, of which the first is recorded.
use url_shortener.Common.{
  ◌≡◌, ◌⊎◌, inl, inr, refl, sym, ap, ◌∙◌, Bool, true, false, Bytes, List, codes, [], ◌∷◌, some,
  arith, text_eq, text_eq_refl, ◌==◌,
}
use url_shortener.Common.Int64.{ℤ, pos, negsuc}
use url_shortener.Common.Decimal.{parse_int64, read_natural, read_digits, non_negative}
use url_shortener.Errors.{ok}
use url_shortener.World.Postgres.{done}
use url_shortener.Migrator.{
  Database, sort_strings, before_underscore, trim_up_sql, migration_version, committed,
  version_inserted, executed, begun, read, checked, migrate, go_on, migrate_all, listed, with_table,
  with_lock, with_connection, apply,
}
use url_shortener.Migrator.Again.{ExecutedLaws, apply-apply}
use url_shortener.World.{Action}
use url_shortener.Migrator.Executed.{IsDone, apply_complete}
use url_shortener.Migrator.Journal.{IsSame, JournalLaws}
use url_shortener.Migrator.Step.{DatabaseLaws}

-- What is committed, and what the open transaction has inserted.
pub record Schema : Type 0 where
  pub recorded : ℤ → Bool
  pub pending : ℤ → Bool

abbrev pub or_true : Bool → Bool → Bool
or_true true b = true
or_true false b = b

abbrev pub same : ℤ → ℤ → Bool
same (pos a) (pos b) = a == b
same (negsuc a) (negsuc b) = a == b
same (pos a) (negsuc b) = false
same (negsuc a) (pos b) = false

abbrev pub database : Database Schema
database = record {
  acquire = λ w. (done tt, w);
  release = λ w. (tt, w);
  lock = λ w. (done tt, w);
  unlock = λ w. (tt, w);
  ensure_table = λ w. (done tt, w);
  is_recorded = λ n w. (done (w.recorded n), w);
  begin = λ w. (done tt, record { recorded = w.recorded; pending = λ n. false });
  execute = λ text w. (done tt, w);
  insert_version = λ m w.
      (done tt, record { recorded = w.recorded; pending = λ n. or_true (same m n) (w.pending n) });
  rollback = λ w. (tt, record { recorded = w.recorded; pending = λ n. false });
  commit = λ w. (
    done tt,
    record { recorded = λ n. or_true (w.recorded n) (w.pending n); pending = λ n. false },
  );
  files = some (codes "0002_stats.up.sql" ∷ codes "0001_init.up.sql" ∷ []);
  read_file = λ name. some (codes "SELECT 1");
}

same_refl : (n : ℤ) → same n n ≡ true
same_refl (pos a) = ground arith
same_refl (negsuc a) = ground arith

or_first : (a b : Bool) → a ≡ true → or_true a b ≡ true
or_first a b h = rw h refl

or_second : (a b : Bool) → b ≡ true → or_true a b ≡ true
or_second true b h = refl
or_second false b h = h

pub database_laws : DatabaseLaws database (λ w. w.recorded) (λ w. w.pending)
database_laws = record {
  acquire_kept = λ w n h. h;
  release_kept = λ w n h. h;
  lock_kept = λ w n h. h;
  unlock_kept = λ w n h. h;
  ensure_kept = λ w n h. h;
  check_kept = λ m w n h. h;
  check_done = λ m w b h. ground arith;
  begin_kept = λ w n h. h;
  execute_kept = λ text w n h. h;
  insert_kept = λ m w n h. h;
  insert_done = λ m w h. or_first (same m m) (w.pending m) (same_refl m);
  commit_kept = λ w n h. or_first (w.recorded n) (w.pending n) h;
  commit_done = λ w h n p. or_second (w.recorded n) (w.pending n) p;
}

abbrev pub first_only : Schema
first_only = record { recorded = λ n. same (pos 1) n; pending = λ n. false }

pub applies : (apply database first_only).0 ≡ ok tt
unfolding apply with_connection with_lock with_table listed sort_strings migrate_all go_on migrate
    checked read begun executed version_inserted committed migration_version before_underscore
    trim_up_sql text_eq parse_int64 read_natural read_digits non_negative
applies = refl

-- The texts that were executed, beside a database.
record Journal : Type 0 where
  schema : Schema
  texts : List Bytes

-- A call that executes no migration.
abbrev on_schema : {A : Type 0} → Action Schema A → Action Journal A
on_schema m w = ((m w.schema).0, record { schema = (m w.schema).1; texts = w.texts })

abbrev journaled : Database Journal
journaled = record {
  acquire = on_schema database.acquire;
  release = on_schema database.release;
  lock = on_schema database.lock;
  unlock = on_schema database.unlock;
  ensure_table = on_schema database.ensure_table;
  is_recorded = λ n. on_schema (database.is_recorded n);
  begin = on_schema database.begin;
  execute = λ text w. (done tt, record { schema = w.schema; texts = text ∷ w.texts });
  insert_version = λ n. on_schema (database.insert_version n);
  rollback = on_schema database.rollback;
  commit = on_schema database.commit;
  files = database.files;
  read_file = database.read_file;
}

journal_laws : DatabaseLaws journaled (λ w. w.schema.recorded) (λ w. w.schema.pending)
journal_laws = record {
  acquire_kept = λ w n h. h;
  release_kept = λ w n h. h;
  lock_kept = λ w n h. h;
  unlock_kept = λ w n h. h;
  ensure_kept = λ w n h. h;
  check_kept = λ m w n h. h;
  check_done = λ m w b h. ground arith;
  begin_kept = λ w n h. h;
  execute_kept = λ text w n h. h;
  insert_kept = λ m w n h. h;
  insert_done = λ m w h. or_first (same m m) (w.schema.pending m) (same_refl m);
  commit_kept = λ w n h. or_first (w.schema.recorded n) (w.schema.pending n) h;
  commit_done = λ w h n p. or_second (w.schema.recorded n) (w.schema.pending n) p;
}

executed_laws : ExecutedLaws journaled (λ w. w.texts)
executed_laws = record {
  on_acquire = λ w. refl;
  on_release = λ w. refl;
  on_lock = λ w. refl;
  on_unlock = λ w. refl;
  on_ensure = λ w. refl;
  on_check = λ n w. refl;
}

abbrev journal : Journal
journal = record { schema = first_only; texts = [] }

applies_journaled : (apply journaled journal).0 ≡ ok tt
unfolding apply with_connection with_lock with_table listed sort_strings migrate_all go_on migrate
    checked read begun executed version_inserted committed migration_version before_underscore
    trim_up_sql text_eq parse_int64 read_natural read_digits non_negative
applies_journaled = refl

apply-apply_example :
    (apply journaled (apply journaled journal).1).1.texts ≡ (apply journaled journal).1.texts
apply-apply_example =
    apply-apply journaled (λ w. w.schema.recorded) (λ w. w.schema.pending) journal_laws
      (λ w. w.texts) executed_laws (codes "0002_stats.up.sql" ∷ codes "0001_init.up.sql" ∷ []) refl
      journal applies_journaled

abbrev is_in : Bytes → List Bytes → Bool
is_in text [] = false
is_in text (t ∷ rest) = let behind = is_in text rest in or_true (text_eq t text) behind

abbrev ran : Journal → Bytes → Bool
ran w text = is_in text w.texts

same_sound : (a b : ℤ) → same a b ≡ true → a ≡ b
same_sound (pos a) (pos b) h = ground arith
same_sound (negsuc a) (negsuc b) h = ground arith
same_sound (pos a) (negsuc b) h = absurd (ground arith)
same_sound (negsuc a) (pos b) h = absurd (ground arith)

either : (a b : Bool) → or_true a b ≡ true → (a ≡ true) ⊎ (b ≡ true)
either true b h = inl refl
either false b h = inr h

turned : {A B C D : Type 0} → (A → D) → (B → C) → A ⊎ B → C ⊎ D
turned f g (inl a) = inr (f a)
turned f g (inr b) = inl (g b)

unchanged :
    (w w' : Journal)
    → w'.schema ≡ w.schema
    → w'.texts ≡ w.texts
    → IsSame (λ w. w.schema.recorded) (λ w. w.schema.pending) ran w w'
unchanged w w' e f = record {
  same_recorded = λ n h. ap (λ s. s.recorded n) (sym e) ∙ h;
  same_pending = λ n h. ap (λ s. s.pending n) (sym e) ∙ h;
  same_ran = λ text h. ap (is_in text) f ∙ h;
}

executes :
    (text : Bytes) (w : Journal)
    → IsSame (λ w. w.schema.recorded) (λ w. w.schema.pending) ran w (journaled.execute text w).1
executes text w = record {
  same_recorded = λ n h. h;
  same_pending = λ n h. h;
  same_ran = λ t h. or_second (text_eq text t) (is_in t w.texts) h;
}

run_laws : JournalLaws journaled (λ w. w.schema.recorded) (λ w. w.schema.pending) ran
run_laws = record {
  on_check = λ n w. unchanged w _ refl refl;
  on_ensure = λ w. unchanged w _ refl refl;
  unlock_ran = λ w text h. h;
  release_ran = λ w text h. h;
  on_execute = executes;
  execute_done = λ text w h. or_first (text_eq text text) (is_in text w.texts) (text_eq_refl text);
  begin_recorded = λ w n h. h;
  begin_pending = λ w n h. refl;
  begin_ran = λ w text h. h;
  insert_recorded = λ m w n h. h;
  insert_pending =
      λ m w n h. turned (same_sound m n) (λ x. x) (either (same m n) (w.schema.pending n) h);
  insert_ran = λ m w text h. h;
  commit_recorded = λ w n h. either (w.schema.recorded n) (w.schema.pending n) h;
  commit_ran = λ w text h. h;
}

abbrev names : List Bytes
names = codes "0002_stats.up.sql" ∷ codes "0001_init.up.sql" ∷ []

apply_complete_example :
    IsDone journaled
      (λ w. w.schema.recorded)
      (λ w. w.schema.pending)
      ran
      run_laws
      names
      refl
      (codes "0002_stats.up.sql")
      journal
      (apply journaled journal).1
apply_complete_example =
    apply_complete journaled (λ w. w.schema.recorded) (λ w. w.schema.pending) ran run_laws names
      refl journal_laws (codes "0002_stats.up.sql") (inl refl) journal applies_journaled
