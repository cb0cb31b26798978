-- ===== src/Migrator/Journal.antt =====
-- The record of what Apply of migrate.go executes while it holds the lock.
use url_shortener.Common.{
  ◌≡◌, ◌⊎◌, inl, inr, Bool, true, false, Bool-cases, Bytes, List, [], ◌∷◌, some,
}
use url_shortener.Common.Int64.{ℤ}
use url_shortener.World.Postgres.{done}
use url_shortener.Migrator.{Database, before, put_in, sort_strings, migration_version}

abbrev pub IsListed : Bytes → List Bytes → Type 0
IsListed name [] = ⊥
IsListed name (other ∷ rest) = (name ≡ other) ⊎ IsListed name rest

put_in-IsListed :
    (name s : Bytes) (names : List Bytes)
    → IsListed name (put_in s names)
    → (name ≡ s) ⊎ IsListed name names
put_in-IsListed name s [] h = h
put_in-IsListed name s (t ∷ rest) h = elim (Bool-cases (before s t)) [
  | inl y ↦ rw y at h
  | inr y ↦ elim (rw y at h) [
    | inl e ↦ inr (inl e)
    | inr k ↦ elim (put_in-IsListed name s rest k) [ inl e ↦ inl e | inr l ↦ inr (inr l) ]
  ]
]

pub sort-IsListed :
    (name : Bytes) (names : List Bytes) → IsListed name (sort_strings names) → IsListed name names
unfolding sort_strings
sort-IsListed name [] h = h
sort-IsListed name (s ∷ rest) h = elim (put_in-IsListed name s (sort_strings rest) h) [
  | inl e ↦ inl e
  | inr k ↦ inr (sort-IsListed name rest k)
]

-- From `w` to `w'` nothing was recorded, and what the open transaction holds is as it was.
pub record IsSame {W : Type 0} (recorded pending : W → ℤ → Bool) (ran : W → Bytes → Bool) (w w' : W)
    : Type 0 where
  pub same_recorded : (n : ℤ) → recorded w' n ≡ true → recorded w n ≡ true
  pub same_pending : (n : ℤ) → pending w' n ≡ true → pending w n ≡ true
  pub same_ran : (text : Bytes) → ran w text ≡ true → ran w' text ≡ true

-- `ran` tells the texts that were executed without an error. While Apply holds the lock, a version is
-- recorded only by a commit, of what the transaction has inserted since it began.
pub record JournalLaws {W : Type 0} (db : Database W) (recorded pending : W → ℤ → Bool)
    (ran : W → Bytes → Bool) : Type 0 where
  pub on_check : (n : ℤ) (w : W) → IsSame recorded pending ran w (db.is_recorded n w).1
  pub on_ensure : (w : W) → IsSame recorded pending ran w (db.ensure_table w).1
  pub unlock_ran : (w : W) (text : Bytes) → ran w text ≡ true → ran (db.unlock w).1 text ≡ true
  pub release_ran : (w : W) (text : Bytes) → ran w text ≡ true → ran (db.release w).1 text ≡ true
  pub on_execute : (text : Bytes) (w : W) → IsSame recorded pending ran w (db.execute text w).1
  pub execute_done :
      (text : Bytes) (w : W)
      → (db.execute text w).0 ≡ done tt
      → ran (db.execute text w).1 text ≡ true
  pub begin_recorded : (w : W) (n : ℤ) → recorded (db.begin w).1 n ≡ true → recorded w n ≡ true
  pub begin_pending : (w : W) (n : ℤ) → (db.begin w).0 ≡ done tt → pending (db.begin w).1 n ≡ false
  pub begin_ran : (w : W) (text : Bytes) → ran w text ≡ true → ran (db.begin w).1 text ≡ true
  pub insert_recorded :
      (m : ℤ) (w : W) (n : ℤ) → recorded (db.insert_version m w).1 n ≡ true → recorded w n ≡ true
  pub insert_pending :
      (m : ℤ) (w : W) (n : ℤ)
      → pending (db.insert_version m w).1 n ≡ true
      → (pending w n ≡ true) ⊎ (m ≡ n)
  pub insert_ran :
      (m : ℤ) (w : W) (text : Bytes) → ran w text ≡ true → ran (db.insert_version m w).1 text ≡ true
  pub commit_recorded :
      (w : W) (n : ℤ)
      → recorded (db.commit w).1 n ≡ true
      → (recorded w n ≡ true) ⊎ (pending w n ≡ true)
  pub commit_ran : (w : W) (text : Bytes) → ran w text ≡ true → ran (db.commit w).1 text ≡ true

module _ {W : Type 0} (db : Database W) (recorded pending : W → ℤ → Bool)
    (ran : W → Bytes → Bool) where
  -- The text of a file with the version `n` was executed.
  pub record HasRun (names : List Bytes) (n : ℤ) (w : W) : Type 0 where
    pub name : Bytes
    pub text : Bytes
    pub listed : IsListed name names
    pub version : migration_version name ≡ some n
    pub content : db.read_file name ≡ some text
    pub has_run : ran w text ≡ true

  -- Every version that is recorded in `w'` was recorded in `w`, or a file of that version was executed.
  abbrev pub Justified : List Bytes → W → W → Type 0
  Justified names w w' = (n : ℤ) → recorded w' n ≡ true → (recorded w n ≡ true) ⊎ HasRun names n w'

  -- What was executed stays executed.
  abbrev pub Grows : W → W → Type 0
  Grows w w' = (text : Bytes) → ran w text ≡ true → ran w' text ≡ true

  -- A part of Apply has justified what it recorded.
  pub record IsStep (names : List Bytes) (w w' : W) : Type 0 where
    pub justified : Justified names w w'
    pub grows : Grows w w'

module _ {W : Type 0} {db : Database W} {recorded pending : W → ℤ → Bool}
    {ran : W → Bytes → Bool} where
  pub still_run :
      {names : List Bytes} {n : ℤ} {a b : W}
      → Grows db recorded pending ran a b
      → HasRun db recorded pending ran names n a
      → HasRun db recorded pending ran names n b
  still_run g r = record {
    name = r.name;
    text = r.text;
    listed = r.listed;
    version = r.version;
    content = r.content;
    has_run = g r.text r.has_run;
  }

  pub stay : (names : List Bytes) (w : W) → IsStep db recorded pending ran names w w
  stay names w = record { justified = λ n h. inl h; grows = λ text h. h }

  pub quiet :
      (names : List Bytes) {a b : W}
      → IsSame recorded pending ran a b
      → IsStep db recorded pending ran names a b
  quiet names q = record { justified = λ n h. inl (q.same_recorded n h); grows = q.same_ran }

  pub then :
      {names : List Bytes} {a b c : W}
      → IsStep db recorded pending ran names a b
      → IsStep db recorded pending ran names b c
      → IsStep db recorded pending ran names a c
  then f g = record {
    justified = λ n h. elim (g.justified n h) [
      | inl old ↦ elim (f.justified n old) [
        | inl older ↦ inl older
        | inr r ↦ inr (still_run g.grows r)
      ]
      | inr r ↦ inr r
    ];
    grows = λ text h. g.grows text (f.grows text h);
  }
