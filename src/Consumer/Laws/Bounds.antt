-- ===== src/Consumer/Laws/Bounds.antt =====
-- How far one event may move the counters, whichever of its statements fail.
use url_shortener.Common.{
  ℕ, suc, ◌≤◌, ◌≡◌, ◌⊎◌, inl, inr, refl, ◌∙◌, Bytes, codes, true, false, Bool-cases, [], Option,
  none, some, text_eq, if◌then◌else◌, arith,
}
use url_shortener.Common.Int64.{ℤ}
use url_shortener.Common.Decimal.{parse_int64}
use url_shortener.Errors.{Result, ok, err}
use url_shortener.World.Platform.{Platform}
use url_shortener.World.Postgres.{PgResult, PgError, done, failed, no_rows}
use url_shortener.World.Analytics.{Worker, Message, Key, Dim, Tally}
use url_shortener.Consumer.{
  value_of, day_of, event_day, referrer_counted, total_counted, id_found, day_known, claim_known,
}
use url_shortener.Consumer.Laws.{
  dim_eq, key_eq, Counts, WorkerLaws, IsUncounted, skip_lem, finish_lem,
}

-- One more for the key `k`.
abbrev pub bump : Key → Key → ℕ → ℕ
bump k j n = if key_eq k j then suc n else n

abbrev pub total_key : ℕ → Bytes → Key
total_key url_id day = record {
  url_id = url_id;
  day = day;
  dim = Dim.total;
  value = codes "clicks";
}

abbrev pub referrer_key : ℕ → Bytes → Bytes → Key
referrer_key url_id day ref = record { url_id = url_id; day = day; dim = Dim.referrer; value = ref }

one_dim : (d : Dim) → (dim_eq Dim.total d ≡ false) ⊎ (dim_eq Dim.referrer d ≡ false)
one_dim Dim.total = inr refl
one_dim Dim.referrer = inl refl

-- The two counters of an event are different rows.
bump_twice :
    (url_id n : ℕ) (day ref : Bytes) (j : Key)
    → bump (referrer_key url_id day ref) j (bump (total_key url_id day) j n) ≤ suc n
unfolding key_eq
bump_twice url_id n day ref j = elim (one_dim j.dim) [
  | inl h ↦ rw h (ground arith)
  | inr h ↦ rw h (ground arith)
]

-- From `w` to `w'` no claim has changed, and every counter has stayed or grown to at most `f`.
pub record IsWithin {W : Type 0} (t : Tally W) (f : Key → ℕ → ℕ) (w w' : W) : Type 0 where
  pub bound : (j : Key) → t.count w' j ≤ f j (t.count w j)
  pub same_claims : (i : Bytes) → t.is_claimed w' i ≡ t.is_claimed w i

module _ {W : Type 0} (t : Tally W) (p : Platform W) (c : Worker W) (laws : WorkerLaws t p c) where
  pub still-IsWithin : (w : W) → IsWithin t (λ j n. n) w w
  still-IsWithin w = record { bound = λ j. omega arith; same_claims = λ i. refl }

  pub uncounted-IsWithin : {w w' : W} → IsUncounted t w w' → IsWithin t (λ j n. n) w w'
  uncounted-IsWithin u = record {
    bound = λ j. let e = u.same_count j in omega arith;
    same_claims = u.same_claims;
  }

  upsert-IsWithin : (k : Key) (w : W) → IsWithin t (bump k) w (c.upsert k w).1
  upsert-IsWithin k w = go (c.upsert k w).0 refl
    where
      counted : Counts t k w (c.upsert k w).1 → IsWithin t (bump k) w (c.upsert k w).1
      counted q = record {
        bound = λ j. let e = q.count j in omega arith;
        same_claims = q.same_claims;
      }

      go : (r : PgResult (Unit {0})) → (c.upsert k w).0 ≡ r → IsWithin t (bump k) w (c.upsert k w).1
      go (done _) e = counted (laws.upsert_done k w e)
      go (failed x) e = elim (laws.upsert_failed k w x e) [
        | inl q ↦ record {
          bound = λ j. let e = q.same_count j in ground arith;
          same_claims = q.same_claims;
        }
        | inr q ↦ counted q
      ]

  referrer-IsWithin :
      (id : Bytes) (r : PgResult (Unit {0})) (w : W)
      → IsWithin t (λ j n. n) w (referrer_counted p c id r w).1
  unfolding referrer_counted
  referrer-IsWithin id (failed e) w = still-IsWithin w
  referrer-IsWithin id (done _) w = uncounted-IsWithin (finish_lem t p c laws id w).0

  total-IsWithin :
      (id ref : Bytes) (url_id : ℕ) (day : Bytes) (r : PgResult (Unit {0})) (w : W)
      → IsWithin t
          (bump (referrer_key url_id day ref))
          w
          (total_counted p c id ref url_id day r w).1
  unfolding total_counted
  total-IsWithin id ref url_id day (failed e) w = record {
    bound = λ j. ground arith;
    same_claims = λ i. refl;
  }
  total-IsWithin id ref url_id day (done _) w = elim (Bool-cases (text_eq ref [])) [
    | inl y ↦ rw y (
        let q = uncounted-IsWithin (finish_lem t p c laws id w).0 in
        record { bound = λ j. let e = q.bound j in ground arith; same_claims = q.same_claims })
    | inr y ↦ rw y (
        let f = upsert-IsWithin (referrer_key url_id day ref) w in
        let g =
          referrer-IsWithin id (c.upsert (referrer_key url_id day ref) w).0
            (c.upsert (referrer_key url_id day ref) w).1 in
        record {
          bound = λ j. let a = f.bound j in let b = g.bound j in omega arith;
          same_claims = λ i. g.same_claims i ∙ f.same_claims i;
        })
  ]

  id_found-IsWithin :
      (id ref day : Bytes) (r : PgResult ℕ) (w : W)
      → IsWithin t (λ j n. suc n) w (id_found p c id ref day r w).1
  unfolding id_found
  id_found-IsWithin id ref day (failed no_rows) w =
      let q = uncounted-IsWithin (skip_lem t p c laws id w).0 in
      record { bound = λ j. let e = q.bound j in omega arith; same_claims = q.same_claims }
  id_found-IsWithin id ref day (failed (PgError.pg_error state)) w = record {
    bound = λ j. omega arith;
    same_claims = λ i. refl;
  }
  id_found-IsWithin id ref day (failed PgError.failure) w = record {
    bound = λ j. omega arith;
    same_claims = λ i. refl;
  }
  id_found-IsWithin id ref day (done url_id) w =
      let f = upsert-IsWithin (total_key url_id day) w in
      let g =
        total-IsWithin id ref url_id day (c.upsert (total_key url_id day) w).0
          (c.upsert (total_key url_id day) w).1 in
      record {
        bound = λ j.
            let a = f.bound j in
            let b = g.bound j in let d = bump_twice url_id (t.count w j) day ref j in ground arith;
        same_claims = λ i. g.same_claims i ∙ f.same_claims i;
      }

  day_known-IsWithin :
      (id code ref : Bytes) (r : Result Bytes) (w : W)
      → IsWithin t (λ j n. suc n) w (day_known p c id code ref r w).1
  unfolding day_known
  day_known-IsWithin id code ref (err e) w = record {
    bound = λ j. omega arith;
    same_claims = λ i. refl;
  }
  day_known-IsWithin id code ref (ok day) w =
      let q = laws.select_still code w in
      let g = id_found-IsWithin id ref day (c.select_id code w).0 (c.select_id code w).1 in
      record {
        bound = λ j. let a = q.same_count j in let b = g.bound j in omega arith;
        same_claims = λ i. g.same_claims i ∙ q.same_claims i;
      }

  day_of-IsWithin : (o : Option ℤ) (w : W) → IsWithin t (λ j n. n) w (day_of p c o w).1
  unfolding day_of
  day_of-IsWithin (some sec) w = still-IsWithin w
  day_of-IsWithin none w =
      let q = laws.now_still w in
      record { bound = λ j. let e = q.same_count j in omega arith; same_claims = q.same_claims }

  pub counted-IsWithin :
      (msg : Message) (code : Bytes) (w : W)
      → IsWithin t (λ j n. suc n) w (claim_known p c msg code (ok true) w).1
  unfolding claim_known event_day
  counted-IsWithin msg code w =
      let f = day_of-IsWithin (parse_int64 (value_of (codes "ts") msg.values)) w in
      let g =
        day_known-IsWithin msg.id code (value_of (codes "referrer") msg.values)
          (event_day p c msg w).0 (event_day p c msg w).1 in
      record {
        bound = λ j. let a = f.bound j in let b = g.bound j in omega arith;
        same_claims = λ i. g.same_claims i ∙ f.same_claims i;
      }
