-- ===== src/Consumer/Laws.antt =====
-- What the worker relies on, and what one delivery of a message does to the counters.
pub mod Delivery
pub mod Bounds
pub mod Once
pub mod Counted
use url_shortener.Common.{
  ℕ, zero, suc, ◌+◌, ◌≤◌, ◌≡◌, ◌⊎◌, inl, inr, refl, sym, ap, ◌∙◌, Bytes, codes, Bool, true, false,
  not, ◌&&◌, ◌||◌, Bool-cases, List, [], ◌∷◌, Option, none, some, text_eq, text_eq_refl, ◌==◌,
  if◌then◌else◌, arith,
}
use url_shortener.Errors.{Error, Result, ok, err}
use url_shortener.World.{Action, View}
use url_shortener.World.Platform.{Platform, Counter}
use url_shortener.World.Redis.{Reply, reply, nil, fail}
use url_shortener.World.Postgres.{PgResult, PgError, done, failed}
use url_shortener.World.Analytics.{Worker, Message, Key, Dim, Tally, IsStill}
use url_shortener.Consumer.{replied, ack, skip, finish}

abbrev pub dim_eq : Dim → Dim → Bool
dim_eq Dim.total Dim.total = true
dim_eq Dim.referrer Dim.referrer = true
dim_eq _ _ = false

unfoldable pub key_eq : Key → Key → Bool
key_eq a b =
    (a.url_id == b.url_id)
    && (text_eq a.day b.day && (dim_eq a.dim b.dim && text_eq a.value b.value))

-- From `w` to `w'` the counter `k` has grown by one, and nothing else has changed.
pub record Counts {W : Type 0} (t : Tally W) (k : Key) (w w' : W) : Type 0 where
  pub count : (j : Key) → t.count w' j ≡ (if key_eq k j then suc (t.count w j) else t.count w j)
  pub same_claims : (i : Bytes) → t.is_claimed w' i ≡ t.is_claimed w i
  pub same_acks : (i : Bytes) → t.is_acked w' i ≡ t.is_acked w i

pub record WorkerLaws {W : Type 0} (t : Tally W) (p : Platform W) (c : Worker W) : Type 0 where
  pub inc_still : (k : Counter) (w : W) → IsStill t w (p.inc k w).1
  pub now_still : (w : W) → IsStill t w (c.unix_now w).1
  pub select_still : (code : Bytes) (w : W) → IsStill t w (c.select_id code w).1
  -- an acknowledgement changes no counter and no claim
  pub ack_count : (id : Bytes) (w : W) (k : Key) → t.count (c.ack id w).1 k ≡ t.count w k
  pub ack_claims :
      (id : Bytes) (w : W) (i : Bytes) → t.is_claimed (c.ack id w).1 i ≡ t.is_claimed w i
  pub ack_done :
      (id : Bytes) (w : W) → (c.ack id w).0 ≡ reply tt → t.is_acked (c.ack id w).1 id ≡ true
  -- a claim changes no counter; claims are never lost; one row is inserted exactly for a new id
  pub claim_count : (id : Bytes) (w : W) (k : Key) → t.count (c.insert_claim id w).1 k ≡ t.count w k
  pub claim_keeps :
      (id : Bytes) (w : W) (i : Bytes)
      → t.is_claimed w i ≡ true
      → t.is_claimed (c.insert_claim id w).1 i ≡ true
  pub claim_done :
      (id : Bytes) (w : W) (n : ℕ)
      → (c.insert_claim id w).0 ≡ done n
      → ((n == 1) ≡ not (t.is_claimed w id)) × (t.is_claimed (c.insert_claim id w).1 id ≡ true)
  -- an upsert that is done has counted; one that failed changed at most its own counter, by one
  pub upsert_done : (k : Key) (w : W) → (c.upsert k w).0 ≡ done tt → Counts t k w (c.upsert k w).1
  pub upsert_failed :
      (k : Key) (w : W) (e : PgError)
      → (c.upsert k w).0 ≡ failed e
      → IsStill t w (c.upsert k w).1 ⊎ Counts t k w (c.upsert k w).1

module _ {W : Type 0} {t : Tally W} where
  pub IsStill-refl : (w : W) → IsStill t w w
  IsStill-refl w = record { same_count = λ k. refl; same_claims = λ i. refl; same_acks = λ i. refl }

  pub IsStill-trans : {a b c : W} → IsStill t a b → IsStill t b c → IsStill t a c
  IsStill-trans f g = record {
    same_count = λ k. g.same_count k ∙ f.same_count k;
    same_claims = λ i. g.same_claims i ∙ f.same_claims i;
    same_acks = λ i. g.same_acks i ∙ f.same_acks i;
  }

-- From `w` to `w'` no counter and no claim has changed; acknowledgements may.
pub record IsUncounted {W : Type 0} (t : Tally W) (w w' : W) : Type 0 where
  pub same_count : (k : Key) → t.count w' k ≡ t.count w k
  pub same_claims : (i : Bytes) → t.is_claimed w' i ≡ t.is_claimed w i

-- An acknowledgement that succeeded is seen.
abbrev pub IsAcked : {W : Type 0} → Tally W → Bytes → Result (Unit {0}) → W → Type 0
IsAcked t id (ok _) w = t.is_acked w id ≡ true
IsAcked t id (err e) w = Unit {0}

module _ {W : Type 0} (t : Tally W) (p : Platform W) (c : Worker W) (laws : WorkerLaws t p c) where
  acked :
      (id : Bytes) (r : Reply (Unit {0})) (w : W)
      → (r ≡ reply tt → t.is_acked w id ≡ true)
      → IsAcked t id (replied r) w
  unfolding replied
  acked id (reply _) w h = h refl
  acked id nil w h = tt
  acked id fail w h = tt

  pub ack_lem :
      (id : Bytes) (w : W)
      → IsUncounted t w (ack p c id w).1 × IsAcked t id (ack p c id w).0 (ack p c id w).1
  unfolding ack
  ack_lem id w = (
    record { same_count = laws.ack_count id w; same_claims = laws.ack_claims id w },
    acked id _ _ (laws.ack_done id w),
  )

  still_first : {a b : W} (id : Bytes) → IsStill t a b → IsUncounted t a (ack p c id b).1
  still_first {a} {b} id q =
      let (u, _) = ack_lem id b in
      record {
        same_count = λ k. u.same_count k ∙ q.same_count k;
        same_claims = λ i. u.same_claims i ∙ q.same_claims i;
      }

  pub skip_lem :
      (id : Bytes) (w : W)
      → IsUncounted t w (skip p c id w).1 × IsAcked t id (skip p c id w).0 (skip p c id w).1
  unfolding skip
  skip_lem id w = (still_first id (laws.inc_still _ w), (ack_lem id _).1)

  pub finish_lem :
      (id : Bytes) (w : W)
      → IsUncounted t w (finish p c id w).1 × IsAcked t id (finish p c id w).0 (finish p c id w).1
  unfolding finish
  finish_lem id w = (still_first id (laws.inc_still _ w), (ack_lem id _).1)
