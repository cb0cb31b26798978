-- ===== src/Consumer/Laws/Once.antt =====
-- However often a message is delivered and whatever fails, it is counted at most once.
use url_shortener.Common.{
  ℕ, zero, suc, ◌≤◌, ◌≡◌, ◌⊎◌, inl, inr, refl, ◌∙◌, Bytes, codes, true, Bool-cases, [], text_eq,
  ◌==◌, arith,
}
use url_shortener.World.Platform.{Platform}
use url_shortener.World.Postgres.{PgResult, done, failed}
use url_shortener.World.Analytics.{Worker, Message, Key, Tally}
use url_shortener.Consumer.{value_of, first_seen, claim, claim_known, handle}
use url_shortener.Consumer.Laws.{WorkerLaws, skip_lem}
use url_shortener.Consumer.Laws.Bounds.{
  IsWithin, still-IsWithin, uncounted-IsWithin, counted-IsWithin,
}

-- A delivery of the message `id`, from `w` to `w'`: a counter grows by one at most, and only if the
-- id had not been claimed before, and then it is claimed.
pub record IsOnce {W : Type 0} (t : Tally W) (id : Bytes) (w w' : W) : Type 0 where
  pub bound : (j : Key) → t.count w' j ≤ suc (t.count w j)
  pub kept : t.is_claimed w id ≡ true → t.is_claimed w' id ≡ true
  pub repeated : t.is_claimed w id ≡ true → (j : Key) → t.count w' j ≤ t.count w j
  pub paid : ((j : Key) → t.count w' j ≤ t.count w j) ⊎ (t.is_claimed w' id ≡ true)

module _ {W : Type 0} (p : Platform W) (c : Worker W) where
  -- The stream delivers the message `n` times.
  unfoldable pub deliver : ℕ → Message → W → W
  deliver zero msg w = w
  deliver (suc n) msg w = deliver n msg (handle p c msg w).1

module _ {W : Type 0} (t : Tally W) (p : Platform W) (c : Worker W) (laws : WorkerLaws t p c) where
  IsOnce-refl : (id : Bytes) (w : W) → IsOnce t id w w
  IsOnce-refl id w = record {
    bound = λ j. omega arith;
    kept = λ h. h;
    repeated = λ h j. omega arith;
    paid = inl (λ j. omega arith);
  }

  -- After a claim that did not count, nothing is counted.
  unpaid :
      (id : Bytes) (w w' : W) → IsWithin t (λ j n. n) (c.insert_claim id w).1 w' → IsOnce t id w w'
  unpaid id w w' q = record {
    bound = λ j. let a = q.bound j in let b = laws.claim_count id w j in omega arith;
    kept = λ h. q.same_claims id ∙ laws.claim_keeps id w id h;
    repeated = λ h j. let a = q.bound j in let b = laws.claim_count id w j in omega arith;
    paid = inl (λ j. let a = q.bound j in let b = laws.claim_count id w j in omega arith);
  }

  claim_known-IsOnce :
      (msg : Message) (code : Bytes) (r : PgResult ℕ) (w : W)
      → (c.insert_claim msg.id w).0 ≡ r
      → IsOnce t msg.id w (claim_known p c msg code (first_seen r) (c.insert_claim msg.id w).1).1
  unfolding first_seen claim_known
  claim_known-IsOnce msg code (failed e) w h = unpaid msg.id w _ (still-IsWithin t p c laws _)
  claim_known-IsOnce msg code (done n) w h = elim (Bool-cases (n == 1)) [
    | inl y ↦ rw y (
        let (new, now) = laws.claim_done msg.id w n h in
        let q = counted-IsWithin t p c laws msg code (c.insert_claim msg.id w).1 in
        let fresh : t.is_claimed w msg.id ≡ true → ⊥ = λ old. ground arith in
        record {
          bound = λ j. let a = q.bound j in let b = laws.claim_count msg.id w j in omega arith;
          kept = λ old. absurd (fresh old);
          repeated = λ old. absurd (fresh old);
          paid = inr (q.same_claims msg.id ∙ now);
        })
    | inr y ↦
        rw y (unpaid msg.id w _ (uncounted-IsWithin t p c laws (skip_lem t p c laws msg.id _).0))
  ]

  handle-IsOnce : (msg : Message) (w : W) → IsOnce t msg.id w (handle p c msg w).1
  unfolding handle claim
  handle-IsOnce msg w = elim (Bool-cases (text_eq (value_of (codes "code") msg.values) [])) [
    | inl y ↦ rw y (IsOnce-refl msg.id w)
    | inr y ↦ rw y (claim_known-IsOnce msg _ _ w refl)
  ]

  IsOnce-trans : (id : Bytes) {u w w' : W} → IsOnce t id u w → IsOnce t id w w' → IsOnce t id u w'
  IsOnce-trans id {u} {w} {w'} f g = record {
    bound = λ j. elim f.paid [
      | inl free ↦ let a = free j in let b = g.bound j in omega arith
      | inr old ↦ let a = f.bound j in let b = g.repeated old j in omega arith
    ];
    kept = λ h. g.kept (f.kept h);
    repeated = λ h j. let a = f.repeated h j in let b = g.repeated (f.kept h) j in omega arith;
    paid = elim f.paid [
      | inr old ↦ inr (g.kept old)
      | inl free ↦ elim g.paid [
        | inr new ↦ inr new
        | inl free' ↦ inl (λ j. let a = free j in let b = free' j in omega arith)
      ]
    ];
  }

  deliver-IsOnce : (n : ℕ) (msg : Message) (w : W) → IsOnce t msg.id w (deliver p c n msg w)
  unfolding deliver
  deliver-IsOnce zero msg w = IsOnce-refl msg.id w
  deliver-IsOnce (suc n) msg w = IsOnce-trans msg.id (handle-IsOnce msg w) (deliver-IsOnce n msg _)

  -- However often a message is delivered, and whichever statements fail on the way, every counter
  -- grows by one at most.
  pub deliver_at_most_once :
      (n : ℕ) (msg : Message) (w : W) (j : Key)
      → t.count (deliver p c n msg w) j ≤ suc (t.count w j)
  deliver_at_most_once n msg w j = (deliver-IsOnce n msg w).bound j

  -- Once the id of an event is claimed, no counter grows however often it is delivered.
  pub deliver_claimed :
      (n : ℕ) (msg : Message) (w : W) (j : Key)
      → t.is_claimed w msg.id ≡ true
      → t.count (deliver p c n msg w) j ≤ t.count w j
  deliver_claimed n msg w j h = (deliver-IsOnce n msg w).repeated h j
