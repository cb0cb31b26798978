-- ===== src/Consumer/Laws/Delivery.antt =====
-- Deliveries of a message: each event id is counted at most once, and exactly once if nothing fails.
use url_shortener.Common.{
  ℕ, ◌≡◌, ◌≢◌, inl, inr, refl, ap, ◌∙◌, Bytes, codes, Bool, true, not, Bool-cases, [], text_eq,
  text_eq_iff,
}
use url_shortener.Errors.{ok}
use url_shortener.World.Platform.{Platform}
use url_shortener.World.Postgres.{done}
use url_shortener.World.Analytics.{Worker, Message, Key, Tally}
use url_shortener.Consumer.{value_of, first_seen, claim, claim_known, handle}
use url_shortener.Consumer.Laws.{WorkerLaws, IsAcked, skip_lem}

-- The event names a code, so that it is not dropped as malformed.
abbrev pub IsWellFormed : Message → Type 0
IsWellFormed msg = value_of (codes "code") msg.values ≢ []

-- The statement that claims an id is carried out.
abbrev pub IsClaimable : {W : Type 0} → Worker W → Bytes → W → Type 0
IsClaimable c id w = (n : ℕ) × ((c.insert_claim id w).0 ≡ done n)

module _ {W : Type 0} (t : Tally W) (p : Platform W) (c : Worker W) (laws : WorkerLaws t p c) where
  -- A well-formed message goes through the claim.
  pub enters :
      (msg : Message) (w : W)
      → IsWellFormed msg
      → handle p c msg w
        ≡ claim_known p c msg
            (value_of (codes "code") msg.values)
            (first_seen (c.insert_claim msg.id w).0)
            (c.insert_claim msg.id w).1
  unfolding handle claim
  enters msg w h = elim (Bool-cases (text_eq (value_of (codes "code") msg.values) [])) [
    | inl e ↦ absurd (h ((text_eq_iff _ []).0 e))
    | inr e ↦ rw (e, handle) refl
  ]

  pub claim_test :
      (id : Bytes) (w : W) (b : Bool)
      → IsClaimable c id w
      → t.is_claimed w id ≡ b
      → first_seen (c.insert_claim id w).0 ≡ ok (not b)
  unfolding first_seen
  claim_test id w b (n, e) h =
      let (test, _) = laws.claim_done id w n e in rw e (ap ok (test ∙ ap not h))

  -- An event whose id is claimed already changes no counter, and is acknowledged if that works.
  pub handle_duplicate :
      (msg : Message) (w : W)
      → IsWellFormed msg
      → IsClaimable c msg.id w
      → t.is_claimed w msg.id ≡ true
      → ((k : Key) → t.count (handle p c msg w).1 k ≡ t.count w k)
        × IsAcked t msg.id (handle p c msg w).0 (handle p c msg w).1
  unfolding claim_known
  handle_duplicate msg w wf answered claimed =
      rw (enters msg w wf, claim_test msg.id w true answered claimed)
        (let (u, a) = skip_lem t p c laws msg.id (c.insert_claim msg.id w).1 in
          (λ k. u.same_count k ∙ laws.claim_count msg.id w k, a))
