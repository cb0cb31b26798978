-- ===== src/Consumer/Ledger/Refined.antt =====
-- Handling messages does to the world what booking them does to the ledger.
use url_shortener.Common.{
  ℕ, ◌≡◌, ◌⊎◌, inl, inr, refl, sym, ap, ◌∙◌, Bool, true, false, not, Bool-cases, Bytes, codes, List,
  [], ◌∷◌, Option, none, some, All, text_eq, text_eq_iff, text_eq→eq, if◌then◌else◌, arith,
}
use url_shortener.Common.Int64.{ℤ}
use url_shortener.Common.Decimal.{parse_int64}
use url_shortener.Errors.{ok}
use url_shortener.World.Platform.{Platform}
use url_shortener.World.Postgres.{failed, no_rows}
use url_shortener.World.Analytics.{Worker, Message, Key, Tally}
use url_shortener.Consumer.{value_of, day_of, event_day, id_found, day_known, claim_known, handle}
use url_shortener.Consumer.Laws.{WorkerLaws, skip_lem}
use url_shortener.Consumer.Laws.Delivery.{IsWellFormed, enters, claim_test, handle_duplicate}
use url_shortener.Consumer.Laws.Bounds.{counted-IsWithin}
use url_shortener.Consumer.Laws.Counted.{handle_first}
use url_shortener.Consumer.Ledger.{
  Ledger, code_of, referrer_of, counted, book, book_all, Shows, row, IsServing, IsStamped,
  deliver_all,
}

module _ {W : Type 0} (t : Tally W) (p : Platform W) (c : Worker W) (laws : WorkerLaws t p c)
    (ids : Bytes → Option ℕ) (serving : IsServing t c ids) where
  claimed_marked :
      (id i : Bytes) (w : W)
      → t.is_claimed (c.insert_claim id w).1 i ≡ (if text_eq id i then true else t.is_claimed w i)
  claimed_marked id i w = elim (Bool-cases (text_eq id i)) [
    | inl e ↦
        let (n, answered) = serving.claimable id w in
        let (_, now) = laws.claim_done id w n answered in
        rw e (ap (t.is_claimed (c.insert_claim id w).1) (sym (text_eq→eq id i e)) ∙ now)
    | inr e ↦ rw e (serving.claim_others id i w e)
  ]

  known_claims :
      (msg : Message) (b : Bool) (x : W) (i : Bytes)
      → t.is_claimed (claim_known p c msg (code_of msg) (ok b) x).1 i ≡ t.is_claimed x i
  unfolding claim_known
  known_claims msg false x i = (skip_lem t p c laws msg.id x).0.same_claims i
  known_claims msg true x i = (counted-IsWithin t p c laws msg (code_of msg) x).same_claims i

  -- The claims after a well-formed message.
  handle_claims :
      (msg : Message) (w : W) (i : Bytes)
      → IsWellFormed msg
      → t.is_claimed (handle p c msg w).1 i ≡ (if text_eq msg.id i then true else t.is_claimed w i)
  handle_claims msg w i wf =
      ap (λ r. t.is_claimed r.1 i)
        (enters t p c laws msg w wf
          ∙ ap (λ r. claim_known p c msg (code_of msg) r (c.insert_claim msg.id w).1)
              (claim_test t p c laws msg.id w (t.is_claimed w msg.id) (serving.claimable msg.id w)
                refl))
      ∙ known_claims msg (not (t.is_claimed w msg.id)) (c.insert_claim msg.id w).1 i
      ∙ claimed_marked msg.id i w

  -- A new event of a code without a link counts nothing.
  handle_unknown :
      (msg : Message) (w : W) (sec : ℤ)
      → IsWellFormed msg
      → t.is_claimed w msg.id ≡ false
      → parse_int64 (value_of (codes "ts") msg.values) ≡ some sec
      → ids (code_of msg) ≡ none
      → (j : Key) → t.count (handle p c msg w).1 j ≡ t.count w j
  unfolding claim_known event_day day_of day_known id_found
  handle_unknown msg w sec wf fresh stamp missing j =
      let x = (c.insert_claim msg.id w).1 in
      let lost : (c.select_id (code_of msg) x).0 ≡ failed no_rows =
        serving.looked (code_of msg) x ∙ ap row missing in
      rw
        (
          enters t p c laws msg w wf,
          claim_test t p c laws msg.id w false (serving.claimable msg.id w) fresh,
          stamp,
          day_of,
          lost,
          id_found,
        )
        ((skip_lem t p c laws msg.id (c.select_id (code_of msg) x).1).0.same_count j
          ∙ (laws.select_still (code_of msg) x).same_count j
          ∙ laws.claim_count msg.id w j)

  -- A new event moves the counters as the ledger has it.
  handle_new :
      (msg : Message) (w : W) (sec : ℤ) (o : Option ℕ)
      → IsWellFormed msg
      → t.is_claimed w msg.id ≡ false
      → parse_int64 (value_of (codes "ts") msg.values) ≡ some sec
      → ids (code_of msg) ≡ o
      → (j : Key)
      → t.count (handle p c msg w).1 j
        ≡ counted ids c.format_day (referrer_of msg) o (some sec) j (t.count w j)
  unfolding counted
  handle_new msg w sec none wf fresh stamp missing j =
      handle_unknown msg w sec wf fresh stamp missing j
  handle_new msg w sec (some id) wf fresh stamp known j =
      (handle_first t p c laws msg w id sec wf (serving.claimable msg.id w) fresh stamp (record {
        known = λ x. serving.looked (code_of msg) x ∙ ap row known;
        upserted = serving.upserted;
      })).0
        j

  malformed-Shows :
      (msg : Message) (l : Ledger) (w : W)
      → text_eq (code_of msg) [] ≡ true
      → Shows t l w
      → Shows t (book ids c.format_day msg l) (handle p c msg w).1
  unfolding book handle
  malformed-Shows msg l w e s = rw e s

  well_formed : (msg : Message) → text_eq (code_of msg) [] ≡ false → IsWellFormed msg
  well_formed msg e z = absurd (ground (arith, text_eq_iff (code_of msg) []))

  seen-Shows :
      (msg : Message) (l : Ledger) (w : W)
      → text_eq (code_of msg) [] ≡ false
      → l.seen msg.id ≡ true
      → Shows t l w
      → Shows t (book ids c.format_day msg l) (handle p c msg w).1
  unfolding book
  seen-Shows msg l w e old s =
      let wf = well_formed msg e in
      let known : t.is_claimed w msg.id ≡ true = s.seen msg.id ∙ old in
      rw (e, old)
        (record {
          count = λ j.
              (handle_duplicate t p c laws msg w wf (serving.claimable msg.id w) known).0 j
              ∙ s.count j;
          seen = λ i. handle_claims msg w i wf ∙ still i (Bool-cases (text_eq msg.id i));
        })
    where
      still :
          (i : Bytes)
          → (text_eq msg.id i ≡ true) ⊎ (text_eq msg.id i ≡ false)
          → (if text_eq msg.id i then true else t.is_claimed w i) ≡ l.seen i
      still i (inl y) = rw y (sym old ∙ ap l.seen (text_eq→eq msg.id i y))
      still i (inr y) = rw y (s.seen i)

  new-Shows :
      (msg : Message) (l : Ledger) (w : W)
      → IsStamped msg
      → text_eq (code_of msg) [] ≡ false
      → l.seen msg.id ≡ false
      → Shows t l w
      → Shows t (book ids c.format_day msg l) (handle p c msg w).1
  unfolding book
  new-Shows msg l w (sec, stamp) e new s =
      let wf = well_formed msg e in
      rw (e, new, stamp)
        (record {
          count = λ j.
              handle_new msg w sec (ids (code_of msg)) wf (s.seen msg.id ∙ new) stamp refl j
              ∙ ap (counted ids c.format_day (referrer_of msg) (ids (code_of msg)) (some sec) j)
                  (s.count j);
          seen = λ i.
              handle_claims msg w i wf ∙ ap (λ b. if text_eq msg.id i then true else b) (s.seen i);
        })

  -- Handling one message refines booking it.
  handle-Shows :
      (msg : Message) (l : Ledger) (w : W)
      → IsStamped msg
      → Shows t l w
      → Shows t (book ids c.format_day msg l) (handle p c msg w).1
  handle-Shows msg l w stamp s = elim (Bool-cases (text_eq (code_of msg) [])) [
    | inl e ↦ malformed-Shows msg l w e s
    | inr e ↦ elim (Bool-cases (l.seen msg.id)) [
      | inl old ↦ seen-Shows msg l w e old s
      | inr new ↦ new-Shows msg l w stamp e new s
    ]
  ]

  -- While PostgreSQL carries out every statement: delivering messages whose time stamps can be read
  -- does to the counters and claims of the database exactly what booking them in their order does to
  -- the ledger, whether or not the acknowledgements succeed. A message without a code changes
  -- nothing, nor does one whose id is seen; any other counts once, if its code has a link.
  pub deliver_all-Shows :
      (msgs : List Message) (l : Ledger) (w : W)
      → All IsStamped msgs
      → Shows t l w
      → Shows t (book_all ids c.format_day msgs l) (deliver_all p c msgs w)
  unfolding book_all deliver_all
  deliver_all-Shows [] l w h s = s
  deliver_all-Shows (msg ∷ rest) l w (h, hs) s =
      deliver_all-Shows rest _ _ hs (handle-Shows msg l w h s)
