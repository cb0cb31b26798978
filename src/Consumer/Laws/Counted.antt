-- ===== src/Consumer/Laws/Counted.antt =====
-- A delivery that nothing disturbs counts the event, and one that fails behind the claim loses it.
use url_shortener.Common.{
  ℕ, ◌≡◌, ◌≢◌, inl, inr, refl, ap, ◌∙◌, Bytes, codes, true, false, Bool-cases, [], Option, none,
  some, text_eq, if◌then◌else◌,
}
use url_shortener.Common.Int64.{ℤ}
use url_shortener.Common.Decimal.{parse_int64}
use url_shortener.Errors.{Result, ok, err, driver, wrapped}
use url_shortener.World.Platform.{Platform}
use url_shortener.World.Postgres.{PgError, done, failed, no_rows}
use url_shortener.World.Analytics.{Worker, Message, Key, Tally, IsStill}
use url_shortener.Consumer.{
  value_of, day_of, event_day, finish, referrer_counted, total_counted, id_found, day_known,
  claim_known, handle,
}
use url_shortener.Consumer.Laws.{WorkerLaws, IsAcked, IsStill-refl, finish_lem}
use url_shortener.Consumer.Laws.Delivery.{
  IsWellFormed, IsClaimable, enters, claim_test, handle_duplicate,
}
use url_shortener.Consumer.Laws.Bounds.{bump, total_key, referrer_key}

-- The counters that an event with the referrer `ref` moves, each by one.
abbrev pub grown : ℕ → Bytes → Bytes → Key → ℕ → ℕ
grown url_id day ref j n =
    let total = bump (total_key url_id day) j n in
    if text_eq ref [] then total else bump (referrer_key url_id day ref) j total

-- Every look-up of the code gives the row's id, and every upsert is carried out.
pub record IsCounting {W : Type 0} (c : Worker W) (code : Bytes) (url_id : ℕ) : Type 0 where
  pub known : (w : W) → (c.select_id code w).0 ≡ done url_id
  pub upserted : (k : Key) (w : W) → (c.upsert k w).0 ≡ done tt

module _ {W : Type 0} (t : Tally W) (p : Platform W) (c : Worker W) (laws : WorkerLaws t p c) where
  -- What a delivery behind the claim has done: the counters are as `f` says, no claim has changed,
  -- and an acknowledgement that succeeded is seen.
  record IsDone (id : Bytes) (f : Key → ℕ → ℕ) (w : W) (r : Result (Unit {0})) (w' : W)
      : Type 0 where
    count : (j : Key) → t.count w' j ≡ f j (t.count w j)
    same_claims : (i : Bytes) → t.is_claimed w' i ≡ t.is_claimed w i
    acked : IsAcked t id r w'

  finished : (id : Bytes) (w : W) → IsDone id (λ j n. n) w (finish p c id w).0 (finish p c id w).1
  finished id w =
      let (u, a) = finish_lem t p c laws id w in
      record { count = u.same_count; same_claims = u.same_claims; acked = a }

  total_done :
      (id code ref : Bytes) (url_id : ℕ) (day : Bytes) (w : W)
      → IsCounting c code url_id
      → IsDone id
          (λ j n. if text_eq ref [] then n else bump (referrer_key url_id day ref) j n)
          w
          (total_counted p c id ref url_id day (done tt) w).0
          (total_counted p c id ref url_id day (done tt) w).1
  unfolding total_counted referrer_counted
  total_done id code ref url_id day w up = elim (Bool-cases (text_eq ref [])) [
    | inl y ↦ rw y (finished id w)
    | inr y ↦
        rw (y, up.upserted (referrer_key url_id day ref) w, referrer_counted)
          (let f = laws.upsert_done (referrer_key url_id day ref) w (up.upserted _ w) in
            let g = finished id (c.upsert (referrer_key url_id day ref) w).1 in
            record {
              count = λ j. g.count j ∙ f.count j;
              same_claims = λ i. g.same_claims i ∙ f.same_claims i;
              acked = g.acked;
            })
  ]

  row_done :
      (id code ref day : Bytes) (url_id : ℕ) (w : W)
      → IsCounting c code url_id
      → IsDone id
          (grown url_id day ref)
          w
          (id_found p c id ref day (done url_id) w).0
          (id_found p c id ref day (done url_id) w).1
  unfolding id_found
  row_done id code ref day url_id w up = rw (up.upserted (total_key url_id day) w) (
      let f = laws.upsert_done (total_key url_id day) w (up.upserted _ w) in
      let g = total_done id code ref url_id day (c.upsert (total_key url_id day) w).1 up in
      record {
        count = λ j.
            g.count j
            ∙ ap (λ n. if text_eq ref [] then n else bump (referrer_key url_id day ref) j n)
                (f.count j);
        same_claims = λ i. g.same_claims i ∙ f.same_claims i;
        acked = g.acked;
      })

  day-IsDone :
      (id code ref day : Bytes) (url_id : ℕ) (w : W)
      → IsCounting c code url_id
      → IsDone id
          (grown url_id day ref)
          w
          (day_known p c id code ref (ok day) w).0
          (day_known p c id code ref (ok day) w).1
  unfolding day_known
  day-IsDone id code ref day url_id w up =
      let s = laws.select_still code w in
      rw (up.known w) (
        let g = row_done id code ref day url_id (c.select_id code w).1 up in
        record {
          count = λ j. g.count j ∙ ap (grown url_id day ref j) (s.same_count j);
          same_claims = λ i. g.same_claims i ∙ s.same_claims i;
          acked = g.acked;
        })

  -- An event whose id is new and whose time stamp can be read, while PostgreSQL carries out the
  -- statements: the total of its link and day grows by one, and so does the row of its referrer if it
  -- has one; no other counter changes, the id is claimed, and the message is acknowledged if that
  -- works.
  pub handle_first :
      (msg : Message) (w : W) (url_id : ℕ) (sec : ℤ)
      → IsWellFormed msg
      → IsClaimable c msg.id w
      → t.is_claimed w msg.id ≡ false
      → parse_int64 (value_of (codes "ts") msg.values) ≡ some sec
      → IsCounting c (value_of (codes "code") msg.values) url_id
      → ((j : Key)
          → t.count (handle p c msg w).1 j
            ≡ grown url_id
                (c.format_day sec)
                (value_of (codes "referrer") msg.values)
                j
                (t.count w j))
        × (t.is_claimed (handle p c msg w).1 msg.id ≡ true)
        × IsAcked t msg.id (handle p c msg w).0 (handle p c msg w).1
  unfolding claim_known event_day day_of
  handle_first msg w url_id sec wf (n, answered) fresh stamp up =
      rw
        (
          enters t p c laws msg w wf,
          claim_test t p c laws msg.id w false (n, answered) fresh,
          stamp,
          day_of,
        )
        (let (_, now) = laws.claim_done msg.id w n answered in
          let g =
            day-IsDone msg.id _ (value_of (codes "referrer") msg.values) (c.format_day sec) url_id
              (c.insert_claim msg.id w).1 up in
          (
            λ j.
                g.count j
                ∙ ap (grown url_id (c.format_day sec) (value_of (codes "referrer") msg.values) j)
                    (laws.claim_count msg.id w j),
            g.same_claims msg.id ∙ now,
            g.acked,
          ))

  -- What reading the day of an event does: it gives a day, and nothing is counted, claimed or
  -- acknowledged by it.
  day_of_lem :
      (o : Option ℤ) (w : W)
      → ((day : Bytes) × ((day_of p c o w).0 ≡ ok day)) × IsStill t w (day_of p c o w).1
  unfolding day_of
  day_of_lem (some sec) w = ((_, refl), IsStill-refl w)
  day_of_lem none w = ((_, refl), laws.now_still w)

  look_up_failed :
      (id ref day : Bytes) (e : PgError) (w : W)
      → e ≢ no_rows
      → id_found p c id ref day (failed e) w ≡ (err (wrapped (codes "lookup code") driver), w)
  unfolding id_found
  look_up_failed id ref day no_rows w h = absurd (h refl)
  look_up_failed id ref day (PgError.pg_error state) w h = refl
  look_up_failed id ref day PgError.failure w h = refl

  -- When the look-up of the code fails behind a new claim, with any error but that there is no such
  -- row, the delivery ends in an error and nothing
  -- is counted; the id is claimed already, so the message's next delivery counts nothing either.
  pub handle_lost :
      (msg : Message) (w : W) (e : PgError)
      → IsWellFormed msg
      → IsClaimable c msg.id w
      → t.is_claimed w msg.id ≡ false
      → (c.select_id
          (value_of (codes "code") msg.values)
          (event_day p c msg (c.insert_claim msg.id w).1).1).0
        ≡ failed e
      → e ≢ no_rows
      → IsClaimable c msg.id (handle p c msg w).1
      → ((handle p c msg w).0 ≡ err (wrapped (codes "lookup code") driver))
        × ((j : Key) → t.count (handle p c msg (handle p c msg w).1).1 j ≡ t.count w j)
  unfolding claim_known event_day day_known
  handle_lost msg w e wf (n, answered) fresh fails other again =
      let (_, now) = laws.claim_done msg.id w n answered in
      let code = value_of (codes "code") msg.values in
      let stamp = parse_int64 (value_of (codes "ts") msg.values) in
      let ((day, known), still) = day_of_lem stamp (c.insert_claim msg.id w).1 in
      let w1 = (day_of p c stamp (c.insert_claim msg.id w).1).1 in
      let s = laws.select_still code w1 in
      let step : handle p c msg w
          ≡ (err (wrapped (codes "lookup code") driver), (c.select_id code w1).1) =
        rw
          (
            enters t p c laws msg w wf,
            claim_test t p c laws msg.id w false (n, answered) fresh,
            known,
            fails,
          )
          (look_up_failed msg.id (value_of (codes "referrer") msg.values) day e
            (c.select_id code w1).1 other) in
      let claimed : t.is_claimed (handle p c msg w).1 msg.id ≡ true =
        ap (λ r. t.is_claimed r.1 msg.id) step
        ∙ s.same_claims msg.id
        ∙ still.same_claims msg.id
        ∙ now in
      (
        ap (λ r. r.0) step,
        λ j.
            (handle_duplicate t p c laws msg (handle p c msg w).1 wf again claimed).0 j
            ∙ ap (λ r. t.count r.1 j) step
            ∙ s.same_count j
            ∙ still.same_count j
            ∙ laws.claim_count msg.id w j,
      )
