-- ===== src/Tests/Events.antt =====
-- The theorems on the worker, in a world of counters, claimed ids and acknowledged ids.
use url_shortener.Common.{
  ℕ, suc, ◌≤◌, ◌≡◌, inl, inr, refl, Bytes, codes, Bool, true, false, not, [], ◌∷◌, none, some,
  Option, text_eq, text_eq_refl, ◌==◌, if◌then◌else◌, arith, Bool-cases,
}
use url_shortener.Common.Int64.{ℤ, pos}
use url_shortener.Common.Decimal.{parse_int64, read_natural, read_digits, non_negative}
use url_shortener.Errors.{err, driver, wrapped}
use url_shortener.World.Platform.{Platform}
use url_shortener.World.Redis.{reply, nil}
use url_shortener.World.Postgres.{PgResult, PgError, done, failed}
use url_shortener.World.Analytics.{Worker, Message, Key, Dim, Tally}
use url_shortener.Consumer.{value_of, handle}
use url_shortener.Consumer.Ledger.{Ledger, book, book_all, counted, Shows, IsServing, deliver_all}
use url_shortener.Consumer.Ledger.Refined.{deliver_all-Shows}
use url_shortener.Consumer.Ledger.Once.{first, effectively_once}
use url_shortener.Consumer.Laws.{key_eq, WorkerLaws, IsAcked, IsStill-refl}
use url_shortener.Consumer.Laws.Delivery.{IsWellFormed, IsClaimable}
use url_shortener.Consumer.Laws.Once.{deliver, deliver_at_most_once}
use url_shortener.Consumer.Laws.Counted.{IsCounting, grown, handle_first, handle_lost}

record Desk : Type 0 where
  counts : Key → ℕ
  claims : Bytes → Bool
  acks : Bytes → Bool

abbrev tally : Tally Desk
tally = record { count = λ w. w.counts; is_claimed = λ w. w.claims; is_acked = λ w. w.acks }

abbrev platform : Platform Desk
platform = record {
  now = λ w. (0, w);
  sleep = λ d w. (tt, w);
  context_done = λ w. (false, w);
  inc = λ k w. (tt, w);
  marshal = λ u. none;
  unmarshal = λ s. none;
}

abbrev add : Bytes → (Bytes → Bool) → Bytes → Bool
add id f i = if text_eq id i then true else f i

abbrev fresh_rows : Bool → ℕ
fresh_rows true = 0
fresh_rows false = 1

-- A worker whose look-ups of a code give `found`.
abbrev worker : PgResult ℕ → Worker Desk
worker found = record {
  create_group = λ w. (none, w);
  read_group = λ n b w. (nil, w);
  ack = λ id w. (reply tt, record { counts = w.counts; claims = w.claims; acks = add id w.acks });
  insert_claim = λ id w. (
    done (fresh_rows (w.claims id)),
    record { counts = w.counts; claims = add id w.claims; acks = w.acks },
  );
  select_id = λ code w. (found, w);
  upsert = λ k w. (
    done tt,
    record {
      counts = λ j. if key_eq k j then suc (w.counts j) else w.counts j;
      claims = w.claims;
      acks = w.acks;
    },
  );
  format_day = λ sec. codes "2025-01-01";
  unix_now = λ w. (pos 0, w);
}

fresh_test : (b : Bool) → (fresh_rows b == 1) ≡ not b
fresh_test true = refl
fresh_test false = refl

add_keeps : (id i : Bytes) (f : Bytes → Bool) → f i ≡ true → add id f i ≡ true
add_keeps id i f h = elim (Bool-cases (text_eq id i)) [ inl e ↦ rw e refl | inr e ↦ rw e h ]

worker_laws : (found : PgResult ℕ) → WorkerLaws tally platform (worker found)
worker_laws found = record {
  inc_still = λ k w. IsStill-refl w;
  now_still = λ w. IsStill-refl w;
  select_still = λ code w. IsStill-refl w;
  ack_count = λ id w k. refl;
  ack_claims = λ id w i. refl;
  ack_done = λ id w h. rw text_eq_refl refl;
  claim_count = λ id w k. refl;
  claim_keeps = λ id w i h. add_keeps id i w.claims h;
  claim_done = λ id w n h.
      let same : fresh_rows (w.claims id) ≡ n = ground arith in
      (rw (← same) (fresh_test (w.claims id)), rw text_eq_refl refl);
  upsert_done =
      λ k w h. record { count = λ j. refl; same_claims = λ i. refl; same_acks = λ i. refl };
  upsert_failed = λ k w e h. absurd (ground arith);
}

abbrev click : Message
click = record {
  id = codes "1-0";
  values =
      (codes "code", codes "docs")
      ∷ (codes "ts", codes "17")
      ∷ (codes "referrer", codes "a.b")
      ∷ [];
}

abbrev empty : Desk
empty = record { counts = λ k. 0; claims = λ i. false; acks = λ i. false }

abbrev seen : Desk
seen = record { counts = λ k. 0; claims = λ i. true; acks = λ i. false }

well_formed : IsWellFormed click
unfolding value_of text_eq
well_formed h = ground arith

stamped : parse_int64 (value_of (codes "ts") click.values) ≡ some (pos 17)
unfolding parse_int64 value_of text_eq read_natural read_digits non_negative
stamped = refl

claimable : (found : PgResult ℕ) (w : Desk) → IsClaimable (worker found) (codes "1-0") w
claimable found w = (fresh_rows (w.claims (codes "1-0")), refl)

deliver_at_most_once_example :
    (deliver platform (worker (done 1)) 3 click empty).counts
      (record { url_id = 1; day = codes "2025-01-01"; dim = Dim.total; value = codes "clicks" })
    ≤ 1
deliver_at_most_once_example =
    deliver_at_most_once tally platform (worker (done 1)) (worker_laws (done 1)) 3 click empty
      (record { url_id = 1; day = codes "2025-01-01"; dim = Dim.total; value = codes "clicks" })

counting : IsCounting (worker (done 1)) (value_of (codes "code") click.values) 1
counting = record { known = λ w. refl; upserted = λ k w. refl }

handle_first_example :
    ((j : Key)
      → (handle platform (worker (done 1)) click empty).1.counts j
        ≡ grown 1 (codes "2025-01-01") (value_of (codes "referrer") click.values) j 0)
    × ((handle platform (worker (done 1)) click empty).1.claims (codes "1-0") ≡ true)
    × IsAcked tally
        (codes "1-0")
        (handle platform (worker (done 1)) click empty).0
        (handle platform (worker (done 1)) click empty).1
handle_first_example =
    handle_first tally platform (worker (done 1)) (worker_laws (done 1)) click empty 1 (pos 17)
      well_formed (claimable (done 1) empty) refl stamped counting

handle_lost_example :
    ((handle platform (worker (failed PgError.failure)) click empty).0
      ≡ err (wrapped (codes "lookup code") driver))
    × ((j : Key)
        → (handle platform
              (worker (failed PgError.failure))
              click
              (handle platform (worker (failed PgError.failure)) click empty).1).1.counts
            j
          ≡ 0)
handle_lost_example =
    handle_lost tally platform (worker (failed PgError.failure))
      (worker_laws (failed PgError.failure)) click empty PgError.failure well_formed
      (claimable (failed PgError.failure) empty) refl refl (λ e. absurd (ground arith))
      (claimable (failed PgError.failure)
        (handle platform (worker (failed PgError.failure)) click empty).1)

abbrev links : Bytes → Option ℕ
links code = some 1

serving : IsServing tally (worker (done 1)) links
serving = record {
  claimable = λ id w. (fresh_rows (w.claims id), refl);
  looked = λ code w. refl;
  upserted = λ k w. refl;
  claim_others = λ id i w h. rw h refl;
}

abbrev days : ℤ → Bytes
days sec = codes "2025-01-01"

abbrev blank : Ledger
blank = record { count = λ k. 0; seen = λ i. false }

deliver_all-Shows_example :
    Shows tally
      (book_all links days (click ∷ click ∷ []) blank)
      (deliver_all platform (worker (done 1)) (click ∷ click ∷ []) empty)
deliver_all-Shows_example =
    deliver_all-Shows tally platform (worker (done 1)) (worker_laws (done 1)) links serving
      (click ∷ click ∷ []) blank empty ((pos 17, stamped), ((pos 17, stamped), tt))
      (record { count = λ j. refl; seen = λ i. refl })

effectively_once_example :
    (deliver_all platform
        (worker (done 1))
        (click ∷ click ∷ [])
        (deliver_all platform (worker (done 1)) (click ∷ []) empty)).counts
      (record { url_id = 1; day = codes "2025-01-01"; dim = Dim.total; value = codes "clicks" })
    ≡ (deliver_all platform (worker (done 1)) (click ∷ []) empty).counts
        (record { url_id = 1; day = codes "2025-01-01"; dim = Dim.total; value = codes "clicks" })
effectively_once_example =
    effectively_once tally platform (worker (done 1)) (worker_laws (done 1)) links serving
      (click ∷ []) (click ∷ click ∷ []) empty ((pos 17, stamped), tt)
      ((pos 17, stamped), ((pos 17, stamped), tt)) (first, (first, tt))
      (record { url_id = 1; day = codes "2025-01-01"; dim = Dim.total; value = codes "clicks" })

-- Two deliveries of one event count it once.
counted_once :
    (book_all links days (click ∷ click ∷ []) blank).count
      (record { url_id = 1; day = codes "2025-01-01"; dim = Dim.total; value = codes "clicks" })
    ≡ 1
unfolding book_all book counted value_of text_eq parse_int64 read_natural read_digits non_negative
    key_eq
counted_once = refl
