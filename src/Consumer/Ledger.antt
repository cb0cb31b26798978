-- ===== src/Consumer/Ledger.antt =====
-- What the worker promises, as a ledger of counters and of the ids that are seen: every event counts
-- once, whatever is delivered again. internal/consumer/consumer.go implements it while PostgreSQL
-- carries out the statements.
pub mod Refined
pub mod Once
use url_shortener.Common.{
  ℕ, ◌≡◌, Bool, true, false, Bytes, codes, List, [], ◌∷◌, Option, none, some, text_eq,
  if◌then◌else◌,
}
use url_shortener.Common.Int64.{ℤ}
use url_shortener.Common.Decimal.{parse_int64}
use url_shortener.World.{Action}
use url_shortener.World.Platform.{Platform}
use url_shortener.World.Postgres.{PgResult, PgError, done, failed, no_rows}
use url_shortener.World.Analytics.{Worker, Message, Key, Tally}
use url_shortener.Consumer.{value_of, handle}
use url_shortener.Consumer.Laws.Delivery.{IsClaimable}
use url_shortener.Consumer.Laws.Counted.{grown}

pub record Ledger : Type 0 where
  pub count : Key → ℕ
  pub seen : Bytes → Bool

abbrev pub code_of : Message → Bytes
code_of msg = value_of (codes "code") msg.values

abbrev pub referrer_of : Message → Bytes
referrer_of msg = value_of (codes "referrer") msg.values

-- `ids` gives the links by their codes, and `day` the day of a Unix time.
module _ (ids : Bytes → Option ℕ) (day : ℤ → Bytes) where
  -- The counters that move for an event at the time `sec`; none without a link, or without a time.
  unfoldable pub counted : Bytes → Option ℕ → Option ℤ → Key → ℕ → ℕ
  counted referrer none sec j n = n
  counted referrer (some id) none j n = n
  counted referrer (some id) (some sec) j n = grown id (day sec) referrer j n

  abbrev pub marked : Bytes → (Bytes → Bool) → Bytes → Bool
  marked id seen i = if text_eq id i then true else seen i

  -- An event that is seen already, or that names no code, changes nothing.
  unfoldable pub book : Message → Ledger → Ledger
  unfolding counted
  book msg l = if text_eq (code_of msg) [] then l else if l.seen msg.id then l else record {
    count = λ j.
        counted (referrer_of msg) (ids (code_of msg))
          (parse_int64 (value_of (codes "ts") msg.values)) j (l.count j);
    seen = marked msg.id l.seen;
  }

  unfoldable pub book_all : List Message → Ledger → Ledger
  unfolding book
  book_all [] l = l
  book_all (msg ∷ rest) l = book_all rest (book msg l)

-- The world shows the ledger.
pub record Shows {W : Type 0} (t : Tally W) (l : Ledger) (w : W) : Type 0 where
  pub count : (j : Key) → t.count w j ≡ l.count j
  pub seen : (i : Bytes) → t.is_claimed w i ≡ l.seen i

abbrev pub row : Option ℕ → PgResult ℕ
row none = failed no_rows
row (some id) = done id

-- PostgreSQL carries out every statement of the worker, the table of links is `ids`, and a claim
-- changes no other claim.
pub record IsServing {W : Type 0} (t : Tally W) (c : Worker W) (ids : Bytes → Option ℕ)
    : Type 0 where
  pub claimable : (id : Bytes) (w : W) → IsClaimable c id w
  pub looked : (code : Bytes) (w : W) → (c.select_id code w).0 ≡ row (ids code)
  pub upserted : (k : Key) (w : W) → (c.upsert k w).0 ≡ done tt
  pub claim_others :
      (id i : Bytes) (w : W)
      → text_eq id i ≡ false
      → t.is_claimed (c.insert_claim id w).1 i ≡ t.is_claimed w i

-- The time stamp can be read.
abbrev pub IsStamped : Message → Type 0
IsStamped msg = (sec : ℤ) × (parse_int64 (value_of (codes "ts") msg.values) ≡ some sec)

-- The messages are handled in their order, whether or not an acknowledgement fails.
unfoldable pub deliver_all : {W : Type 0} → Platform W → Worker W → List Message → W → W
deliver_all p c [] w = w
deliver_all p c (msg ∷ rest) w = deliver_all p c rest (handle p c msg w).1
