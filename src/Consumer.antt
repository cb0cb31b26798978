-- ===== src/Consumer.antt =====
-- internal/consumer/consumer.go
pub mod Laws
pub mod Run
pub mod Ledger
use url_shortener.Common.{
  ℕ, zero, suc, ◌+◌, Bool, true, false, not, Bytes, codes, List, [], ◌∷◌, ◌++◌, Option, none, some,
  ◌==◌, contains, text_eq, if◌then◌else◌,
}
use url_shortener.Common.Int64.{ℤ}
use url_shortener.Common.Decimal.{parse_int64}
use url_shortener.Errors.{Error, Result, ok, err, driver, wrapped}
use url_shortener.World.{Action, pure, ◌>>=◌, ◌>>◌}
use url_shortener.World.Platform.{Platform, analytics_processed, analytics_deduped}
use url_shortener.World.Redis.{Reply, reply, nil, fail}
use url_shortener.World.Postgres.{PgResult, PgError, done, failed, no_rows}
use url_shortener.World.Analytics.{Worker, Message, Key, Dim}

abbrev pub batch_size : ℕ
batch_size = 32

-- `v, _ := msg.Values[name].(string)`
unfoldable pub value_of : Bytes → List (Bytes × Bytes) → Bytes
value_of name [] = []
value_of name ((k, v) ∷ rest) = if text_eq k name then v else value_of name rest

unfoldable pub replied : Reply (Unit {0}) → Result (Unit {0})
replied (reply _) = ok tt
replied nil = err driver
replied fail = err driver

-- `tag.RowsAffected() == 1`
unfoldable pub first_seen : PgResult ℕ → Result Bool
first_seen (done n) = ok (n == 1)
first_seen (failed e) = err driver

unfoldable pub concat : List (List Message) → List Message
concat [] = []
concat (s ∷ rest) = s ++ concat rest

module _ {W : Type 0} (p : Platform W) (c : Worker W) where
  -- An error that mentions BUSYGROUP says that the group exists.
  unfoldable pub group_error : Option Bytes → Result (Unit {0})
  group_error none = ok tt
  group_error (some text) =
      if contains text (codes "BUSYGROUP")
      then ok tt
      else err (wrapped (codes "create group") driver)

  unfoldable pub ensure_group : Action W (Result (Unit {0}))
  unfolding group_error
  ensure_group = do e ← c.create_group; pure (group_error e)

  unfoldable pub ack : Bytes → Action W (Result (Unit {0}))
  unfolding replied
  ack id = do r ← c.ack id; pure (replied r)

  unfoldable pub claim : Bytes → Action W (Result Bool)
  unfolding first_seen
  claim id = do r ← c.insert_claim id; pure (first_seen r)

  unfoldable pub day_of : Option ℤ → Action W (Result Bytes)
  day_of (some sec) = pure (ok (c.format_day sec))
  day_of none = do sec ← c.unix_now; pure (ok (c.format_day sec))

  -- A time stamp that cannot be read is replaced by the clock.
  unfoldable pub event_day : Message → Action W (Result Bytes)
  unfolding day_of
  event_day msg = day_of (parse_int64 (value_of (codes "ts") msg.values))

  unfoldable pub skip : Bytes → Action W (Result (Unit {0}))
  unfolding ack
  skip id = do p.inc analytics_deduped; ack id

  unfoldable pub finish : Bytes → Action W (Result (Unit {0}))
  unfolding ack
  finish id = do p.inc analytics_processed; ack id

  unfoldable pub referrer_counted : Bytes → PgResult (Unit {0}) → Action W (Result (Unit {0}))
  unfolding finish
  referrer_counted id (failed e) = pure (err (wrapped (codes "upsert referrer") driver))
  referrer_counted id (done _) = finish id

  unfoldable pub total_counted :
      Bytes → Bytes → ℕ → Bytes → PgResult (Unit {0}) → Action W (Result (Unit {0}))
  unfolding referrer_counted
  total_counted id ref url_id day (failed e) = pure (err (wrapped (codes "upsert total") driver))
  total_counted id ref url_id day (done _) = if text_eq ref [] then finish id else (do
    r ← c.upsert (record { url_id = url_id; day = day; dim = Dim.referrer; value = ref })
    referrer_counted id r)

  unfoldable pub id_found : Bytes → Bytes → Bytes → PgResult ℕ → Action W (Result (Unit {0}))
  unfolding skip total_counted
  id_found id ref day (failed no_rows) = skip id
  id_found id ref day (failed (PgError.pg_error state)) =
      pure (err (wrapped (codes "lookup code") driver))
  id_found id ref day (failed PgError.failure) = pure (err (wrapped (codes "lookup code") driver))
  id_found id ref day (done url_id) = do
    r ← c.upsert (record { url_id = url_id; day = day; dim = Dim.total; value = codes "clicks" })
    total_counted id ref url_id day r

  unfoldable pub day_known : Bytes → Bytes → Bytes → Result Bytes → Action W (Result (Unit {0}))
  unfolding id_found
  day_known id code ref (err e) = pure (err (wrapped (codes "bad ts") e))
  day_known id code ref (ok day) = do r ← c.select_id code; id_found id ref day r

  unfoldable pub claim_known : Message → Bytes → Result Bool → Action W (Result (Unit {0}))
  unfolding skip event_day day_known
  claim_known msg code (err e) = pure (err e)
  claim_known msg code (ok false) = skip msg.id
  claim_known msg code (ok true) = do
    day ← event_day msg
    day_known msg.id code (value_of (codes "referrer") msg.values) day

  unfoldable pub handle : Message → Action W (Result (Unit {0}))
  unfolding claim claim_known
  handle msg =
      let code = value_of (codes "code") msg.values in
      if text_eq code [] then pure (ok tt) else (do r ← claim msg.id; claim_known msg code r)

  -- What follows a message: the rest of the batch, or its end at the first error.
  unfoldable pub batched :
      Action W (ℕ × Option Error) → ℕ → Result (Unit {0}) → Action W (ℕ × Option Error)
  batched next n (err e) = pure (n, some (wrapped (codes "handle") e))
  batched next n (ok _) = next

  -- The loop over the messages.
  unfoldable pub batch : ℕ → List Message → Action W (ℕ × Option Error)
  unfolding batched
  batch n [] = pure (n, none)
  batch n (msg ∷ rest) = let next = batch (n + 1) rest in (do r ← handle msg; batched next n r)

  unfoldable pub received : Reply (List (List Message)) → Action W (ℕ × Option Error)
  unfolding batch concat
  received nil = pure (0, none)
  received fail = pure (0, some driver)
  received (reply streams) = batch 0 (concat streams)

  unfoldable pub process_once : Bool → Action W (ℕ × Option Error)
  unfolding received
  process_once block = do r ← c.read_group batch_size block; received r
