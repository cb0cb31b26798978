-- ===== src/Consumer/Run/Kept.antt =====
-- What every call of the worker's clients keeps, handling a message keeps.
use url_shortener.Common.{
  ℕ, ◌+◌, Bytes, codes, Bool, true, false, Bool-cases, inl, inr, List, [], ◌∷◌, Option, none, some,
  text_eq,
}
use url_shortener.Common.Int64.{ℤ}
use url_shortener.Common.Decimal.{parse_int64}
use url_shortener.Errors.{Error, Result, ok, err}
use url_shortener.World.{Action}
use url_shortener.World.Platform.{Platform, Counter}
use url_shortener.World.Postgres.{PgResult, PgError, done, failed, no_rows}
use url_shortener.World.Analytics.{Worker, Message, Key}
use url_shortener.Consumer.{
  value_of, ack, claim, day_of, event_day, skip, finish, referrer_counted, total_counted, id_found,
  day_known, claim_known, handle, batched, batch,
}

-- The calls that `handle` makes keep `I`.
pub record IsWorkerKept {W : Type 0} (p : Platform W) (c : Worker W) (I : W → Type 0) : Type 0 where
  pub on_inc : (k : Counter) (w : W) → I w → I (p.inc k w).1
  pub on_ack : (id : Bytes) (w : W) → I w → I (c.ack id w).1
  pub on_insert_claim : (id : Bytes) (w : W) → I w → I (c.insert_claim id w).1
  pub on_select_id : (code : Bytes) (w : W) → I w → I (c.select_id code w).1
  pub on_upsert : (k : Key) (w : W) → I w → I (c.upsert k w).1
  pub on_unix_now : (w : W) → I w → I (c.unix_now w).1

module _ {W : Type 0} (p : Platform W) (c : Worker W) (I : W → Type 0)
    (kept : IsWorkerKept p c I) where
  skip_kept : (id : Bytes) (w : W) → I w → I (skip p c id w).1
  unfolding skip ack
  skip_kept id w h = kept.on_ack id _ (kept.on_inc _ w h)

  finish_kept : (id : Bytes) (w : W) → I w → I (finish p c id w).1
  unfolding finish ack
  finish_kept id w h = kept.on_ack id _ (kept.on_inc _ w h)

  referrer_kept :
      (id : Bytes) (r : PgResult (Unit {0})) (w : W) → I w → I (referrer_counted p c id r w).1
  unfolding referrer_counted
  referrer_kept id (failed e) w h = h
  referrer_kept id (done x) w h = finish_kept id w h

  total_kept :
      (id ref : Bytes) (url_id : ℕ) (day : Bytes) (r : PgResult (Unit {0})) (w : W)
      → I w
      → I (total_counted p c id ref url_id day r w).1
  unfolding total_counted
  total_kept id ref url_id day (failed e) w h = h
  total_kept id ref url_id day (done x) w h = elim (Bool-cases (text_eq ref [])) [
    | inl e ↦ rw e (finish_kept id w h)
    | inr e ↦ rw e (referrer_kept id _ _ (kept.on_upsert _ w h))
  ]

  id_kept : (id ref day : Bytes) (r : PgResult ℕ) (w : W) → I w → I (id_found p c id ref day r w).1
  unfolding id_found
  id_kept id ref day (failed no_rows) w h = skip_kept id w h
  id_kept id ref day (failed (PgError.pg_error state)) w h = h
  id_kept id ref day (failed PgError.failure) w h = h
  id_kept id ref day (done url_id) w h = total_kept id ref url_id day _ _ (kept.on_upsert _ w h)

  day_kept :
      (id code ref : Bytes) (r : Result Bytes) (w : W) → I w → I (day_known p c id code ref r w).1
  unfolding day_known
  day_kept id code ref (err e) w h = h
  day_kept id code ref (ok day) w h = id_kept id ref day _ _ (kept.on_select_id code w h)

  day_of_kept : (o : Option ℤ) (w : W) → I w → I (day_of p c o w).1
  unfolding day_of
  day_of_kept (some sec) w h = h
  day_of_kept none w h = kept.on_unix_now w h

  claim_known_kept :
      (msg : Message) (code : Bytes) (r : Result Bool) (w : W)
      → I w
      → I (claim_known p c msg code r w).1
  unfolding claim_known event_day
  claim_known_kept msg code (err e) w h = h
  claim_known_kept msg code (ok false) w h = skip_kept msg.id w h
  claim_known_kept msg code (ok true) w h =
      day_kept msg.id code _ _ _ (day_of_kept (parse_int64 (value_of (codes "ts") msg.values)) w h)

  pub handle_kept : (msg : Message) (w : W) → I w → I (handle p c msg w).1
  unfolding handle claim
  handle_kept msg w h = elim (Bool-cases (text_eq (value_of (codes "code") msg.values) [])) [
    | inl e ↦ rw e h
    | inr e ↦ rw e (claim_known_kept msg _ _ _ (kept.on_insert_claim msg.id w h))
  ]

  batched_kept :
      (next : Action W (ℕ × Option Error)) (n : ℕ) (r : Result (Unit {0})) (w : W)
      → I w
      → I (next w).1
      → I (batched p c next n r w).1
  unfolding batched
  batched_kept next n (err e) w h g = h
  batched_kept next n (ok x) w h g = g

  pub batch_kept : (n : ℕ) (msgs : List Message) (w : W) → I w → I (batch p c n msgs w).1
  unfolding batch
  batch_kept n [] w h = h
  batch_kept n (msg ∷ rest) w h =
      batched_kept _ n (handle p c msg w).0 _ (handle_kept msg w h)
        (batch_kept (n + 1) rest _ (handle_kept msg w h))
