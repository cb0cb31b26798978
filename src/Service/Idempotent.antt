-- ===== src/Service/Idempotent.antt =====
-- createIdempotent and Create of internal/service/url.go.
pub mod Safe
pub mod Kept
pub mod Replay
use url_shortener.Common.{
  ℕ, zero, suc, ◌+◌, Bool, true, false, Bytes, codes, [], Option, none, some, length, ltb, text_eq,
  trim_space, if◌then◌else◌,
}
use url_shortener.Errors.{Result, ok, err, sentinel, context_done, idem_key_too_long, in_flight}
use url_shortener.World.{Action, pure, ◌>>=◌, ◌>>◌}
use url_shortener.World.Platform.{Platform, idempotency_replays, idempotency_skipped}
use url_shortener.Idempotency
use url_shortener.Idempotency.{IdemStore}
use url_shortener.Service.Expiry.{parse_expiry}
use url_shortener.Service.LongUrl.{UrlLib, validate_long_url}
use url_shortener.Service.UrlService.{UrlService}
use url_shortener.Service.Create.{CreateParams, CreateResult, create_one, replay}

abbrev pub max_idem_key_length : ℕ
max_idem_key_length = 256

abbrev pub idem_wait_polls : ℕ
idem_wait_polls = 5

-- 200 milliseconds
abbrev pub idem_wait_step : ℕ
idem_wait_step = 200_000_000

module _ {W P : Type 0} (lib : UrlLib P) (p : Platform W) (s : UrlService W P) where
  unfoldable pub replay_counted : Bytes → Action W (Result CreateResult)
  replay_counted code = do p.inc idempotency_replays; replay lib s code

  -- One poll of the wait loop; `rest` is the loop after it.
  unfoldable pub polled :
      Action W (Result CreateResult) → Result (Option Bytes) → Action W (Result CreateResult)
  unfolding replay_counted
  polled rest (ok (some code)) = replay_counted code
  polled rest (ok none) = rest
  polled rest (err e) = rest

  -- The wait loop with `n` polls left.
  unfoldable pub wait : IdemStore W → Bytes → ℕ → Action W (Result CreateResult)
  unfolding polled
  wait i key zero = pure (err (sentinel in_flight))
  wait i key (suc n) =
      let rest = wait i key n in
      (do
        stop ← p.context_done
        if stop
            then pure (err context_done)
            else (do p.sleep idem_wait_step; r ← Idempotency.get i key; polled rest r))

  module _ (custom_code long_url : Bytes) (expires_at : Option ℕ) (key : Bytes) where
    unfoldable pub create_skipped : Action W (Result CreateResult)
    create_skipped = do p.inc idempotency_skipped; create_one lib s custom_code long_url expires_at

    -- The claim is ours: a result is recorded and the claim released, whatever Redis answers.
    unfoldable pub record_result :
        IdemStore W → Result CreateResult → Action W (Result CreateResult)
    record_result i (err e) = pure (err e)
    record_result i (ok res) = do
      Idempotency.set i key res.url.code
      Idempotency.release i key
      pure (ok res)

    unfoldable pub create_claimed : IdemStore W → Action W (Result CreateResult)
    unfolding record_result
    create_claimed i = do
      res ← create_one lib s custom_code long_url expires_at
      record_result i res

    unfoldable pub claimed : IdemStore W → Result Bool → Action W (Result CreateResult)
    unfolding create_skipped create_claimed wait
    claimed i (err e) = create_skipped
    claimed i (ok true) = create_claimed i
    claimed i (ok false) = wait i key idem_wait_polls

    unfoldable pub looked_up : IdemStore W → Result (Option Bytes) → Action W (Result CreateResult)
    unfolding claimed
    looked_up i (err e) = create_skipped
    looked_up i (ok (some code)) = replay_counted code
    looked_up i (ok none) = do c ← Idempotency.claim i key; claimed i c

    unfoldable pub guarded : Option (IdemStore W) → Action W (Result CreateResult)
    unfolding looked_up
    guarded none = create_one lib s custom_code long_url expires_at
    guarded (some i) = do r ← Idempotency.get i key; looked_up i r

    unfoldable pub create_idempotent : Action W (Result CreateResult)
    unfolding guarded
    create_idempotent =
        if ltb max_idem_key_length (length key)
        then pure (err (sentinel idem_key_too_long))
        else guarded s.idem

  -- `if in.ExpiresIn != ""`
  unfoldable pub optional_expiry : Bytes → Action W (Result (Option ℕ))
  optional_expiry expires_in =
      if text_eq expires_in []
      then pure (ok none)
      else (do r ← parse_expiry p expires_in; pure (elim r [ ok t ↦ ok (some t) | err e ↦ err e ]))

  unfoldable pub not_replayed : Result CreateResult → Result CreateResult
  not_replayed (ok res) = ok (record { url = res.url; short_url = res.short_url; replayed = false })
  not_replayed (err e) = err e

  unfoldable pub create_validated :
      CreateParams → Bytes → Result (Option ℕ) → Action W (Result CreateResult)
  unfolding not_replayed
  create_validated params long_url (err e) = pure (err e)
  create_validated params long_url (ok expires_at) =
      let key = trim_space params.idempotency_key in
      if text_eq key []
      then (do r ← create_one lib s params.custom_code long_url expires_at; pure (not_replayed r))
      else create_idempotent params.custom_code long_url expires_at key

  unfoldable pub after_url : CreateParams → Result Bytes → Action W (Result CreateResult)
  unfolding create_validated optional_expiry
  after_url params (err e) = pure (err e)
  after_url params (ok long_url) = do
    x ← optional_expiry params.expires_in
    create_validated params long_url x

  unfoldable pub create : CreateParams → Action W (Result CreateResult)
  unfolding after_url
  create params = after_url params (validate_long_url lib s.block_domain params.url)
