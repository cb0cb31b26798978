-- ===== src/Handler.antt =====
-- internal/handler/url.go, respond.go and health.go
pub mod Outcome
pub mod Respond
pub mod RoundTrip
use url_shortener.Common.{
  ℕ, Bool, true, false, Bytes, codes, Option, none, some, List, map, if◌then◌else◌,
}
use url_shortener.Errors.{
  Error, Result, ok, err, is, not_found, expired, invalid_url, url_too_long, self_reference,
  invalid_code, invalid_expiry, code_taken, in_flight, idem_key_too_long,
}
use url_shortener.Model.{Url, StatsSummary}
use url_shortener.World.{Action, pure, ◌>>=◌, ◌>>◌}
use url_shortener.World.Platform.{Platform}
use url_shortener.Recorder.{Event}
use url_shortener.Service.LongUrl.{UrlLib}
use url_shortener.Service.UrlService.{UrlService, short_url_for}
use url_shortener.Service.Resolve
use url_shortener.Service.Resolve.{resolve, get_stats}
use url_shortener.Service.Create.{CreateParams, CreateResult}
use url_shortener.Service.Idempotent

-- The fields of a link in a response; times are printed by the client of time.Format.
pub record LinkBody : Type 0 where
  pub url : Bytes
  pub short_code : Bytes
  pub short_url : Bytes
  pub created_at : ℕ
  pub expires_at : Option ℕ

pub data Response : Type 0 where
  -- writeError: the status and the code of the error; its message and the request id are left out
  failure : ℕ → Bytes → Response
  -- a created or replayed link with the header Idempotency-Replay
  link_created : ℕ → Bytes → LinkBody → Response
  link : ℕ → LinkBody → Response
  stats : ℕ → StatsSummary → Response
  -- http.Redirect
  redirect_to : ℕ → Bytes → Response
  no_content : ℕ → Response
  -- the fields `status` and `database`
  health_status : ℕ → Bytes → Bytes → Response

-- json.Decoder on a body of at most MaxBodyBytes
pub data Decoded : Type 0 where
  body_too_large invalid_json : Decoded
  decoded : Bytes → Bytes → Bytes → Decoded

unfoldable pub create_error : Error → Response
create_error e =
    if is e invalid_url
    then failure 400 (codes "url_invalid")
    else if is e url_too_long
    then failure 400 (codes "url_too_long")
    else if is e self_reference
    then failure 400 (codes "self_reference")
    else if is e invalid_code
    then failure 400 (codes "custom_code_invalid")
    else if is e invalid_expiry
    then failure 400 (codes "expires_in_invalid")
    else if is e idem_key_too_long
    then failure 400 (codes "idempotency_key_too_long")
    else if is e in_flight
    then failure 409 (codes "idempotency_in_progress")
    else if is e code_taken
    then failure 409 (codes "custom_code_taken")
    else failure 500 (codes "internal")

unfoldable pub resolve_error : Error → Response
resolve_error e =
    if is e not_found
    then failure 404 (codes "not_found")
    else if is e expired
    then failure 410 (codes "link_expired")
    else failure 500 (codes "internal")

unfoldable pub delete_error : Error → Response
delete_error e =
    if is e not_found then failure 404 (codes "not_found") else failure 500 (codes "internal")

unfoldable pub created_body : CreateResult → LinkBody
created_body res = record {
  url = res.url.long_url;
  short_code = res.url.code;
  short_url = res.short_url;
  created_at = res.url.created_at;
  expires_at = res.url.expires_at;
}

unfoldable pub created : Result CreateResult → Response
created (err e) = create_error e
created (ok res) =
    if res.replayed
    then link_created 200 (codes "true") (created_body res)
    else link_created 201 (codes "false") (created_body res)

unfoldable pub deleted : Result (Unit {0}) → Response
deleted (ok _) = no_content 204
deleted (err e) = delete_error e

unfoldable pub summed : Result StatsSummary → Response
summed (err e) = resolve_error e
summed (ok total) = stats 200 total

module _ {W P : Type 0} (lib : UrlLib P) (s : UrlService W P) where
  unfoldable pub link_body : Url → LinkBody
  link_body u = record {
    url = u.long_url;
    short_code = u.code;
    short_url = short_url_for lib s u.code;
    created_at = u.created_at;
    expires_at = u.expires_at;
  }

  unfoldable pub got : Result Url → Response
  unfolding link_body
  got (err e) = resolve_error e
  got (ok u) = link 200 (link_body u)

module _ {W P : Type 0} (lib : UrlLib P) (p : Platform W) (s : UrlService W P) where
  unfoldable pub create : Decoded → Bytes → Action W Response
  unfolding created
  create body_too_large key = pure (failure 413 (codes "body_too_large"))
  create invalid_json key = pure (failure 400 (codes "invalid_json"))
  create (decoded url custom_code expires_in) key = do
    r ← Idempotent.create lib p s (record {
      url = url;
      custom_code = custom_code;
      expires_in = expires_in;
      idempotency_key = key;
    })
    pure (created r)

  unfoldable pub get : Bytes → Action W Response
  unfolding got
  get code = do r ← resolve p s code; pure (got lib s r)

  unfoldable pub to_delete : Result Url → Action W Response
  unfolding deleted
  to_delete (err e) = pure (resolve_error e)
  to_delete (ok u) = do r ← Resolve.delete p s u.code; pure (deleted r)

  unfoldable pub delete : Bytes → Action W Response
  unfolding to_delete
  delete code = do r ← resolve p s code; to_delete r

  unfoldable pub stats_for : Bytes → Action W Response
  unfolding summed
  stats_for code = do r ← get_stats p s code; pure (summed r)

  -- The recorder, if there is one, takes the event; `none` is a nil recorder.
  unfoldable pub record_click :
      Option (Event → Action W Bool) → Action W ℕ → Bytes → Bytes → Action W (Unit {0})
  record_click none unix code referrer = pure tt
  record_click (some push) unix code referrer = do
    t ← unix
    push (record { code = code; referrer = referrer; ts = t })
    pure tt

  unfoldable pub to_redirect :
      Option (Event → Action W Bool) → Action W ℕ → Bytes → Result Url → Action W Response
  unfolding record_click
  to_redirect rec unix referrer (err e) = pure (resolve_error e)
  to_redirect rec unix referrer (ok u) = do
    record_click rec unix u.code referrer
    pure (redirect_to 301 u.long_url)

  -- `unix` reads the clock: the Unix time of the event.
  unfoldable pub redirect :
      Option (Event → Action W Bool) → Action W ℕ → Bytes → Bytes → Action W Response
  unfolding to_redirect
  redirect rec unix referrer code = do r ← resolve p s code; to_redirect rec unix referrer r

-- Health, and Ready with the outcome of the ping
unfoldable pub health : Response
health = health_status 200 (codes "ok") (codes "")

unfoldable pub ready : Bool → Response
ready true = health_status 200 (codes "ready") (codes "ok")
ready false = health_status 503 (codes "unavailable") (codes "down")
