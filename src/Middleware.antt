-- ===== src/Middleware.antt =====
-- internal/middleware: request_id.go, recover.go, logger.go, instance.go and metrics.go, and the order
-- in which internal/router/router.go puts them around its handlers.
pub mod Stack
pub mod Identified
use url_shortener.Common.{
  ℕ, ◌+◌, ◌-◌, ◌/◌, ◌%◌, ◌&&◌, Bool, true, false, Bytes, codes, List, [], ◌∷◌, Option, none, some,
  length, ltb, leb, text_eq, if◌then◌else◌,
}
use url_shortener.World.{Action, pure, ◌>>=◌, ◌>>◌}
use url_shortener.World.Platform.{Platform}
use url_shortener.Web.{
  Header, HttpRequest, Writer, set_header, write_header, Ending, returned, panics, Handler,
}

-- The lines that the middleware logs; a duration is in microseconds.
pub data Line : Type 0 where
  -- "panic", with the request id, the method and the path
  panicked : Bytes → Bytes → Bytes → Line
  -- "http_request", with the request id, the method, the path, the status, the duration, the remote
  http_request : Bytes → Bytes → Bytes → ℕ → ℕ → Bytes → Line

-- What the middleware uses of its surroundings, besides the clock.
pub record Surroundings (W : Type 0) : Type 0 where
  -- rand.Read of 16 bytes; `none` is an error
  pub random : Action W (Option Bytes)
  -- slog.Logger
  pub log : Line → Action W (Unit {0})
  -- metrics.HTTPRequests.Observe of nanoseconds
  pub observe : ℕ → Action W (Unit {0})

abbrev pub request_id_header : Bytes
request_id_header = codes "X-Request-Id"

-- RequestIDFrom: the empty text where the context has no id
unfoldable pub request_id_from : Option Bytes → Bytes
request_id_from none = []
request_id_from (some id) = id

unfoldable pub valid_request_id : Bytes → Bool
valid_request_id id = ltb 0 (length id) && leb (length id) 128

unfoldable pub hex_digit : ℕ → ℕ
hex_digit d = if ltb d 10 then b'0' + d else b'a' + (d - 10)

-- hex.EncodeToString
unfoldable pub hex : Bytes → Bytes
unfolding hex_digit
hex [] = []
hex (b ∷ rest) = hex_digit (b / 16) ∷ hex_digit (b % 16) ∷ hex rest

unfoldable pub encoded : Option Bytes → Bytes
unfolding hex
encoded none = codes "unknown"
encoded (some buf) = hex buf

-- InstanceID
unfoldable pub instance_id : {W : Type 0} → Bytes → Handler W → Handler W
unfolding set_header
instance_id id next ctx r w = next ctx r (set_header (codes "X-Instance") id w)

module _ {W : Type 0} (p : Platform W) (env : Surroundings W) where
  unfoldable pub new_request_id : Action W Bytes
  unfolding encoded
  new_request_id = do buf ← env.random; pure (encoded buf)

  unfoldable pub chosen_id : Bytes → Action W Bytes
  unfolding valid_request_id new_request_id
  chosen_id id = if valid_request_id id then pure id else new_request_id

  -- RequestID
  unfoldable pub request_id : Handler W → Handler W
  unfolding chosen_id set_header
  request_id next ctx r w = do
    id ← chosen_id (r.header request_id_header)
    next (some id) r (set_header request_id_header id w)

  -- The deferred call of Recoverer
  unfoldable pub recovered :
      Option Bytes → HttpRequest → Ending × Writer → Action W (Ending × Writer)
  unfolding request_id_from write_header
  recovered ctx r (returned, w) = pure (returned, w)
  recovered ctx r (panics true, w) = pure (panics true, w)
  recovered ctx r (panics false, w) = do
    env.log (panicked (request_id_from ctx) r.method r.path)
    pure (returned, write_header 500 w)

  -- Recoverer
  unfoldable pub recoverer : Handler W → Handler W
  unfolding recovered
  recoverer next ctx r w = do e ← next ctx r w; recovered ctx r e

  -- What RequestLogger does after the handler: nothing when it panics.
  unfoldable pub logged :
      Option Bytes → HttpRequest → ℕ → Ending × Writer → Action W (Ending × Writer)
  unfolding request_id_from
  logged ctx r start (panics abort, w) = pure (panics abort, w)
  logged ctx r start (returned, w) = do
    now ← p.now
    env.log (
        http_request (request_id_from ctx) r.method r.path w.status ((now - start) / 1_000)
          r.remote)
    pure (returned, w)

  -- RequestLogger, with a fresh statusWriter around the writer
  unfoldable pub request_logger : Handler W → Handler W
  unfolding logged
  request_logger next ctx r w = do
    start ← p.now
    e ← next ctx r (record { header = w.header; sent = w.sent; status = 200 })
    logged ctx r start e

  -- What Metrics does after the handler: nothing when it panics.
  unfoldable pub observed : ℕ → Ending × Writer → Action W (Ending × Writer)
  observed start (panics abort, w) = pure (panics abort, w)
  observed start (returned, w) = do now ← p.now; env.observe (now - start); pure (returned, w)

  -- Metrics
  unfoldable pub metrics : Handler W → Handler W
  unfolding observed
  metrics next ctx r w = do start ← p.now; e ← next ctx r w; observed start e

  -- The middleware of New, the first that is used outermost
  unfoldable pub stack : Bytes → Handler W → Handler W
  unfolding instance_id recoverer request_id request_logger metrics
  stack instance h =
      let inner = recoverer (request_id (request_logger (metrics h))) in
      if text_eq instance [] then inner else instance_id instance inner
