-- ===== src/Router.antt =====
-- internal/router/router.go: the options, the table of routes, and New. The multiplexer of
-- github.com/go-chi/chi is a function from the table, the method and the path to a route.
pub mod Mux
pub mod Links
pub mod Shadows
pub mod Identified
use url_shortener.Common.{
  ℕ, Bool, true, false, Bytes, codes, List, [], ◌∷◌, ◌++◌, Option, none, some, if◌then◌else◌,
}
use url_shortener.Common.Int64.{ℤ}
use url_shortener.World.{Action, pure, ◌>>=◌, ◌>>◌}
use url_shortener.World.Platform.{Platform}
use url_shortener.Web.{HttpRequest, Writer, set_header, write_header, Ending, returned, Handler}
use url_shortener.RateLimit
use url_shortener.RateLimit.{Counts, Limiter, Passage, served, refused, rate_limit}
use url_shortener.Recorder.{Event}
use url_shortener.Service.LongUrl.{UrlLib}
use url_shortener.Service.UrlService.{UrlService}
use url_shortener.Handler
use url_shortener.Handler.{Response, Decoded}
use url_shortener.Handler.Respond.{write_response}
use url_shortener.Middleware.{Surroundings, stack}

pub record Options (W : Type 0) : Type 0 where
  pub limiter : Option (Limiter W)
  pub recorder : Option (Event → Action W Bool)
  pub instance_id : Bytes
  pub metrics : Bool

unfoldable pub no_options : {W : Type 0} → Options W
no_options = record { limiter = none; recorder = none; instance_id = []; metrics = false }

unfoldable pub with_metrics : {W : Type 0} → Options W → Options W
with_metrics o = record {
  limiter = o.limiter;
  recorder = o.recorder;
  instance_id = o.instance_id;
  metrics = true;
}

unfoldable pub with_rate_limiter : {W : Type 0} → Counts W → Bytes → ℤ → Options W → Options W
with_rate_limiter rdb key_base per_minute o = record {
  limiter = some (rate_limit rdb key_base per_minute);
  recorder = o.recorder;
  instance_id = o.instance_id;
  metrics = o.metrics;
}

unfoldable pub with_recorder : {W : Type 0} → (Event → Action W Bool) → Options W → Options W
with_recorder rec o = record {
  limiter = o.limiter;
  recorder = some rec;
  instance_id = o.instance_id;
  metrics = o.metrics;
}

unfoldable pub with_instance_id : {W : Type 0} → Bytes → Options W → Options W
with_instance_id id o = record {
  limiter = o.limiter;
  recorder = o.recorder;
  instance_id = id;
  metrics = o.metrics;
}

-- The options take effect in their order.
unfoldable pub configured : {W : Type 0} → List (Options W → Options W) → Options W → Options W
configured [] o = o
configured (opt ∷ opts) o = configured opts (opt o)

pub data Target : Type 0 where
  health ready metrics create get delete stats redirect : Target

-- A route with its method and its pattern, or a group of routes under a prefix.
pub data Entry : Type 0 where
  handle : Bytes → Bytes → Target → Entry
  under : Bytes → List (Bytes × (Bytes × Target)) → Entry

unfoldable pub metrics_route : Bool → List Entry → List Entry
metrics_route true rest = handle (codes "GET") (codes "/metrics") metrics ∷ rest
metrics_route false rest = rest

-- The routes in the order in which New adds them.
unfoldable pub routes : {W : Type 0} → Options W → List Entry
unfolding metrics_route
routes o =
    handle (codes "GET") (codes "/health") health
    ∷ handle (codes "GET") (codes "/ready") ready
    ∷ metrics_route o.metrics (
        under (codes "/api/v1/urls") (
          (codes "POST", (codes "/", create))
          ∷ (codes "GET", (codes "/{code}", get))
          ∷ (codes "DELETE", (codes "/{code}", delete))
          ∷ (codes "GET", (codes "/{code}/stats", stats))
          ∷ [])
        ∷ handle (codes "GET") (codes "/{code}") redirect
        ∷ [])

-- What chi makes of a request: a route with the value of {code}, or none for the path or the method.
pub data Match : Type 0 where
  matched : Target → Bytes → Match
  unmatched : Match

-- The parts of the program that New wires, and what it takes from libraries.
pub record Parts (W P : Type 0) : Type 0 where
  pub lib : UrlLib P
  pub platform : Platform W
  pub urls : UrlService W P
  pub env : Surroundings W
  -- chi: the route of a method and a path
  pub lookup : List Entry → Bytes → Bytes → Match
  -- chi's answers 404 and 405
  pub no_route : Handler W
  -- promhttp.Handler
  pub prometheus : Handler W
  -- json.Decoder on the body of a request
  pub decode : HttpRequest → Decoded
  -- pool.Ping in Ready
  pub ping : Action W Bool
  -- time.Now().Unix()
  pub unix : Action W ℕ
  -- the header Location that http.Redirect writes
  pub location : Bytes → Bytes

module _ {W P : Type 0} (a : Parts W P) where
  unfoldable pub respond : Writer → Response → Action W (Ending × Writer)
  unfolding write_response
  respond w res = pure (returned, write_response a.location res w)

  -- The 429 of the rate limiter
  unfoldable pub limited : Limiter W → Writer → Passage Response → Action W (Ending × Writer)
  unfolding respond set_header write_header
  limited rl w (served res) = respond w res
  limited rl w (refused status seconds) = pure (
    returned,
    write_header status (
        set_header (codes "Retry-After") (rl.rdb.format_int seconds)
          (set_header (codes "Content-Type") (codes "application/json") w)),
  )

  unfoldable pub create_response : HttpRequest → Action W Response
  unfolding Handler.create
  create_response r =
      Handler.create a.lib a.platform a.urls (a.decode r) (r.header (codes "Idempotency-Key"))

  -- Create, behind the limiter if there is one
  unfoldable pub create_with : Option (Limiter W) → Handler W
  unfolding create_response limited respond
  create_with none ctx r w = do res ← create_response r; respond w res
  create_with (some rl) ctx r w = do
    res ← RateLimit.middleware a.platform rl (create_response r) r.remote
    limited rl w res

  unfoldable pub redirect_response : Options W → HttpRequest → Bytes → Action W Response
  redirect_response o r code =
      Handler.redirect a.lib a.platform a.urls o.recorder a.unix (r.header (codes "Referer")) code

  unfoldable pub served_by : Options W → Target → Bytes → Handler W
  unfolding create_with respond redirect_response
  served_by o health code ctx r w = respond w Handler.health
  served_by o ready code ctx r w = do ok ← a.ping; respond w (Handler.ready ok)
  served_by o metrics code ctx r w = a.prometheus ctx r w
  served_by o create code ctx r w = create_with o.limiter ctx r w
  served_by o get code ctx r w = do res ← Handler.get a.lib a.platform a.urls code; respond w res
  served_by o delete code ctx r w = do
    res ← Handler.delete a.lib a.platform a.urls code
    respond w res
  served_by o stats code ctx r w = do
    res ← Handler.stats_for a.lib a.platform a.urls code
    respond w res
  served_by o redirect code ctx r w = do res ← redirect_response o r code; respond w res

  unfoldable pub dispatch : Options W → Match → Handler W
  unfolding served_by
  dispatch o (matched t code) = served_by o t code
  dispatch o unmatched = a.no_route

  unfoldable pub routed : Options W → Handler W
  unfolding routes dispatch
  routed o ctx r w = dispatch o (a.lookup (routes o) r.method r.path) ctx r w

  -- New
  unfoldable pub router : List (Options W → Options W) → Handler W
  unfolding configured no_options routed stack
  router opts =
      let o = configured opts no_options in stack a.platform a.env o.instance_id (routed o)
