-- ===== src/Tests/Server.antt =====
-- The theorems on the router and its middleware, for a server over the small world.
use url_shortener.Common.{
  ℕ, ◌≡◌, refl, Bytes, codes, true, false, List, [], ◌∷◌, none, some, some_inj, to_lower, arith,
}
use url_shortener.Web.{HttpRequest, returned, panics, Handler, write_header, send}
use url_shortener.Handler.{Decoded}
use url_shortener.Handler.Respond.{write_response}
use url_shortener.Middleware.{Surroundings, stack, request_id_header}
use url_shortener.Middleware.Stack.{IsRequestId, IsFilling, HasServed, prepared, stack_exact}
use url_shortener.Middleware.Identified.{IsPolite, new_writer, IsIdentified}
use url_shortener.Router.{
  Options, no_options, with_metrics, with_instance_id, configured, Parts, redirect_response, router,
}
use url_shortener.Router.Links.{IsLinkCode, router_link}
use url_shortener.Router.Identified.{router-IsIdentified}
use url_shortener.Tests.Sandbox.{Sand, platform}
use url_shortener.Tests.Sandbox.Net.{net}
use url_shortener.Tests.Sandbox.Chi.{lookup, lookup-MuxLaws}
use url_shortener.Tests.Links.{service, world}

abbrev sixteen : Bytes
sixteen = 1 ∷ 2 ∷ 3 ∷ 4 ∷ 5 ∷ 6 ∷ 7 ∷ 8 ∷ 9 ∷ 10 ∷ 11 ∷ 12 ∷ 13 ∷ 14 ∷ 15 ∷ 255 ∷ []

abbrev env : Surroundings Sand
env = record { random = λ w. (some sixteen, w); log = λ l w. (tt, w); observe = λ d w. (tt, w) }

filling : IsFilling env
filling w buf h = rw (← some_inj h) refl

abbrev status_only : ℕ → Handler Sand
status_only code ctx r w x = ((returned, write_header code w), x)

abbrev parts : Parts Sand Bytes
parts = record {
  lib = net;
  platform = platform;
  urls = service;
  env = env;
  lookup = lookup;
  no_route = status_only 404;
  prometheus = status_only 200;
  decode = λ r. Decoded.invalid_json;
  ping = λ w. (true, w);
  unix = λ w. (w.time, w);
  location = λ u. u;
}

abbrev opts : List (Options Sand → Options Sand)
opts = with_instance_id (codes "a") ∷ with_metrics ∷ []

abbrev visit : HttpRequest
visit = record {
  method = codes "GET";
  path = codes "/docs";
  header = λ n. [];
  remote = codes "1.2.3.4:5";
}

docs_code : IsLinkCode (codes "docs")
unfolding to_lower
docs_code = record {
  inhabited = λ h. absurd (ground arith);
  chars = (refl, (refl, (refl, (refl, tt))));
  free = record {
    not_api = λ h. absurd (ground arith);
    not_health = λ h. absurd (ground arith);
    not_ready = λ h. absurd (ground arith);
    not_metrics = λ h. absurd (ground arith);
  };
}

-- A handler that sends its header and then panics.
abbrev faulty : Handler Sand
faulty ctx r w x = ((panics false, write_header 200 w), x)

stack_exact_example :
    HasServed platform env filling
      (codes "a")
      faulty
      visit
      new_writer
      (stack platform env (codes "a") faulty none visit new_writer world)
stack_exact_example = stack_exact platform env filling (codes "a") faulty visit new_writer world

router_link_example :
    (id : Bytes) × ((at : Sand) × (IsRequestId id
        × ((router parts opts none visit new_writer world).0 ≡ (
          returned,
          write_response
              (λ u. u)
              (redirect_response parts (configured opts no_options) visit (codes "docs") at).0
              (prepared (configured opts no_options).instance_id id new_writer),
        ))))
router_link_example =
    router_link parts lookup-MuxLaws filling opts (codes "docs") visit world docs_code refl refl

polite : (code : ℕ) → IsPolite (status_only code)
unfolding write_header send
polite code ctx r w x = record { header = refl; sent = λ h. rw h refl }

router-IsIdentified_example :
    (id : Bytes) × (IsRequestId id
      × ((IsRequestId (visit.header request_id_header) → id ≡ visit.header request_id_header)
          × IsIdentified platform env filling id (router parts opts none visit new_writer world)))
router-IsIdentified_example =
    router-IsIdentified parts (polite 404) (polite 200) filling opts visit world
