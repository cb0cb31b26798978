-- ===== src/Router/Shadows.antt =====
-- A link that the router does not lead to its redirect.
use url_shortener.Common.{
  ℕ, ◌<◌, ◌^◌, ◌≡◌, refl, Bytes, codes, List, [], ◌∷◌, ◌++◌, some, text_eq, arith,
}
use url_shortener.Service.Base62.{encode_base62, fill, digit}
use url_shortener.Router.{
  Options, no_options, configured, health, ready, handle, routes, matched, Parts,
}
use url_shortener.Router.Mux.{is_without, is_literal, is_elsewhere, are_all, Registers, MuxLaws}
use url_shortener.Router.Links.{metrics_all}

module _ {W : Type 0} (o : Options W) where
  ready_registered :
      Registers
        (routes o)
        (handle (codes "GET") (codes "/ready") ready)
        (is_elsewhere (codes "/ready"))
  unfolding routes are_all is_elsewhere text_eq
  ready_registered = record {
    before = handle (codes "GET") (codes "/health") health ∷ [];
    behind = _;
    split = refl;
    earlier = refl;
    later = metrics_all _ o.metrics _ refl refl;
  }

module _ {W P : Type 0} (a : Parts W P) (mux : MuxLaws a.lookup) where
  -- Whatever the options are: there is a row number, below 2 ^ 30, whose generated code is `ready`,
  -- and the path of that link leads to the readiness check, not to Redirect.
  pub router_shadows :
      (opts : List (Options W → Options W))
      → (id : ℕ) × ((code : Bytes) × ((id < 2 ^ 30)
            × ((encode_base62 id ≡ some code)
                × (a.lookup (routes (configured opts no_options)) (codes "GET") (codes "/" ++ code)
                    ≡ matched ready []))))
  unfolding encode_base62 fill digit
  router_shadows opts = (
    792_819_790,
    (
      codes "ready",
      (
        omega arith,
        (
          refl,
          mux.fixed _ (codes "GET") (codes "/ready") ready
              (ready_registered (configured opts no_options))
              (unfold is_literal in unfold is_without in refl),
        ),
      ),
    ),
  )
