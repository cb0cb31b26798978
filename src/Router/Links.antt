-- ===== src/Router/Links.antt =====
-- Which links the router leads to their redirect.
use url_shortener.Common.{
  ◌≡◌, ◌≢◌, inl, inr, refl, sym, ap, ◌∙◌, Bool, true, false, Bool-cases, Bytes, codes, List, [],
  ◌∷◌, ◌++◌, Option, none, some, All, text_eq, text_eq→eq, to_lower, arith,
}
use url_shortener.Web.{HttpRequest, Writer, Ending, returned}
use url_shortener.Service.CustomCode.Laws.{IsCodeChar, IsFree}
use url_shortener.Handler.Respond.{write_response}
use url_shortener.Middleware.Stack.{IsRequestId, IsFilling, prepared, Ended, stack_exact}
use url_shortener.Middleware.Identified.{new_writer}
use url_shortener.Router.{
  Options, no_options, configured, health, ready, metrics, redirect, Entry, handle, under,
  metrics_route, routes, Parts, respond, redirect_response, served_by, dispatch, routed, router,
}
use url_shortener.Router.Mux.{
  is_without, is_literal, is_elsewhere, is_apart, are_all, Registers, MuxLaws,
}

-- A code as createOne makes and accepts them, and none of the reserved names.
pub record IsLinkCode (code : Bytes) : Type 0 where
  pub inhabited : code ≢ []
  pub chars : All IsCodeChar code
  pub free : IsFree code

code_without : (s : Bytes) → All IsCodeChar s → is_without b'/' s ≡ true
unfolding is_without
code_without [] h = refl
code_without (c ∷ s) h = rw (code_without s h.1) (ground (arith, h.0))

not_named :
    (name code : Bytes) → to_lower name ≡ name → to_lower code ≢ name → text_eq name code ≡ false
not_named name code low other = elim (Bool-cases (text_eq name code)) [
  | inl e ↦ absurd (other (ap to_lower (sym (text_eq→eq name code e)) ∙ low))
  | inr e ↦ e
]

-- A text with a slash is no code.
not_slashed :
    (name code : Bytes)
    → is_without b'/' name ≡ false
    → All IsCodeChar code
    → text_eq name code ≡ false
not_slashed name code slash chars = elim (Bool-cases (text_eq name code)) [
  | inl e ↦
      let x : false ≡ true =
        sym slash ∙ ap (is_without b'/') (text_eq→eq name code e) ∙ code_without code chars in
      absurd (ground arith)
  | inr e ↦ e
]

pub metrics_all :
    (f : Entry → Bool) (m : Bool) (rest : List Entry)
    → f (handle (codes "GET") (codes "/metrics") metrics) ≡ true
    → are_all f rest ≡ true
    → are_all f (metrics_route m rest) ≡ true
unfolding metrics_route are_all
metrics_all f true rest a h = rw (a, h) refl
metrics_all f false rest a h = h

metrics_last :
    (m : Bool) (e f : Entry) → metrics_route m (e ∷ f ∷ []) ≡ metrics_route m (e ∷ []) ++ (f ∷ [])
unfolding metrics_route
metrics_last true e f = refl
metrics_last false e f = refl

module _ {W : Type 0} (o : Options W) where
  -- The path of a link is for the last route alone.
  redirect_registered :
      (code : Bytes)
      → IsLinkCode code
      → Registers
          (routes o)
          (handle (codes "GET") (codes "/{code}") redirect)
          (is_apart (codes "/" ++ code))
  unfolding routes are_all is_apart is_elsewhere is_literal is_without text_eq to_lower
  redirect_registered code link =
      let a = not_named (codes "health") code refl link.free.not_health in
      let b = not_named (codes "ready") code refl link.free.not_ready in
      let c = not_named (codes "metrics") code refl link.free.not_metrics in
      let d = not_slashed (codes "api/v1/urls") code refl link.chars in
      let e = not_slashed (codes "api/v1/urls/") code refl link.chars in
      record {
        before =
            handle (codes "GET") (codes "/health") health
            ∷ handle (codes "GET") (codes "/ready") ready
            ∷ metrics_route o.metrics (under (codes "/api/v1/urls") _ ∷ []);
        behind = [];
        split =
            ap
              (λ es.
                handle (codes "GET") (codes "/health") health
                ∷ handle (codes "GET") (codes "/ready") ready
                ∷ es)
              (metrics_last o.metrics _ _);
        earlier = rw (a, b) (metrics_all _ o.metrics _ (rw c refl) (rw (d, e) refl));
        later = refl;
      }

module _ {W P : Type 0} (a : Parts W P) (mux : MuxLaws a.lookup) where
  -- A request for a link gets what the handler Redirect answers for its code.
  routed_link :
      (o : Options W) (code : Bytes) (ctx : Option Bytes) (r : HttpRequest) (w : Writer) (x : W)
      → IsLinkCode code
      → r.method ≡ codes "GET"
      → r.path ≡ codes "/" ++ code
      → routed a o ctx r w x ≡ (
        (returned, write_response a.location (redirect_response a o r code x).0 w),
        (redirect_response a o r code x).1,
      )
  unfolding routed dispatch served_by respond
  routed_link o code ctx r w x link get path =
      rw
        (
          get,
          path,
          mux.captured (routes o) (codes "GET") code redirect (redirect_registered o code link)
              link.inhabited (code_without code link.chars),
        )
        refl

module _ {W P : Type 0} (a : Parts W P) (mux : MuxLaws a.lookup) (filling : IsFilling a.env) where
  ended_returned :
      (r : HttpRequest) (res : (Ending × Writer) × W) (e : (Ending × Writer) × W)
      (out : (Ending × Writer) × W)
      → res ≡ e
      → Ended a.platform a.env filling r res out
      → Ended a.platform a.env filling r e out
  ended_returned r res e out same h = rw (← same) h

  -- Whatever the options are: a GET request for the path of a link whose code is not one of the
  -- reserved names reaches no other handler than Redirect, with this code, and what Redirect answers
  -- goes out as it is, behind all the middleware, with a request id of 1 to 128 bytes.
  pub router_link :
      (opts : List (Options W → Options W)) (code : Bytes) (r : HttpRequest) (x : W)
      → IsLinkCode code
      → r.method ≡ codes "GET"
      → r.path ≡ codes "/" ++ code
      → (id : Bytes) × ((at : W) × (IsRequestId id
            × ((router a opts none r new_writer x).0 ≡ (
              returned,
              write_response a.location
                  (redirect_response a (configured opts no_options) r code at).0
                  (prepared (configured opts no_options).instance_id id new_writer),
            ))))
  unfolding router
  router_link opts code r x link get path =
      let o = configured opts no_options in
      let s = stack_exact a.platform a.env filling o.instance_id (routed a o) r new_writer x in
      (
        s.id,
        (
          s.at,
          (
            s.valid,
            ended_returned r _ _ _
                (routed_link a mux o code (some s.id) r (prepared o.instance_id s.id new_writer)
                  s.at link get path)
                s.ended,
          ),
        ),
      )
