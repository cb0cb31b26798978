-- ===== src/Router/Identified.antt =====
-- The handlers that New wires leave the request id of the response alone.
use url_shortener.Common.{
  ℕ, ◌≡◌, inl, inr, refl, ◌∙◌, false, Bool-cases, Bytes, codes, List, [], Option, none, some,
  text_eq,
}
use url_shortener.Web.{HttpRequest, Writer, set_field, set_header, send, write_header}
use url_shortener.RateLimit.{Limiter, Passage, served, refused}
use url_shortener.Handler.{
  Response, failure, link_created, link, stats, redirect_to, no_content, health_status,
}
use url_shortener.Handler.Respond.{write_json, write_redirect, write_response}
use url_shortener.Middleware.{request_id_header}
use url_shortener.Middleware.Stack.{IsRequestId, IsFilling}
use url_shortener.Middleware.Identified.{
  KeepsId, IsPolite, new_writer, IsIdentified, stack-IsIdentified,
}
use url_shortener.Router.{
  Options, no_options, configured, Target, Match, matched, unmatched, Parts, respond, limited,
  create_with, served_by, dispatch, routed, router,
}

-- From `u` to `v` at most other fields are set, and nothing goes out.
record IsUntouched (u v : Writer) : Type 0 where
  header : v.header request_id_header ≡ u.header request_id_header
  sent : v.sent ≡ u.sent

set-IsUntouched :
    (name value : Bytes) (w : Writer)
    → text_eq name request_id_header ≡ false
    → IsUntouched w (set_header name value w)
unfolding set_header set_field
set-IsUntouched name value w other = record { header = rw other refl; sent = refl }

IsUntouched-trans : {u v w : Writer} → IsUntouched u v → IsUntouched v w → IsUntouched u w
IsUntouched-trans e f = record { header = f.header ∙ e.header; sent = f.sent ∙ e.sent }

write_keeps : (status : ℕ) {u v : Writer} → IsUntouched u v → KeepsId u (write_header status v)
unfolding write_header send
write_keeps status e = record { header = e.header; sent = λ h. rw (e.sent ∙ h) e.header }

untouched : (w : Writer) → IsUntouched w w
untouched w = record { header = refl; sent = refl }

content-IsUntouched :
    (value : Bytes) (w : Writer) → IsUntouched w (set_header (codes "Content-Type") value w)
unfolding text_eq
content-IsUntouched value w = set-IsUntouched (codes "Content-Type") value w refl

json_keeps : (status : ℕ) {u v : Writer} → IsUntouched u v → KeepsId u (write_json status v)
unfolding write_json
json_keeps status e = write_keeps status (IsUntouched-trans e (content-IsUntouched _ _))

redirect_keeps :
    (location : Bytes → Bytes) (status : ℕ) (url : Bytes) (w : Writer)
    → KeepsId w (write_redirect location status url w)
unfolding write_redirect text_eq
redirect_keeps location status url w =
    let located = set-IsUntouched (codes "Location") (location url) w refl in
    elim (Bool-cases (text_eq (w.header (codes "Content-Type")) [])) [
      | inl e ↦ rw e (write_keeps status (IsUntouched-trans located (content-IsUntouched _ _)))
      | inr e ↦ rw e (write_keeps status located)
    ]

replay-IsUntouched :
    (replay : Bytes) (w : Writer) → IsUntouched w (set_header (codes "Idempotency-Replay") replay w)
unfolding text_eq
replay-IsUntouched replay w = set-IsUntouched (codes "Idempotency-Replay") replay w refl

response_keeps :
    (location : Bytes → Bytes) (res : Response) (w : Writer)
    → KeepsId w (write_response location res w)
unfolding write_response
response_keeps location (failure status code) w = json_keeps status (untouched w)
response_keeps location (link_created status replay body) w =
    json_keeps status (replay-IsUntouched replay w)
response_keeps location (link status body) w = json_keeps status (untouched w)
response_keeps location (stats status total) w = json_keeps status (untouched w)
response_keeps location (redirect_to status url) w = redirect_keeps location status url w
response_keeps location (no_content status) w = write_keeps status (untouched w)
response_keeps location (health_status status text database) w = json_keeps status (untouched w)

module _ {W P : Type 0} (a : Parts W P) (no_route : IsPolite a.no_route)
    (prometheus : IsPolite a.prometheus) where
  limited_keeps :
      (rl : Limiter W) (w : Writer) (res : Passage Response) (x : W)
      → KeepsId w (limited a rl w res x).0.1
  unfolding limited respond text_eq
  limited_keeps rl w (served res) x = response_keeps a.location res w
  limited_keeps rl w (refused status seconds) x =
      write_keeps status (
        IsUntouched-trans (content-IsUntouched _ w)
          (set-IsUntouched (codes "Retry-After") _ _ refl))

  create-IsPolite : (o : Option (Limiter W)) → IsPolite (create_with a o)
  unfolding create_with respond
  create-IsPolite none ctx r w x = response_keeps a.location _ w
  create-IsPolite (some rl) ctx r w x = limited_keeps rl w _ _

  served_by-IsPolite : (o : Options W) (t : Target) (code : Bytes) → IsPolite (served_by a o t code)
  unfolding served_by respond
  served_by-IsPolite o Target.health code ctx r w x = response_keeps a.location _ w
  served_by-IsPolite o Target.ready code ctx r w x = response_keeps a.location _ w
  served_by-IsPolite o Target.metrics code ctx r w x = prometheus ctx r w x
  served_by-IsPolite o Target.create code ctx r w x = create-IsPolite o.limiter ctx r w x
  served_by-IsPolite o Target.get code ctx r w x = response_keeps a.location _ w
  served_by-IsPolite o Target.delete code ctx r w x = response_keeps a.location _ w
  served_by-IsPolite o Target.stats code ctx r w x = response_keeps a.location _ w
  served_by-IsPolite o Target.redirect code ctx r w x = response_keeps a.location _ w

  dispatch-IsPolite : (o : Options W) (m : Match) → IsPolite (dispatch a o m)
  unfolding dispatch
  dispatch-IsPolite o (matched t code) ctx r w x = served_by-IsPolite o t code ctx r w x
  dispatch-IsPolite o unmatched ctx r w x = no_route ctx r w x

  routed-IsPolite : (o : Options W) → IsPolite (routed a o)
  unfolding routed
  routed-IsPolite o ctx r w x = dispatch-IsPolite o _ ctx r w x

  -- Every response of the server, whatever the options, the route and the outcome, carries a request
  -- id of 1 to 128 bytes in its header, the client's own if that has such a length; provided that
  -- chi's own answers and the Prometheus handler leave this field alone. Only an aborted response has
  -- none.
  pub router-IsIdentified :
      (filling : IsFilling a.env) (opts : List (Options W → Options W)) (r : HttpRequest) (x : W)
      → (id : Bytes) × (IsRequestId id
          × ((IsRequestId (r.header request_id_header) → id ≡ r.header request_id_header)
              × IsIdentified a.platform a.env filling id (router a opts none r new_writer x)))
  unfolding router
  router-IsIdentified filling opts r x =
      stack-IsIdentified a.platform a.env filling (configured opts no_options).instance_id
        (routed a (configured opts no_options)) r x (routed-IsPolite (configured opts no_options))
