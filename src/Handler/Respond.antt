-- ===== src/Handler/Respond.antt =====
-- writeJSON and writeError of internal/handler/respond.go, and how the handlers of
-- internal/handler/url.go write their responses; the bodies are left out.
use url_shortener.Common.{ℕ, Bytes, codes, [], text_eq, if◌then◌else◌}
use url_shortener.Web.{Writer, set_header, write_header}
use url_shortener.Handler.{
  Response, failure, link_created, link, stats, redirect_to, no_content, health_status,
}

unfoldable pub write_json : ℕ → Writer → Writer
unfolding set_header write_header
write_json status w =
    write_header status
      (set_header (codes "Content-Type") (codes "application/json; charset=utf-8") w)

-- http.Redirect of a GET request; `location` gives the text that it makes of the URL.
unfoldable pub write_redirect : (Bytes → Bytes) → ℕ → Bytes → Writer → Writer
unfolding set_header write_header
write_redirect location status url w =
    let located = set_header (codes "Location") (location url) w in
    write_header status (
      if text_eq (w.header (codes "Content-Type")) []
      then set_header (codes "Content-Type") (codes "text/html; charset=utf-8") located
      else located)

unfoldable pub write_response : (Bytes → Bytes) → Response → Writer → Writer
unfolding write_json write_redirect
write_response location (failure status code) w = write_json status w
write_response location (link_created status replay body) w =
    write_json status (set_header (codes "Idempotency-Replay") replay w)
write_response location (link status body) w = write_json status w
write_response location (stats status total) w = write_json status w
write_response location (redirect_to status url) w = write_redirect location status url w
write_response location (no_content status) w = write_header status w
write_response location (health_status status text database) w = write_json status w
