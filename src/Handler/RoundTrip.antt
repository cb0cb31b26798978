-- ===== src/Handler/RoundTrip.antt =====
-- A link that was created is the one that its short URL leads to.
use mathlib.Core.Path.{subst}
use url_shortener.Common.{ℕ, ◌≡◌, ◌∙◌, Bytes, Bool, Option, some, text_eq_refl}
use url_shortener.Errors.{ok}
use url_shortener.Model.{Url}
use url_shortener.World.{Action, View}
use url_shortener.World.Platform.{Platform}
use url_shortener.World.Postgres.{Adds, micros}
use url_shortener.Recorder.{Event}
use url_shortener.Service.LongUrl.{UrlLib}
use url_shortener.Service.UrlService.{UrlService}
use url_shortener.Service.Resolve.{resolve}
use url_shortener.Service.Resolve.Coherence.{IsCoherent, ServiceLaws}
use url_shortener.Service.Resolve.Outcome.{IsAnswering}
use url_shortener.Service.Create.{CreateResult, create_one}
use url_shortener.Service.Create.Keeps.{create_one-Adds}
use url_shortener.Service.Create.Outcome.{create_one_ok}
use url_shortener.Handler.{Response, redirect_to, redirect}
use url_shortener.Handler.Outcome.{IsServed, IsServedAt, redirect_complete}

module _ {W P : Type 0} (v : View W) (lib : UrlLib P) (p : Platform W) (s : UrlService W P)
    (laws : ServiceLaws v p s) where
  Adds-IsCoherent : {a b : W} → Adds v a b → IsCoherent v p s a → IsCoherent v p s b
  Adds-IsCoherent q h c e code raw u live d =
      q.keeps code u (h c e code raw u (q.fades _ raw live) d)

  served_given :
      (u : Url) (long_url : Bytes) (x : Option ℕ) (t t' : ℕ) (r : Response)
      → u.long_url ≡ long_url
      → u.expires_at ≡ x
      → IsServedAt (redirect_to 301 u.long_url) u.expires_at t t' r
      → IsServedAt (redirect_to 301 long_url) x t t' r
  served_given u long_url x t t' r e f h =
      subst (λ y. IsServedAt (redirect_to 301 long_url) y t t' r) f
        (subst (λ l. IsServedAt (redirect_to 301 l) u.expires_at t t' r) e h)

  -- When createOne has made a link, from a coherent cache and with a database that answers, a request
  -- for its short code is redirected to the long URL that was asked for: always, if no expiry was
  -- asked for; else before that expiry cut to whole microseconds, with 410 only from then on.
  pub redirect-create_one :
      (rec : Option (Event → Action W Bool)) (unix : Action W ℕ) (referrer : Bytes)
      (custom_code long_url : Bytes) (x : Option ℕ) (w : W) {res : CreateResult}
      → IsCoherent v p s w
      → IsAnswering s.store
      → (create_one lib s custom_code long_url x w).0 ≡ ok res
      → IsServedAt
          (redirect_to 301 long_url)
          (micros x)
          (v.time (create_one lib s custom_code long_url x w).1)
          (v.time (resolve p s res.url.code (create_one lib s custom_code long_url x w).1).1)
          (redirect lib p s rec unix referrer res.url.code
            (create_one lib s custom_code long_url x w).1).0
  redirect-create_one rec unix referrer custom_code long_url x w {res} h answers done =
      let w' = (create_one lib s custom_code long_url x w).1 in
      let (_, i, _, _) = create_one_ok v lib s laws.store custom_code long_url x w done in
      let row : v.coded w' res.url.code ≡ some res.url = i.coded res.url.code ∙ rw text_eq_refl in
      let a =
        redirect_complete v lib p s laws rec unix referrer res.url.code w'
          (Adds-IsCoherent (create_one-Adds v lib s laws.store custom_code long_url x w) h)
          answers in
      served_given res.url long_url (micros x) _ _ _ i.long_given i.expiry_given (
        subst
          (λ o.
            IsServed (λ u. redirect_to 301 u.long_url) o (v.time w')
              (v.time (resolve p s res.url.code w').1)
              (redirect lib p s rec unix referrer res.url.code w').0)
          row a)
