-- ===== src/Service/Idempotent/Kept.antt =====
-- Whatever Redis and PostgreSQL answer, Create changes no coded row and keeps the cache coherent.
use url_shortener.Common.{
  ℕ, ◌≡◌, inl, inr, Bytes, Bool-cases, Option, some, [], text_eq, trim_space,
}
use url_shortener.Errors.{Result, ok, err}
use url_shortener.Model.{Url}
use url_shortener.World.{View, Quiet, Quiet-refl}
use url_shortener.World.Platform.{Platform}
use url_shortener.Service.Expiry.{expiry_instant, parse_expiry}
use url_shortener.Service.LongUrl.{UrlLib}
use url_shortener.Service.UrlService.{UrlService}
use url_shortener.Service.Resolve.Coherence.{IsCoherent}
use url_shortener.Service.Create.{CreateParams}
use url_shortener.Service.Idempotent.{optional_expiry, create_validated, after_url, create}
use url_shortener.Service.Idempotent.Safe.{
  CreateLaws, IsSafe, IsSafe-refl, IsSafe-trans, Quiet-IsSafe, create_one-IsSafe,
  create_idempotent-IsSafe,
}

module _ {W P : Type 0} (v : View W) (lib : UrlLib P) (p : Platform W) (s : UrlService W P)
    (laws : CreateLaws v p s) where
  parse-Quiet : (text : Bytes) (r : Result ℕ) (w : W) → Quiet v w (expiry_instant p r w).1
  unfolding expiry_instant
  parse-Quiet text (ok d) w = laws.service.platform.now_quiet w
  parse-Quiet text (err _) w = Quiet-refl w

  expiry-Quiet : (text : Bytes) (w : W) → Quiet v w (optional_expiry lib p s text w).1
  unfolding optional_expiry parse_expiry
  expiry-Quiet text w = elim (Bool-cases (text_eq text [])) [
    | inl y ↦ rw (y, optional_expiry) (Quiet-refl w)
    | inr y ↦ rw (y, optional_expiry) (parse-Quiet text _ w)
  ]

  validated-IsSafe :
      (params : CreateParams) (long_url : Bytes) (r : Result (Option ℕ)) (w : W)
      → IsSafe v p s w (create_validated lib p s params long_url r w).1
  unfolding create_validated
  validated-IsSafe params long_url (err _) w = IsSafe-refl v lib p s laws w
  validated-IsSafe params long_url (ok x) w =
      elim (Bool-cases (text_eq (trim_space params.idempotency_key) [])) [
        | inl y ↦
            rw (y, create_validated)
              (create_one-IsSafe v lib p s laws params.custom_code long_url x w)
        | inr y ↦
            rw (y, create_validated)
              (create_idempotent-IsSafe v lib p s laws params.custom_code long_url x
                (trim_space params.idempotency_key) w)
      ]

  after_url-IsSafe :
      (params : CreateParams) (r : Result Bytes) (w : W)
      → IsSafe v p s w (after_url lib p s params r w).1
  unfolding after_url
  after_url-IsSafe params (err _) w = IsSafe-refl v lib p s laws w
  after_url-IsSafe params (ok long_url) w =
      IsSafe-trans v lib p s laws (Quiet-IsSafe v lib p s laws (expiry-Quiet params.expires_in w))
        (validated-IsSafe params long_url _ _)

  create-IsSafe : (params : CreateParams) (w : W) → IsSafe v p s w (create lib p s params w).1
  unfolding create
  create-IsSafe params w = after_url-IsSafe params _ w

  -- Create, with or without an idempotency key, on success and on every failure of Redis or
  -- PostgreSQL, leaves a coherent cache coherent.
  pub create-IsCoherent :
      (params : CreateParams) (w : W)
      → IsCoherent v p s w
      → IsCoherent v p s (create lib p s params w).1
  create-IsCoherent params w h = (create-IsSafe params w).coherent h

  -- Create, with or without an idempotency key, on success and on every failure of Redis or
  -- PostgreSQL, leaves every row that has a code as it is.
  pub coded-create :
      (params : CreateParams) (w : W) (code : Bytes) (u : Url)
      → v.coded w code ≡ some u
      → v.coded (create lib p s params w).1 code ≡ some u
  coded-create params w code u h = (create-IsSafe params w).keeps code u h
