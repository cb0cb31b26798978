-- ===== src/Handler/Outcome.antt =====
-- The answers of the handlers, against the rows of PostgreSQL and the clock.
use url_shortener.Common.{
  ℕ, ◌≤◌, ◌<◌, ◌≡◌, ◌⊎◌, ◌↔◌, inl, inr, refl, sym, ap, ◌∙◌, Bool, false, Bool-cases, ◌||◌, Bytes,
  codes, Option, none, some, arith,
}
use url_shortener.Errors.{
  Error, Result, ok, err, is, not_found, invalid_url, url_too_long, self_reference, invalid_code,
  invalid_expiry, code_taken, in_flight, idem_key_too_long,
}
use url_shortener.Model.{Url}
use url_shortener.World.{Action, View}
use url_shortener.World.Platform.{Platform}
use url_shortener.Recorder.{Event}
use url_shortener.Service.LongUrl.{UrlLib}
use url_shortener.Service.UrlService.{UrlService}
use url_shortener.Service.Resolve
use url_shortener.Service.Resolve.{resolve}
use url_shortener.Service.Resolve.Coherence.{IsCoherent, ServiceLaws, resolve-IsCoherent}
use url_shortener.Service.Resolve.Outcome.{IsAnswering, resolve_sound}
use url_shortener.Service.Resolve.Complete.{IsDue, IsDueAt, resolve_complete}
use url_shortener.Service.Resolve.Deletion.{IsEvicting, resolve-delete}
use url_shortener.Handler
use url_shortener.Handler.{
  Response, failure, link, redirect_to, no_content, create_error, resolve_error, delete_error,
  link_body, got, deleted, to_delete, to_redirect, redirect,
}

-- The answer for a link that expires at `e` if ever, by a request from `t` to `t'`.
abbrev pub IsServedAt : Response → Option ℕ → ℕ → ℕ → Response → Type 0
IsServedAt good none t t' r = r ≡ good
IsServedAt good (some x) t t' r =
    ((r ≡ good) × (t < x)) ⊎ ((r ≡ failure 410 (codes "link_expired")) × (x ≤ t'))

-- The answer for a code whose row is `o`, where `good` answers for a link.
abbrev pub IsServed : (Url → Response) → Option Url → ℕ → ℕ → Response → Type 0
IsServed good none t t' r = r ≡ failure 404 (codes "not_found")
IsServed good (some u) t t' r = IsServedAt (good u) u.expires_at t t' r

-- How an answer is made of what Resolve returns.
pub record IsRendering (good : Url → Response) (f : Result Url → Response) : Type 0 where
  pub on_link : (u : Url) → f (ok u) ≡ good u
  pub on_error : (e : Error) → f (err e) ≡ resolve_error e

module _ (good : Url → Response) (f : Result Url → Response) (rendering : IsRendering good f) where
  served_at :
      (u : Url) (e : Option ℕ) (t t' : ℕ) (r : Result Url)
      → IsDueAt (ok u) e t t' r
      → IsServedAt (good u) e t t' (f r)
  unfolding resolve_error
  served_at u none t t' r h = ap f h ∙ rendering.on_link u
  served_at u (some x) t t' r (inl (h, early)) = inl (ap f h ∙ rendering.on_link u, early)
  served_at u (some x) t t' r (inr (h, late)) = inr (ap f h ∙ rendering.on_error _, late)

  served :
      (o : Option Url) (t t' : ℕ) (r : Result Url) → IsDue o t t' r → IsServed good o t t' (f r)
  unfolding resolve_error
  served none t t' r h = ap f h ∙ rendering.on_error _
  served (some u) t t' r h = served_at u u.expires_at t t' r h

module _ {W P : Type 0} (v : View W) (lib : UrlLib P) (p : Platform W) (s : UrlService W P)
    (laws : ServiceLaws v p s) where
  -- Get, from a coherent cache and with a database that answers: 404 for a code without a row; for a
  -- row that never expires 200 with the link; for one that can expire, 200 only before its expiry
  -- and 410 only from its expiry on. No 500, whatever Redis does.
  pub get_complete :
      (code : Bytes) (w : W)
      → IsCoherent v p s w
      → IsAnswering s.store
      → IsServed
          (λ u. link 200 (link_body lib s u))
          (v.coded w code)
          (v.time w)
          (v.time (Handler.get lib p s code w).1)
          (Handler.get lib p s code w).0
  unfolding Handler.get got
  get_complete code w h answers =
      served (λ u. link 200 (link_body lib s u)) (got lib s)
        (record { on_link = λ u. refl; on_error = λ e. refl }) (v.coded w code) (v.time w)
        (v.time (resolve p s code w).1) (resolve p s code w).0
        (resolve_complete v p s laws code w h answers)

  -- Redirect, from a coherent cache and with a database that answers, with a recorder or without one:
  -- 404 for a code without a row; for a row that never expires 301 to its long URL; for one that can
  -- expire, 301 only before its expiry and 410 only from its expiry on.
  pub redirect_complete :
      (rec : Option (Event → Action W Bool)) (unix : Action W ℕ) (referrer code : Bytes) (w : W)
      → IsCoherent v p s w
      → IsAnswering s.store
      → IsServed
          (λ u. redirect_to 301 u.long_url)
          (v.coded w code)
          (v.time w)
          (v.time (resolve p s code w).1)
          (redirect lib p s rec unix referrer code w).0
  unfolding redirect
  redirect_complete rec unix referrer code w h answers =
      served (λ u. redirect_to 301 u.long_url)
        (λ r. (to_redirect lib p s rec unix referrer r (resolve p s code w).1).0) rendering
        (v.coded w code) (v.time w) (v.time (resolve p s code w).1) (resolve p s code w).0
        (resolve_complete v p s laws code w h answers)
    where
      rendering :
          IsRendering
            (λ u. redirect_to 301 u.long_url)
            (λ r. (to_redirect lib p s rec unix referrer r (resolve p s code w).1).0)
      rendering = unfold to_redirect in record { on_link = λ u. refl; on_error = λ e. refl }

  deleted_inv : (r : Result (Unit {0})) → deleted r ≡ no_content 204 → r ≡ ok tt
  unfolding deleted delete_error
  deleted_inv (ok _) h = refl
  deleted_inv (err e) h = elim (Bool-cases (is e not_found)) [
    | inl y ↦ absurd (ground arith)
    | inr y ↦ absurd (ground arith)
  ]

  not_resolved : (e : Error) → resolve_error e ≡ no_content 204 → ⊥
  unfolding resolve_error
  not_resolved e h = ground arith

  -- What Delete has done when it answers 204.
  to_delete_inv :
      (r : Result Url) (w : W)
      → (to_delete lib p s r w).0 ≡ no_content 204
      → (u : Url) × (r ≡ ok u)
        × ((Resolve.delete p s u.code w).0 ≡ ok tt)
        × ((to_delete lib p s r w).1 ≡ (Resolve.delete p s u.code w).1)
  unfolding to_delete
  to_delete_inv (err e) w h = absurd (not_resolved e h)
  to_delete_inv (ok u) w h = (u, refl, deleted_inv _ h, refl)

  -- Once the handler of DELETE has answered 204, and the cache entry could be deleted, Get answers
  -- 404 for the code.
  pub get-delete :
      (code : Bytes) (w : W)
      → IsCoherent v p s w
      → IsAnswering s.store
      → IsEvicting s code (s.store.delete_by_code code (resolve p s code w).1).1
      → (Handler.delete lib p s code w).0 ≡ no_content 204
      → (Handler.get lib p s code (Handler.delete lib p s code w).1).0
        ≡ failure 404 (codes "not_found")
  unfolding Handler.delete Handler.get got resolve_error
  get-delete code w h answers evicting done =
      let w1 = (resolve p s code w).1 in
      let (u, found, gone, world) = to_delete_inv (resolve p s code w).0 w1 done in
      let name : u.code ≡ code =
        laws.store.code_found w code u (resolve_sound v p s laws code w u h found).0 in
      let gone' : (Resolve.delete p s code w1).0 ≡ ok tt =
        ap (λ c. (Resolve.delete p s c w1).0) (sym name) ∙ gone in
      let world' : (to_delete lib p s (resolve p s code w).0 w1).1
          ≡ (Resolve.delete p s code w1).1 =
        world ∙ ap (λ c. (Resolve.delete p s c w1).1) name in
      let missing =
        resolve-delete v p s laws code w1 (resolve-IsCoherent v p s laws code w h) answers evicting
          gone' in
      ap (λ x. got lib s (resolve p s code x).0) world' ∙ ap (got lib s) missing

-- One of the eight errors that Create's handler gives an answer of its own.
abbrev pub is_client_error : Error → Bool
is_client_error e =
    is e invalid_url
    || is e url_too_long
    || is e self_reference
    || is e invalid_code
    || is e invalid_expiry
    || is e idem_key_too_long
    || is e in_flight
    || is e code_taken

-- The handler of POST answers an error of Create with 500 exactly if it is none of the eight for the
-- client: so it does for ErrNotFound, which the replay of a deleted link gives.
pub create_error_internal :
    (e : Error) → (create_error e ≡ failure 500 (codes "internal")) ↔ (is_client_error e ≡ false)
unfolding create_error
create_error_internal e = (λ h. ground arith, λ h. ground arith)
