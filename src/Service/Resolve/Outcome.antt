-- ===== src/Service/Resolve/Outcome.antt =====
-- What Resolve returns, against the rows of PostgreSQL.
use mathlib.Core.Path.{subst}
use url_shortener.Common.{
  ℕ, ◌≡◌, ◌⊎◌, ◌≤◌, ◌<◌, inl, inr, refl, sym, ◌∙◌, ap, Bytes, true, false, Bool-cases, Option, none,
  some, arith,
}
use url_shortener.Errors.{Error, Result, ok, err, is, repository_not_found}
use url_shortener.Model.{Url}
use url_shortener.World.{View}
use url_shortener.World.Platform.{Platform}
use url_shortener.Cache.{UrlCache}
use url_shortener.Cache.Laws.{get-Quiet, get_hit}
use url_shortener.Service.Store.{UrlStore}
use url_shortener.Service.UrlService.{UrlService}
use url_shortener.Service.Resolve.{
  is_expired, use_cached, look_up, from_row, from_store, resolved, resolve,
}
use url_shortener.Service.Resolve.Coherence.{IsCoherent, ServiceLaws, look_up-Quiet}

-- The time `t` lies before an expiry, if there is one.
abbrev pub IsBefore : ℕ → Option ℕ → Type 0
IsBefore t none = Unit {0}
IsBefore t (some x) = t < x

earlier : (t t' : ℕ) (e : Option ℕ) → t ≤ t' → IsBefore t' e → IsBefore t e
earlier t t' none l h = tt
earlier t t' (some x) l h = omega arith

-- The link has not expired at the time `t`.
abbrev pub IsFresh : Url → ℕ → Type 0
IsFresh u t = IsBefore t u.expires_at

-- PostgreSQL answers: the only error of a look-up is that there is no such row.
abbrev pub IsAnswering : {W : Type 0} → UrlStore W → Type 0
IsAnswering s =
    (c : Bytes) (w : _) (e : Error)
    → (s.get_by_code c w).0 ≡ err e
    → is e repository_not_found ≡ true

module _ {W P : Type 0} (v : View W) (p : Platform W) (s : UrlService W P)
    (laws : ServiceLaws v p s) where
  not_expired : (e : Option ℕ) (w : W) → (is_expired p s e w).0 ≡ false → IsBefore (v.time w) e
  unfolding is_expired
  not_expired none w h = tt
  not_expired (some e) w h = let l = laws.platform.now_later w in ground arith

  use_cached_hit :
      (c : UrlCache W) (code : Bytes) (r : Result (Option Url)) (w : W) (u : Url)
      → (use_cached p s c code r w).0 ≡ some u
      → (r ≡ ok (some u)) × IsFresh u (v.time w)
  unfolding use_cached
  use_cached_hit c code (ok none) w u h = absurd (ground arith)
  use_cached_hit c code (err e) w u h = absurd (ground arith)
  use_cached_hit c code (ok (some u')) w u h =
      elim (Bool-cases (is_expired p s u'.expires_at w).0) [
        | inl x ↦ absurd (ground arith)
        | inr x ↦
            let e : u' ≡ u = ground arith in
            (
              ap (λ y. ok (some y)) e,
              subst (λ (r : Url). IsFresh r (v.time w)) e (not_expired u'.expires_at w x),
            )
      ]

  -- A cache hit is the row of its code, and has not expired.
  pub look_up_hit :
      (o : Option (UrlCache W)) (e : s.cache ≡ o) (code : Bytes) (w : W) (u : Url)
      → IsCoherent v p s w
      → (look_up p s o code w).0 ≡ some u
      → (v.coded w code ≡ some u) × IsFresh u (v.time w)
  unfolding look_up
  look_up_hit none e code w u h k = absurd (ground arith)
  look_up_hit (some c) e code w u h k =
      let (k', fresh) = use_cached_hit c code _ _ u k in
      let (raw, live, d) = get_hit v p c laws.platform (laws.cache c e) code w u k' in
      let q = get-Quiet v p c laws.platform (laws.cache c e) code w in
      (h c e code raw u live d, earlier _ _ u.expires_at q.later fresh)

  from_row_ok :
      (code : Bytes) (r : Result Url) (w : W) (u : Url)
      → (from_row p s code r w).0 ≡ ok u
      → (r ≡ ok u) × IsFresh u (v.time w)
  unfolding from_row
  from_row_ok code (err e) w u h = absurd (ground arith)
  from_row_ok code (ok u') w u h = elim (Bool-cases (is_expired p s u'.expires_at w).0) [
    | inl x ↦ absurd (ground arith)
    | inr x ↦
        let e : u' ≡ u = ground arith in
        (ap ok e, subst (λ (r : Url). IsFresh r (v.time w)) e (not_expired u'.expires_at w x))
  ]

  from_store_ok :
      (code : Bytes) (w : W) (u : Url)
      → (from_store p s code w).0 ≡ ok u
      → (v.coded w code ≡ some u) × IsFresh u (v.time w)
  unfolding from_store
  from_store_ok code w u h =
      let (e, fresh) = from_row_ok code _ _ u h in
      let q = laws.store.get_quiet code w in
      (laws.store.get_ok code w u e, earlier _ _ u.expires_at q.later fresh)

  resolved_ok :
      (code : Bytes) (o : Option Url) (w : W) (u : Url)
      → (resolved p s code o w).0 ≡ ok u
      → (o ≡ some u) ⊎ ((from_store p s code w).0 ≡ ok u)
  unfolding resolved
  resolved_ok code none w u h = inr h
  resolved_ok code (some u') w u h = inl (cc)

  -- From a coherent cache, whatever Redis does, the link that Resolve returns is the row of its code
  -- in PostgreSQL, and it had not expired when the call was made.
  pub resolve_sound :
      (code : Bytes) (w : W) (u : Url)
      → IsCoherent v p s w
      → (resolve p s code w).0 ≡ ok u
      → (v.coded w code ≡ some u) × IsFresh u (v.time w)
  unfolding resolve
  resolve_sound code w u h k =
      let q = look_up-Quiet v p s laws s.cache refl code w in
      elim (resolved_ok code _ _ u k) [
        | inl hit ↦ look_up_hit s.cache refl code w u h hit
        | inr row ↦
            let (e, fresh) = from_store_ok code _ u row in
            (sym (q.same_coded code) ∙ e, earlier _ _ u.expires_at q.later fresh)
      ]
