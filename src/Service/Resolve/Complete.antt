-- ===== src/Service/Resolve/Complete.antt =====
-- Resolve decides every code, with Redis or without it, as long as PostgreSQL answers.
use mathlib.Core.Path.{subst}
use url_shortener.Common.{
  ℕ, ◌≡◌, ◌⊎◌, ◌≤◌, ◌<◌, inl, inr, refl, sym, Bytes, true, false, Bool-cases, Option, none, some,
  leb, arith,
}
use url_shortener.Errors.{
  Error, sentinel, Result, ok, err, is, not_found, expired, repository_not_found,
}
use url_shortener.Model.{Url}
use url_shortener.World.{View, Quiet}
use url_shortener.World.Platform.{Platform}
use url_shortener.Service.UrlService.{UrlService}
use url_shortener.Service.Resolve.{
  is_expired, look_up, from_row, from_store, resolved, resolve, not_found_or,
}
use url_shortener.Service.Resolve.Coherence.{IsCoherent, ServiceLaws, look_up-Quiet}
use url_shortener.Service.Resolve.Outcome.{IsBefore, IsFresh, IsAnswering, look_up_hit}

-- The result for a link: the link itself, or, if it can expire, the link only before its expiry and
-- ErrExpired only from its expiry on. The call runs from `t` to `t'`.
abbrev pub IsDueAt : Result Url → Option ℕ → ℕ → ℕ → Result Url → Type 0
IsDueAt link none t t' r = r ≡ link
IsDueAt link (some x) t t' r = ((r ≡ link) × (t < x)) ⊎ ((r ≡ err (sentinel expired)) × (x ≤ t'))

-- The result for a code whose row is `o`.
abbrev pub IsDue : Option Url → ℕ → ℕ → Result Url → Type 0
IsDue none t t' r = r ≡ err (sentinel not_found)
IsDue (some u) t t' r = IsDueAt (ok u) u.expires_at t t' r

due_link : (u : Url) (e : Option ℕ) (t t' : ℕ) → IsBefore t e → IsDueAt (ok u) e t t' (ok u)
due_link u none t t' h = refl
due_link u (some x) t t' h = inl (refl, h)

due_expired :
    (link : Result Url) (e : Option ℕ) (t t' x : ℕ)
    → e ≡ some x
    → x ≤ t'
    → IsDueAt link e t t' (err (sentinel expired))
due_expired link none t t' x k h = absurd (ground arith)
due_expired link (some y) t t' x k h = inr (refl, ground arith)

widen :
    (link r : Result Url) (e : Option ℕ) (a b t' : ℕ)
    → a ≤ b
    → IsDueAt link e b t' r
    → IsDueAt link e a t' r
widen link r none a b t' l h = h
widen link r (some x) a b t' l (inl (same, early)) = inl (same, omega arith)
widen link r (some x) a b t' l (inr h) = inr h

module _ {W P : Type 0} (v : View W) (p : Platform W) (s : UrlService W P)
    (laws : ServiceLaws v p s) where
  -- The test for expiry, with the times between which the clock was read.
  expiry_test :
      (e : Option ℕ) (w : W)
      → (((is_expired p s e w).0 ≡ false) × IsBefore (v.time w) e)
        ⊎ (((is_expired p s e w).0 ≡ true)
            × ((x : ℕ) × (e ≡ some x) × (x ≤ v.time (is_expired p s e w).1)))
  unfolding is_expired
  expiry_test none w = inl (refl, tt)
  expiry_test (some e) w =
      let l = laws.platform.now_later w in
      let m = laws.platform.now_earlier w in
      elim (Bool-cases (leb e (p.now w).0)) [
        | inl x ↦ inr (x, (e, refl, ground arith))
        | inr x ↦ inl (x, ground arith)
      ]

  from_row-IsDue :
      (code : Bytes) (u : Url) (w : W)
      → IsDue
          (some u)
          (v.time w)
          (v.time (from_row p s code (ok u) w).1)
          (from_row p s code (ok u) w).0
  unfolding from_row
  from_row-IsDue code u w = elim (expiry_test u.expires_at w) [
    | inl (x, early) ↦ rw (x, from_row) (due_link u u.expires_at _ _ early)
    | inr (x, (y, e, late)) ↦ rw (x, from_row) (due_expired _ u.expires_at _ _ y e late)
  ]

  row-IsDue :
      (code : Bytes) (u : Url) (r : Result Url) (w : W)
      → r ≡ ok u
      → IsDue (some u) (v.time w) (v.time (from_row p s code r w).1) (from_row p s code r w).0
  row-IsDue code u r w e =
      subst
        (λ (r' : Result Url).
          IsDue (some u) (v.time w) (v.time (from_row p s code r' w).1) (from_row p s code r' w).0)
        (sym e) (from_row-IsDue code u w)

  row_cases :
      (r : Result Url)
      → ((e : Error) → r ≡ err e → is e repository_not_found ≡ true)
      → ((u : Url) × (r ≡ ok u)) ⊎ ((e : Error) × (r ≡ err e) × (is e repository_not_found ≡ true))
  row_cases (ok u) h = inl (u, refl)
  row_cases (err e) h = inr (e, refl, h e refl)

  from_row_missing :
      (code : Bytes) (r : Result Url) (w : W) (e : Error)
      → r ≡ err e
      → is e repository_not_found ≡ true
      → (from_row p s code r w).0 ≡ err (sentinel not_found)
  unfolding from_row not_found_or
  from_row_missing code r w e same h = rw (same, from_row, h)

  from_store-IsDue :
      (code : Bytes) (w : W)
      → IsAnswering s.store
      → IsDue
          (v.coded w code)
          (v.time w)
          (v.time (from_store p s code w).1)
          (from_store p s code w).0
  unfolding from_store
  from_store-IsDue code w answers =
      let q = (laws.store.get_quiet code w).later in
      elim (row_cases (s.store.get_by_code code w).0 (answers code w)) [
        | inl (u, e) ↦
            rw (laws.store.get_ok code w u e)
              (widen _ _ u.expires_at _ _ _ q (row-IsDue code u _ _ e))
        | inr (e, same, h) ↦
            rw (laws.store.get_not_found code w e same h) (from_row_missing code _ _ e same h)
      ]

  IsDue-widen :
      (o : Option Url) (r : Result Url) (a b t' : ℕ) → a ≤ b → IsDue o b t' r → IsDue o a t' r
  IsDue-widen none r a b t' l h = h
  IsDue-widen (some u) r a b t' l h = widen (ok u) r u.expires_at a b t' l h

  resolved-IsDue :
      (code : Bytes) (hit : Option Url) (w w' : W)
      → Quiet v w w'
      → IsAnswering s.store
      → ((u : Url) → hit ≡ some u → (v.coded w code ≡ some u) × IsFresh u (v.time w))
      → IsDue
          (v.coded w code)
          (v.time w)
          (v.time (resolved p s code hit w').1)
          (resolved p s code hit w').0
  unfolding resolved
  resolved-IsDue code none w w' q answers h = IsDue-widen _ _ _ _ _ q.later (
      subst
        (λ o. IsDue o (v.time w') (v.time (from_store p s code w').1) (from_store p s code w').0)
        (q.same_coded code) (from_store-IsDue code w' answers))
  resolved-IsDue code (some u) w w' q answers h =
      let (row, fresh) = h u refl in rw row (due_link u u.expires_at _ _ fresh)

  -- From a coherent cache and with a database that answers, whatever Redis does: a code with no row
  -- gives ErrNotFound, a row that never expires is returned, and a row that can expire is returned
  -- only before its expiry and gives ErrExpired only from its expiry on.
  pub resolve_complete :
      (code : Bytes) (w : W)
      → IsCoherent v p s w
      → IsAnswering s.store
      → IsDue (v.coded w code) (v.time w) (v.time (resolve p s code w).1) (resolve p s code w).0
  unfolding resolve
  resolve_complete code w h answers =
      resolved-IsDue code (look_up p s s.cache code w).0 w _
        (look_up-Quiet v p s laws s.cache refl code w) answers
        (λ u e. look_up_hit v p s laws s.cache refl code w u h e)
