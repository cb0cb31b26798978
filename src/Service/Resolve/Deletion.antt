-- ===== src/Service/Resolve/Deletion.antt =====
-- What Delete of internal/service/url.go leaves behind.
use mathlib.Core.Path.{subst}
use url_shortener.Common.{
  ◌≡◌, inl, inr, refl, sym, ◌∙◌, ap, Bytes, Bool-cases, Option, none, some, arith, text_eq,
  text_eq_iff, text_eq_refl, ◌≢◌, some_inj, if◌then◌else◌,
}
use url_shortener.Errors.{sentinel, Result, ok, err, not_found}
use url_shortener.World.{View, Quiet, Quiet-refl}
use url_shortener.World.Platform.{Platform}
use url_shortener.World.Redis.{Reply, reply}
use url_shortener.Cache
use url_shortener.Cache.{UrlCache, url_key, replied}
use url_shortener.Cache.Laws.{delete-Quiet}
use url_shortener.Service.UrlService.{UrlService}
use url_shortener.Service.Resolve.{evict, after_delete, delete, resolve}
use url_shortener.Service.Resolve.Coherence.{IsCoherent, ServiceLaws}
use url_shortener.Service.Resolve.Outcome.{IsAnswering}
use url_shortener.Service.Resolve.Complete.{IsDue, resolve_complete}

-- In the world `w` Redis would carry out the deletion of the code's cache entry.
abbrev pub IsEvicting : {W P : Type 0} → UrlService W P → Bytes → W → Type 0
IsEvicting s code w = (c : UrlCache _) → s.cache ≡ some c → (Cache.delete c code w).0 ≡ ok tt

replied_ok : (r : Reply (Unit {0})) → replied r ≡ ok tt → r ≡ reply tt
unfolding replied
replied_ok (reply a) h = refl
replied_ok Reply.nil h = absurd (ground arith)
replied_ok Reply.fail h = absurd (ground arith)

module _ {W P : Type 0} (v : View W) (p : Platform W) (s : UrlService W P)
    (laws : ServiceLaws v p s) where
  evict-Quiet :
      (o : Option (UrlCache W)) (e : s.cache ≡ o) (code : Bytes) (w : W)
      → Quiet v w (evict p s o code w).1
  unfolding evict
  evict-Quiet none e code w = Quiet-refl w
  evict-Quiet (some c) e code w = delete-Quiet v p c laws.platform (laws.cache c e) code w

  evict_gone :
      (c : UrlCache W) (o : Option (UrlCache W)) (e : s.cache ≡ o) (k : o ≡ some c) (code : Bytes)
      (w : W)
      → IsEvicting s code w
      → v.live (evict p s o code w).1 (url_key c code) ≡ none
  unfolding evict
  evict_gone c none e k code w h = absurd (ground arith)
  evict_gone c (some c') e k code w h =
      let same : c' ≡ c = some_inj k in
      subst (λ (d : UrlCache W). v.live (Cache.delete c' code w).1 (url_key d code) ≡ none) same
        (unfold Cache.delete in
          (laws.cache c' e).del_gone (url_key c' code) w (replied_ok _ (h c' e)))

  after_delete_inv :
      (code : Bytes) (r : Result (Unit {0})) (w : W)
      → (after_delete p s code r w).0 ≡ ok tt
      → (r ≡ ok tt) × ((after_delete p s code r w).1 ≡ (evict p s s.cache code w).1)
  unfolding after_delete
  after_delete_inv code (ok a) w h = (refl, refl)
  after_delete_inv code (err e) w h = absurd (ground arith)

  -- After a successful Delete no row has the code, and every other row is as it was.
  pub coded-delete :
      (code : Bytes) (w : W)
      → (delete p s code w).0 ≡ ok tt
      → (d : Bytes)
      → v.coded (delete p s code w).1 d ≡ (if text_eq code d then none else v.coded w d)
  unfolding delete
  coded-delete code w h d =
      let (e, same) = after_delete_inv code _ _ h in
      let q = evict-Quiet s.cache refl code (s.store.delete_by_code code w).1 in
      rw same (q.same_coded d ∙ dropped d e)
    where
      dropped :
          (d : Bytes)
          → (s.store.delete_by_code code w).0 ≡ ok tt
          → v.coded (s.store.delete_by_code code w).1 d
            ≡ (if text_eq code d then none else v.coded w d)
      dropped d e = elim (Bool-cases (text_eq code d)) [
        | inl x ↦ rw x (
            ap (λ y. v.coded (s.store.delete_by_code code w).1 y) (sym ((text_eq_iff code d).0 x))
            ∙ laws.store.delete_ok code w e)
        | inr x ↦ rw x ((laws.store.delete_drops code w).others d x)
      ]

  -- After a successful Delete: a key that is live was live before, and the code's own entry is gone.
  live_after :
      (c : UrlCache W) (code : Bytes) (w : W)
      → s.cache ≡ some c
      → IsEvicting s code (s.store.delete_by_code code w).1
      → (delete p s code w).0 ≡ ok tt
      → (k raw : Bytes) → v.live (delete p s code w).1 k ≡ some raw
      → (v.live w k ≡ some raw) × (url_key c code ≢ k)
  unfolding delete
  live_after c code w e evicting done k raw live =
      let (_, same) = after_delete_inv code _ _ done in
      let w' = (s.store.delete_by_code code w).1 in
      let now : v.live (evict p s s.cache code w').1 k ≡ some raw =
        ap (λ x. v.live x k) (sym same) ∙ live in
      let gone = evict_gone c s.cache refl e code w' evicting in
      (
        (laws.store.delete_drops code w).fades k raw
            ((evict-Quiet s.cache refl code w').fades k raw now),
        λ own. let clash = ap (v.live (evict p s s.cache code w').1) own in cc,
      )

  -- A successful Delete whose cache deletion is carried out keeps the cache coherent.
  pub delete-IsCoherent :
      (code : Bytes) (w : W)
      → IsCoherent v p s w
      → IsEvicting s code (s.store.delete_by_code code w).1
      → (delete p s code w).0 ≡ ok tt
      → IsCoherent v p s (delete p s code w).1
  delete-IsCoherent code w h evicting done c e code' raw u live d =
      let (before, own) = live_after c code w e evicting done (url_key c code') raw live in
      elim (Bool-cases (text_eq code code')) [
        | inl x ↦ absurd (own (ap (url_key c) ((text_eq_iff code code').0 x)))
        | inr x ↦ coded-delete code w done code' ∙ rw x (h c e code' raw u before d)
      ]

  -- Once a link is deleted, with its cache entry, Resolve gives ErrNotFound for it: no stale entry
  -- answers.
  pub resolve-delete :
      (code : Bytes) (w : W)
      → IsCoherent v p s w
      → IsAnswering s.store
      → IsEvicting s code (s.store.delete_by_code code w).1
      → (delete p s code w).0 ≡ ok tt
      → (resolve p s code (delete p s code w).1).0 ≡ err (sentinel not_found)
  resolve-delete code w h answers evicting done =
      let w' = (delete p s code w).1 in
      let row : v.coded w' code ≡ none =
        coded-delete code w done code
        ∙ ap (λ b. if b then none else v.coded w code) (text_eq_refl code) in
      subst (λ o. IsDue o (v.time w') (v.time (resolve p s code w').1) (resolve p s code w').0) row
        (resolve_complete v p s laws code w' (delete-IsCoherent code w h evicting done) answers)
