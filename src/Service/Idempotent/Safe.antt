-- ===== src/Service/Idempotent/Safe.antt =====
-- Whatever Redis and PostgreSQL answer, createIdempotent changes no coded row and keeps the cache
-- coherent.
use url_shortener.Common.{
  ℕ, zero, suc, ◌≡◌, ◌≢◌, inl, inr, refl, ◌∙◌, Bytes, Bool, true, false, Bool-cases, Option, none,
  some, length, ltb,
}
use url_shortener.Errors.{Result, ok, err}
use url_shortener.Model.{Url}
use url_shortener.World.{Action, View, Quiet, Quiet-refl, Quiet-trans}
use url_shortener.World.Platform.{Platform}
use url_shortener.World.Redis.{RedisLaws, Writes}
use url_shortener.World.Postgres.{Adds}
use url_shortener.Cache.{UrlCache, url_key}
use url_shortener.Idempotency
use url_shortener.Idempotency.{IdemStore}
use url_shortener.Idempotency.Keys.{keys_disjoint}
use url_shortener.Service.LongUrl.{UrlLib}
use url_shortener.Service.UrlService.{UrlService}
use url_shortener.Service.Resolve.Coherence.{IsCoherent, ServiceLaws, Quiet-IsCoherent}
use url_shortener.Service.Create.{CreateResult, create_one}
use url_shortener.Service.Create.Keeps.{create_one-Adds, replay-Quiet}
use url_shortener.Service.Idempotent.{
  idem_wait_polls, max_idem_key_length, replay_counted, polled, wait, create_skipped, record_result,
  create_claimed, claimed, looked_up, guarded, create_idempotent,
}

-- What Create relies on besides: the idempotency store's Redis, under the prefix of the cache.
pub record CreateLaws {W P : Type 0} (v : View W) (p : Platform W) (s : UrlService W P)
    : Type 0 where
  pub service : ServiceLaws v p s
  pub idem : (i : IdemStore W) → s.idem ≡ some i → RedisLaws v i.rdb
  pub one_prefix :
      (c : UrlCache W) (i : IdemStore W)
      → s.cache ≡ some c
      → s.idem ≡ some i
      → i.key_base ≡ c.key_base

-- From `w` to `w'` no coded row has changed, and a coherent cache is still coherent.
pub record IsSafe {W P : Type 0} (v : View W) (p : Platform W) (s : UrlService W P) (w w' : W)
    : Type 0 where
  pub keeps : (c : Bytes) (u : Url) → v.coded w c ≡ some u → v.coded w' c ≡ some u
  pub coherent : IsCoherent v p s w → IsCoherent v p s w'

module _ {W P : Type 0} (v : View W) (lib : UrlLib P) (p : Platform W) (s : UrlService W P)
    (laws : CreateLaws v p s) where
  pub IsSafe-refl : (w : W) → IsSafe v p s w w
  IsSafe-refl w = record { keeps = λ c u h. h; coherent = λ h. h }

  pub IsSafe-trans : {a b c : W} → IsSafe v p s a b → IsSafe v p s b c → IsSafe v p s a c
  IsSafe-trans f g = record {
    keeps = λ c u h. g.keeps c u (f.keeps c u h);
    coherent = λ h. g.coherent (f.coherent h);
  }

  pub Quiet-IsSafe : {a b : W} → Quiet v a b → IsSafe v p s a b
  Quiet-IsSafe {a} {b} q = record {
    keeps = λ c u h. q.same_coded c ∙ h;
    coherent = Quiet-IsCoherent v p s laws.service a b q;
  }

  Adds-IsSafe : {a b : W} → Adds v a b → IsSafe v p s a b
  Adds-IsSafe q = record {
    keeps = q.keeps;
    coherent = λ h c e code raw u live d. q.keeps code u (h c e code raw u (q.fades _ raw live) d);
  }

  -- a write under a key that no cache entry has
  Writes-IsSafe :
      {a b : W} (k x : Bytes)
      → Writes v k x a b
      → ((c : UrlCache W) (code : Bytes) → s.cache ≡ some c → url_key c code ≢ k)
      → IsSafe v p s a b
  Writes-IsSafe k x q own = record {
    keeps = λ c u h. q.same_coded c ∙ h;
    coherent = λ h c e code raw u live d.
        q.same_coded code
        ∙ h c e code raw u
            (elim (q.fades (url_key c code) raw live) [
              | inl old ↦ old
              | inr (same, _) ↦ absurd (own c code e same)
            ])
            d;
  }

  pub create_one-IsSafe :
      (custom_code long_url : Bytes) (x : Option ℕ) (w : W)
      → IsSafe v p s w (create_one lib s custom_code long_url x w).1
  create_one-IsSafe custom_code long_url x w =
      Adds-IsSafe (create_one-Adds v lib s laws.service.store custom_code long_url x w)

  pub replay_counted-Quiet : (code : Bytes) (w : W) → Quiet v w (replay_counted lib p s code w).1
  unfolding replay_counted
  replay_counted-Quiet code w =
      Quiet-trans (laws.service.platform.inc_quiet _ w)
        (replay-Quiet v lib s laws.service.store code _)

  module _ (i : IdemStore W) (e : s.idem ≡ some i) where
    pub get-Quiet : (key : Bytes) (w : W) → Quiet v w (Idempotency.get i key w).1
    unfolding Idempotency.get
    get-Quiet key w = (laws.idem i e).get_quiet _ w

    polled-Quiet :
        (rest : Action W (Result CreateResult)) (r : Result (Option Bytes)) (w : W)
        → ((w' : W) → Quiet v w' (rest w').1)
        → Quiet v w (polled lib p s rest r w).1
    unfolding polled
    polled-Quiet rest (ok none) w h = h w
    polled-Quiet rest (ok (some code)) w h = replay_counted-Quiet code w
    polled-Quiet rest (err _) w h = h w

    -- The wait loop writes nothing.
    pub wait-Quiet : (key : Bytes) (n : ℕ) (w : W) → Quiet v w (wait lib p s i key n w).1
    unfolding wait
    wait-Quiet key zero w = Quiet-refl w
    wait-Quiet key (suc n) w = elim (Bool-cases (p.context_done w).0) [
      | inl x ↦ rw (x, wait) (laws.service.platform.done_quiet w)
      | inr x ↦
          rw (x, wait)
            (Quiet-trans (laws.service.platform.done_quiet w) (
              Quiet-trans (laws.service.platform.sleep_quiet _ _)
                (Quiet-trans (get-Quiet key _) (polled-Quiet _ _ _ (wait-Quiet key n)))))
    ]

    set-IsSafe : (key code : Bytes) (w : W) → IsSafe v p s w (Idempotency.set i key code w).1
    unfolding Idempotency.set
    set-IsSafe key code w =
        Writes-IsSafe _ code ((laws.idem i e).set_writes _ code _ w)
          (λ c name k. (keys_disjoint c i name key key (laws.one_prefix c i k e)).0)

    pub claim-IsSafe : (key : Bytes) (w : W) → IsSafe v p s w (Idempotency.claim i key w).1
    unfolding Idempotency.claim
    claim-IsSafe key w =
        Writes-IsSafe _ _ ((laws.idem i e).set_nx_writes _ _ _ w)
          (λ c name k. (keys_disjoint c i name key key (laws.one_prefix c i k e)).1)

    pub claim_coded :
        (key : Bytes) (w : W) (c : Bytes) → v.coded (Idempotency.claim i key w).1 c ≡ v.coded w c
    unfolding Idempotency.claim
    claim_coded key w = ((laws.idem i e).set_nx_writes _ _ _ w).same_coded

    release-Quiet : (key : Bytes) (w : W) → Quiet v w (Idempotency.release i key w).1
    unfolding Idempotency.release
    release-Quiet key w = (laws.idem i e).del_quiet _ w

    module _ (custom_code long_url : Bytes) (x : Option ℕ) (key : Bytes) where
      skipped-IsSafe :
          (w : W) → IsSafe v p s w (create_skipped lib p s custom_code long_url x key w).1
      unfolding create_skipped
      skipped-IsSafe w =
          IsSafe-trans (Quiet-IsSafe (laws.service.platform.inc_quiet _ w))
            (create_one-IsSafe custom_code long_url x _)

      record-IsSafe :
          (r : Result CreateResult) (w : W)
          → IsSafe v p s w (record_result lib p s custom_code long_url x key i r w).1
      unfolding record_result
      record-IsSafe (err _) w = IsSafe-refl w
      record-IsSafe (ok res) w =
          IsSafe-trans (set-IsSafe key res.url.code w) (Quiet-IsSafe (release-Quiet key _))

      create_claimed-IsSafe :
          (w : W) → IsSafe v p s w (create_claimed lib p s custom_code long_url x key i w).1
      unfolding create_claimed
      create_claimed-IsSafe w =
          IsSafe-trans (create_one-IsSafe custom_code long_url x w) (record-IsSafe _ _)

      claimed-IsSafe :
          (r : Result Bool) (w : W)
          → IsSafe v p s w (claimed lib p s custom_code long_url x key i r w).1
      unfolding claimed
      claimed-IsSafe (err _) w = skipped-IsSafe w
      claimed-IsSafe (ok true) w = create_claimed-IsSafe w
      claimed-IsSafe (ok false) w = Quiet-IsSafe (wait-Quiet key idem_wait_polls w)

      looked_up-IsSafe :
          (r : Result (Option Bytes)) (w : W)
          → IsSafe v p s w (looked_up lib p s custom_code long_url x key i r w).1
      unfolding looked_up
      looked_up-IsSafe (err _) w = skipped-IsSafe w
      looked_up-IsSafe (ok (some code)) w = Quiet-IsSafe (replay_counted-Quiet code w)
      looked_up-IsSafe (ok none) w = IsSafe-trans (claim-IsSafe key w) (claimed-IsSafe _ _)

  module _ (custom_code long_url : Bytes) (x : Option ℕ) (key : Bytes) where
    guarded-IsSafe :
        (o : Option (IdemStore W)) (e : s.idem ≡ o) (w : W)
        → IsSafe v p s w (guarded lib p s custom_code long_url x key o w).1
    unfolding guarded
    guarded-IsSafe none e w = create_one-IsSafe custom_code long_url x w
    guarded-IsSafe (some i) e w =
        IsSafe-trans (Quiet-IsSafe (get-Quiet i e key w))
          (looked_up-IsSafe i e custom_code long_url x key _ _)

    pub create_idempotent-IsSafe :
        (w : W) → IsSafe v p s w (create_idempotent lib p s custom_code long_url x key w).1
    unfolding create_idempotent
    create_idempotent-IsSafe w = elim (Bool-cases (ltb max_idem_key_length (length key))) [
      | inl y ↦ rw (y, create_idempotent) (IsSafe-refl w)
      | inr y ↦ rw (y, create_idempotent) (guarded-IsSafe s.idem refl w)
    ]
