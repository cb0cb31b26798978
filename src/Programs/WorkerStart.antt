-- ===== src/Programs/WorkerStart.antt =====
-- What has happened when the worker starts to read the stream.
use mathlib.Core.Path.{subst}
use url_shortener.Common.{
  ◌≡◌, ◌≢◌, refl, ap, inl, inr, Bool, true, false, Bool-cases, [], Option, none, some, text_eq,
  text_eq_iff, arith,
}
use url_shortener.Errors.{Result, ok, err}
use url_shortener.Config.{Config, load}
use url_shortener.Consumer.{ensure_group}
use url_shortener.Programs.{Boot, ready}
use url_shortener.Programs.Worker.{
  WorkerLibraries, Started, consumer_of, grouped, connected, pinged, configured, start, IsStarted,
}

first_known : {A W : Type 0} (r : A × W) {a : A} → r.0 ≡ a → r ≡ (a, r.1)
first_known r e = ap (λ b. (b, r.1)) e

module _ {W R C : Type 0} (l : WorkerLibraries W R C) where
  abbrev EndsStarted : Boot (Started R C) × W → Type 0
  EndsStarted r = (s : Started R C) → r.0 ≡ ready s → IsStarted l s r.1

  grouped_inv :
      (s t : Started R C) (r : Result (Unit {0})) → grouped l s r ≡ ready t → (r ≡ ok tt) × (s ≡ t)
  unfolding grouped
  grouped_inv s t (err e) h = absurd (ground arith)
  grouped_inv s t (ok tt) h = (refl, ground arith)

  connected_started :
      (cfg : Config) (o : Option C) (x y w : W)
      → load l.env l.parse_duration ≡ ok cfg
      → cfg.redis_addr ≢ []
      → (l.redis_ping (l.new_client cfg.redis_addr) x).0 ≡ true
      → (l.connect cfg.database_url y).0 ≡ o
      → EndsStarted (connected l cfg (l.new_client cfg.redis_addr) o w)
  unfolding connected
  connected_started cfg none x y w loaded addr alive conn s h = absurd (ground arith)
  connected_started cfg (some c) x y w loaded addr alive conn s h =
      let (e, same) = grouped_inv _ s _ h in
      subst (λ t. IsStarted l t (connected l cfg (l.new_client cfg.redis_addr) (some c) w).1) same
        (record {
          loaded = loaded;
          has_redis = addr;
          client = refl;
          answered = (x, alive);
          database = (y, conn);
          group = (
            w,
            first_known
                (ensure_group l.platform
                  (consumer_of l
                    (record { config = cfg; rdb = l.new_client cfg.redis_addr; conn = c }))
                  w)
                e,
          );
        })

  pinged_started :
      (cfg : Config) (b : Bool) (x w : W)
      → load l.env l.parse_duration ≡ ok cfg
      → cfg.redis_addr ≢ []
      → (l.redis_ping (l.new_client cfg.redis_addr) x).0 ≡ b
      → EndsStarted (pinged l cfg (l.new_client cfg.redis_addr) b w)
  unfolding pinged
  pinged_started cfg false x w loaded addr alive s h = absurd (ground arith)
  pinged_started cfg true x w loaded addr alive s h =
      connected_started cfg _ x w _ loaded addr alive refl s h

  configured_started :
      (r : Result Config) (w : W) → load l.env l.parse_duration ≡ r → EndsStarted (configured l r w)
  unfolding configured
  configured_started (err e) w loaded s h = absurd (ground arith)
  configured_started (ok cfg) w loaded s h = elim (Bool-cases (text_eq cfg.redis_addr [])) [
    | inl e ↦ absurd (let z = (rw e at h) in ground arith)
    | inr e ↦ rw e (
        pinged_started cfg _ w _ loaded
          (λ z. absurd (ground (arith, text_eq_iff cfg.redis_addr []))) refl s (rw e at h))
  ]

  -- When the worker starts to read the stream: its configuration was loaded and names a Redis, this
  -- has answered the ping, the database is connected, and the last step has seen that the consumer
  -- group exists.
  pub start_started :
      (w : W) (s : Started R C) → (start l w).0 ≡ ready s → IsStarted l s (start l w).1
  unfolding start
  start_started w s h = configured_started (load l.env l.parse_duration) w refl s h
