-- ===== src/Service/Concurrent.antt =====
-- createIdempotent of internal/service/url.go in small steps, one call of the idempotency store or
-- one createOne at a time, and any number of requests with the same idempotency key that take these
-- steps in turns.
pub mod Alone
pub mod Exclusion
pub mod Recorded
use url_shortener.Common.{
  ℕ, zero, suc, ◌<◌, Bool, true, false, Bytes, Option, none, some, ◌==◌, if◌then◌else◌,
}
use url_shortener.Errors.{Result, ok, err, sentinel, context_done, in_flight}
use url_shortener.World.{Action, pure, ◌>>=◌, ◌>>◌}
use url_shortener.World.Platform.{Platform, idempotency_skipped}
use url_shortener.Idempotency
use url_shortener.Idempotency.{IdemStore}
use url_shortener.Service.LongUrl.{UrlLib}
use url_shortener.Service.UrlService.{UrlService}
use url_shortener.Service.Create.{CreateResult, create_one}
use url_shortener.Service.Idempotent.{idem_wait_polls, idem_wait_step, replay_counted}

-- What a request asks for, besides its key.
pub record Request : Type 0 where
  pub custom_code : Bytes
  pub long_url : Bytes
  pub expires_at : Option ℕ

-- Where a request stands in createIdempotent.
pub data Pc : Type 0 where
  asking : Pc  -- before the first `idem.Get`
  claiming : Pc  -- before `idem.Claim`
  creating : Pc  -- before createOne, with the claim
  skipping : Pc  -- before createOne, without dedupe
  recording : CreateResult → Pc  -- before `idem.Set`
  releasing : CreateResult → Pc  -- before `idem.Release`
  polling : ℕ → Pc  -- at the head of the loop, with so many rounds left
  replaying : Bytes → Pc  -- before replay
  finished : Result CreateResult → Pc

unfoldable pub asked : Result (Option Bytes) → Pc
asked (err e) = skipping
asked (ok none) = claiming
asked (ok (some code)) = replaying code

unfoldable pub answered : Result Bool → Pc
answered (err e) = skipping
answered (ok true) = creating
answered (ok false) = polling idem_wait_polls

unfoldable pub created : Result CreateResult → Pc
created (err e) = finished (err e)
created (ok res) = recording res

unfoldable pub looked : ℕ → Result (Option Bytes) → Pc
looked n (err e) = polling n
looked n (ok none) = polling n
looked n (ok (some code)) = replaying code

module _ {W P : Type 0} (lib : UrlLib P) (p : Platform W) (s : UrlService W P) (i : IdemStore W)
    (key : Bytes) where
  -- The next step of a request.
  unfoldable pub next : Request → Pc → Action W Pc
  unfolding asked answered created looked
  next q asking = do r ← Idempotency.get i key; pure (asked r)
  next q claiming = do r ← Idempotency.claim i key; pure (answered r)
  next q creating = do r ← create_one lib s q.custom_code q.long_url q.expires_at; pure (created r)
  next q skipping = do
    p.inc idempotency_skipped
    r ← create_one lib s q.custom_code q.long_url q.expires_at
    pure (finished r)
  next q (recording res) = do Idempotency.set i key res.url.code; pure (releasing res)
  next q (releasing res) = do Idempotency.release i key; pure (finished (ok res))
  next q (polling zero) = pure (finished (err (sentinel in_flight)))
  next q (polling (suc n)) = do
    stop ← p.context_done
    if stop
        then pure (finished (err context_done))
        else (do p.sleep idem_wait_step; r ← Idempotency.get i key; pure (looked n r))
  next q (replaying code) = do r ← replay_counted lib p s code; pure (finished r)
  next q (finished r) = pure (finished r)

  -- `n` steps of a request that nothing interrupts.
  unfoldable pub drive : Request → ℕ → Pc → Action W Pc
  drive q zero pc = pure pc
  drive q (suc n) pc = let rest = drive q n in (do pc' ← next q pc; rest pc')

-- The requests, by their number, over one world.
pub record System (W : Type 0) : Type 0 where
  pub world : W
  pub pc : ℕ → Pc

abbrev pub update : (ℕ → Pc) → ℕ → Pc → ℕ → Pc
update f i pc j = if i == j then pc else f j

module _ {W P : Type 0} (lib : UrlLib P) (p : Platform W) (s : UrlService W P) (i : IdemStore W)
    (key : Bytes) where
  -- A step: one of the requests takes its next step, or something else happens to the world, such
  -- as a request with another key, which `other` allows.
  pub data Step (q : ℕ → Request) (other : W → W → Type 0) (t : System W) : System W → Type 0 where
    pick :
        (n : ℕ)
        → Step q other t (record {
          world = (next lib p s i key (q n) (t.pc n) t.world).1;
          pc = update t.pc n (next lib p s i key (q n) (t.pc n) t.world).0;
        })
    elsewhere : (w : W) → other t.world w → Step q other t (record { world = w; pc = t.pc })

  pub data Reach (q : ℕ → Request) (other : W → W → Type 0) (t : System W) : System W → Type 0 where
    here : Reach q other t t
    later : {u v : System W} → Reach q other t u → Step q other u v → Reach q other t v
