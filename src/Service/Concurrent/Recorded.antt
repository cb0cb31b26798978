-- ===== src/Service/Concurrent/Recorded.antt =====
-- Once a response is recorded, a request that has not asked yet creates nothing.
use url_shortener.Common.{ℕ, zero, suc, ◌≡◌, refl, inl, inr, Bool-cases, Bytes, some, ◌==◌, ==_iff}
use url_shortener.Errors.{Result, ok, err}
use url_shortener.Model.{Url}
use url_shortener.World.{View}
use url_shortener.World.Platform.{Platform, Counter}
use url_shortener.World.Redis.{reply}
use url_shortener.Idempotency
use url_shortener.Idempotency.{IdemStore, resp_key, lock_key, recorded}
use url_shortener.Service.LongUrl.{UrlLib}
use url_shortener.Service.UrlService.{UrlService}
use url_shortener.Service.Create.{replay, replayed}
use url_shortener.Service.Create.Invariant.{IsStoreKept, create_one_kept, replay_kept}
use url_shortener.Service.Idempotent.{replay_counted}
use url_shortener.Service.Idempotent.Replay.{IsReplayed}
use url_shortener.Service.Concurrent.{
  Request, Pc, asking, claiming, creating, skipping, recording, releasing, polling, replaying,
  finished, asked, next, System, Step, pick, elsewhere, Reach, here, later,
}

-- A response is recorded under the key.
abbrev pub IsRecorded : {W : Type 0} → View W → IdemStore W → Bytes → W → Type 0
IsRecorded v i key w = (x : Bytes) × (v.live w (resp_key i key) ≡ some x)

-- The record does not expire, nothing deletes it, and Redis answers when it is asked for it.
pub record RecordLaws {W P : Type 0} (v : View W) (p : Platform W) (s : UrlService W P)
    (i : IdemStore W) (key : Bytes) (other : W → W → Type 0) : Type 0 where
  pub answers :
      (w : W) (x : Bytes)
      → v.live w (resp_key i key) ≡ some x
      → (i.rdb.get (resp_key i key) w).0 ≡ reply x
  pub on_get : (k : Bytes) (w : W) → IsRecorded v i key w → IsRecorded v i key (i.rdb.get k w).1
  pub on_set_nx :
      (x : Bytes) (d : ℕ) (w : W)
      → IsRecorded v i key w
      → IsRecorded v i key (i.rdb.set_nx (lock_key i key) x d w).1
  pub on_set :
      (x : Bytes) (d : ℕ) (w : W)
      → IsRecorded v i key w
      → IsRecorded v i key (i.rdb.set (resp_key i key) x d w).1
  pub on_del : (w : W) → IsRecorded v i key w → IsRecorded v i key (i.rdb.del (lock_key i key) w).1
  pub on_inc : (c : Counter) (w : W) → IsRecorded v i key w → IsRecorded v i key (p.inc c w).1
  pub on_sleep : (d : ℕ) (w : W) → IsRecorded v i key w → IsRecorded v i key (p.sleep d w).1
  pub on_done : (w : W) → IsRecorded v i key w → IsRecorded v i key (p.context_done w).1
  pub on_store : IsStoreKept s.store (IsRecorded v i key)
  pub on_other : (w w' : W) → other w w' → IsRecorded v i key w → IsRecorded v i key w'

-- The request has not asked yet, or it replays, or it has ended with a replay or an error.
abbrev pub IsReplaying : Pc → Type 0
IsReplaying asking = Unit {0}
IsReplaying (replaying code) = Unit {0}
IsReplaying (finished r) = IsReplayed r
IsReplaying claiming = ⊥
IsReplaying creating = ⊥
IsReplaying skipping = ⊥
IsReplaying (recording res) = ⊥
IsReplaying (releasing res) = ⊥
IsReplaying (polling n) = ⊥

module _ {W P : Type 0} (v : View W) (lib : UrlLib P) (p : Platform W) (s : UrlService W P)
    (i : IdemStore W) (key : Bytes) (other : W → W → Type 0) (laws : RecordLaws v p s i key other)
    (q : ℕ → Request) where
  next-IsRecorded :
      (n : ℕ) (pc : Pc) (w : W)
      → IsRecorded v i key w
      → IsRecorded v i key (next lib p s i key (q n) pc w).1
  unfolding next Idempotency.get Idempotency.claim Idempotency.set Idempotency.release
      replay_counted
  next-IsRecorded n asking w h = laws.on_get _ w h
  next-IsRecorded n claiming w h = laws.on_set_nx _ _ w h
  next-IsRecorded n creating w h =
      create_one_kept lib s (IsRecorded v i key) laws.on_store _ _ _ w h
  next-IsRecorded n skipping w h =
      create_one_kept lib s (IsRecorded v i key) laws.on_store _ _ _ _ (laws.on_inc _ w h)
  next-IsRecorded n (recording res) w h = laws.on_set _ _ w h
  next-IsRecorded n (releasing res) w h = laws.on_del w h
  next-IsRecorded n (polling zero) w h = h
  next-IsRecorded n (polling (suc m)) w h = elim (Bool-cases (p.context_done w).0) [
    | inl y ↦ rw y (laws.on_done w h)
    | inr y ↦ rw y (laws.on_get _ _ (laws.on_sleep _ _ (laws.on_done w h)))
  ]
  next-IsRecorded n (replaying code) w h =
      replay_kept lib s (IsRecorded v i key) laws.on_store code _ (laws.on_inc _ w h)
  next-IsRecorded n (finished r) w h = h

  replayed-IsReplayed : (r : Result Url) → IsReplayed (replayed lib s r)
  unfolding replayed
  replayed-IsReplayed (ok u) = refl
  replayed-IsReplayed (err e) = tt

  next-IsReplaying :
      (n : ℕ) (pc : Pc) (w : W)
      → IsRecorded v i key w
      → IsReplaying pc
      → IsReplaying (next lib p s i key (q n) pc w).0
  unfolding next Idempotency.get replay_counted replay recorded asked
  next-IsReplaying n asking w (x, live) h = rw (laws.answers w x live) tt
  next-IsReplaying n (replaying code) w rec h = replayed-IsReplayed _
  next-IsReplaying n (finished r) w rec h = h
  next-IsReplaying n claiming w rec h = absurd h
  next-IsReplaying n creating w rec h = absurd h
  next-IsReplaying n skipping w rec h = absurd h
  next-IsReplaying n (recording res) w rec h = absurd h
  next-IsReplaying n (releasing res) w rec h = absurd h
  next-IsReplaying n (polling m) w rec h = absurd h

  -- A response is recorded, and the request `n` only replays.
  record IsServed (n : ℕ) (t : System W) : Type 0 where
    known : IsRecorded v i key t.world
    only : IsReplaying (t.pc n)

  Step-IsServed :
      (n : ℕ) {t u : System W} → Step lib p s i key q other t u → IsServed n t → IsServed n u
  Step-IsServed n {t} (pick m) x = record {
    known = next-IsRecorded m (t.pc m) t.world x.known;
    only = elim (Bool-cases (m == n)) [
      | inl e ↦ rw e (
          let same : m ≡ n = (==_iff m n).0 e in
          next-IsReplaying m (t.pc m) t.world x.known (rw same x.only))
      | inr e ↦ rw e x.only
    ];
  }
  Step-IsServed n {t} (elsewhere w h) x = record {
    known = laws.on_other t.world w h x.known;
    only = x.only;
  }

  Reach-IsServed :
      (n : ℕ) {t u : System W} → IsServed n t → Reach lib p s i key q other t u → IsServed n u
  Reach-IsServed n x here = x
  Reach-IsServed n x (later r st) = Step-IsServed n st (Reach-IsServed n x r)

  -- Once a response is recorded under the key, and as long as it does not expire and Redis answers:
  -- a request that has not asked yet only ever replays, whatever steps the others take. What it ends
  -- with is a replay or an error.
  pub recorded_forever :
      (n : ℕ) {t u : System W}
      → IsRecorded v i key t.world
      → t.pc n ≡ asking
      → Reach lib p s i key q other t u
      → IsReplaying (u.pc n)
  recorded_forever n h e r = (Reach-IsServed n (record { known = h; only = rw e tt }) r).only
