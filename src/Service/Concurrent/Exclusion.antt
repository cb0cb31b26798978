-- ===== src/Service/Concurrent/Exclusion.antt =====
-- While the claim on the key does not expire, one request at most creates under it.
use url_shortener.Common.{
  ℕ, zero, suc, ◌≡◌, refl, sym, ap, ◌∙◌, inl, inr, Bool, true, false, Bool-cases, Bytes, codes,
  Option, none, some, arith, ◌==◌, ==_iff,
}
use url_shortener.Errors.{Result, ok, err}
use url_shortener.World.{View}
use url_shortener.World.Platform.{Platform, Counter}
use url_shortener.World.Redis.{Reply, reply, nil, fail}
use url_shortener.Idempotency
use url_shortener.Idempotency.{IdemStore, resp_key, lock_key, answered}
use url_shortener.Service.LongUrl.{UrlLib}
use url_shortener.Service.UrlService.{UrlService}
use url_shortener.Service.Create.Invariant.{IsStoreKept, create_one_kept, replay_kept}
use url_shortener.Service.Idempotent.{replay_counted}
use url_shortener.Service.Concurrent
use url_shortener.Service.Concurrent.{
  Request, Pc, asking, claiming, creating, skipping, recording, releasing, polling, replaying,
  finished, asked, created, looked, next, System, update, Step, pick, elsewhere, Reach, here, later,
}

-- The request owns the claim.
abbrev pub is_critical : Pc → Bool
is_critical creating = true
is_critical (recording res) = true
is_critical (releasing res) = true
is_critical asking = false
is_critical claiming = false
is_critical skipping = false
is_critical (polling n) = false
is_critical (replaying code) = false
is_critical (finished r) = false

-- The claim is held, by whomever.
abbrev pub IsHeld : {W : Type 0} → View W → IdemStore W → Bytes → W → Type 0
IsHeld v i key w = (x : Bytes) × (v.live w (lock_key i key) ≡ some x)

-- What mutual exclusion relies on: the claim does not expire, only Release deletes it, SET NX
-- succeeds only on a key that is not there, and nothing else touches it.
pub record ClaimLaws {W P : Type 0} (v : View W) (p : Platform W) (s : UrlService W P)
    (i : IdemStore W) (key : Bytes) (other : W → W → Type 0) : Type 0 where
  pub won :
      (w : W)
      → (i.rdb.set_nx (lock_key i key) (codes "1") i.lock_ttl w).0 ≡ reply true
      → (v.live w (lock_key i key) ≡ none)
        × IsHeld v i key (i.rdb.set_nx (lock_key i key) (codes "1") i.lock_ttl w).1
  pub on_set_nx :
      (w : W)
      → IsHeld v i key w
      → IsHeld v i key (i.rdb.set_nx (lock_key i key) (codes "1") i.lock_ttl w).1
  pub on_get : (k : Bytes) (w : W) → IsHeld v i key w → IsHeld v i key (i.rdb.get k w).1
  pub on_set :
      (x : Bytes) (w : W)
      → IsHeld v i key w
      → IsHeld v i key (i.rdb.set (resp_key i key) x i.resp_ttl w).1
  pub on_inc : (c : Counter) (w : W) → IsHeld v i key w → IsHeld v i key (p.inc c w).1
  pub on_sleep : (d : ℕ) (w : W) → IsHeld v i key w → IsHeld v i key (p.sleep d w).1
  pub on_done : (w : W) → IsHeld v i key w → IsHeld v i key (p.context_done w).1
  pub on_store : IsStoreKept s.store (IsHeld v i key)
  pub on_other : (w w' : W) → other w w' → IsHeld v i key w → IsHeld v i key w'

module _ {W P : Type 0} (v : View W) (lib : UrlLib P) (p : Platform W) (s : UrlService W P)
    (i : IdemStore W) (key : Bytes) (other : W → W → Type 0) (laws : ClaimLaws v p s i key other)
    (q : ℕ → Request) where
  -- What one step of a request may do to the claim: it gains nothing and the claim stays held; or
  -- it wins a claim that was free; or it owns the claim and gives it up.
  data IsMove (pc pc' : Pc) (w w' : W) : Type 0 where
    idles :
        (is_critical pc' ≡ true → is_critical pc ≡ true)
        → (IsHeld v i key w → IsHeld v i key w')
        → IsMove pc pc' w w'
    wins : v.live w (lock_key i key) ≡ none → IsHeld v i key w' → IsMove pc pc' w w'
    gives_up : is_critical pc ≡ true → is_critical pc' ≡ false → IsMove pc pc' w w'

  asked_not : (r : Result (Option Bytes)) → is_critical (asked r) ≡ false
  unfolding asked
  asked_not (err e) = refl
  asked_not (ok none) = refl
  asked_not (ok (some code)) = refl

  looked_not : (n : ℕ) (r : Result (Option Bytes)) → is_critical (looked n r) ≡ false
  unfolding looked
  looked_not n (err e) = refl
  looked_not n (ok none) = refl
  looked_not n (ok (some code)) = refl

  harmless :
      (pc pc' : Pc) (w w' : W)
      → is_critical pc' ≡ false
      → (IsHeld v i key w → IsHeld v i key w')
      → IsMove pc pc' w w'
  harmless pc pc' w w' h k = idles (λ y. absurd (ground arith)) k

  claim_moves :
      (r : Reply Bool) (w w' : W)
      → (r ≡ reply true → (v.live w (lock_key i key) ≡ none) × IsHeld v i key w')
      → (IsHeld v i key w → IsHeld v i key w')
      → IsMove claiming (Concurrent.answered (answered r)) w w'
  unfolding Concurrent.answered answered
  claim_moves (reply true) w w' h k = let (free, held) = h refl in wins free held
  claim_moves (reply false) w w' h k = harmless _ _ _ _ refl k
  claim_moves nil w w' h k = harmless _ _ _ _ refl k
  claim_moves fail w w' h k = harmless _ _ _ _ refl k

  next_moves :
      (n : ℕ) (pc : Pc) (w : W)
      → IsMove pc (next lib p s i key (q n) pc w).0 w (next lib p s i key (q n) pc w).1
  unfolding next Idempotency.get Idempotency.claim Idempotency.set Idempotency.release
      replay_counted
  next_moves n asking w = harmless _ _ _ _ (asked_not _) (laws.on_get _ w)
  next_moves n claiming w = claim_moves _ _ _ (laws.won w) (laws.on_set_nx w)
  next_moves n creating w =
      idles (λ y. refl) (create_one_kept lib s (IsHeld v i key) laws.on_store _ _ _ w)
  next_moves n skipping w =
      harmless _ _ _ _ refl
        (λ h. create_one_kept lib s (IsHeld v i key) laws.on_store _ _ _ _ (laws.on_inc _ w h))
  next_moves n (recording res) w = idles (λ y. refl) (laws.on_set _ w)
  next_moves n (releasing res) w = gives_up refl refl
  next_moves n (polling zero) w = harmless _ _ _ _ refl (λ h. h)
  next_moves n (polling (suc m)) w = elim (Bool-cases (p.context_done w).0) [
    | inl y ↦ rw y (harmless _ _ _ _ refl (laws.on_done w))
    | inr y ↦ rw y (
        harmless _ _ _ _ (looked_not m _)
          (λ h. laws.on_get _ _ (laws.on_sleep _ _ (laws.on_done w h))))
  ]
  next_moves n (replaying code) w =
      harmless _ _ _ _ refl
        (λ h. replay_kept lib s (IsHeld v i key) laws.on_store code _ (laws.on_inc _ w h))
  next_moves n (finished r) w = harmless _ _ _ _ refl (λ h. h)

  -- Who owns the claim holds it, and nobody else owns it.
  pub record IsExclusive (t : System W) : Type 0 where
    pub held : (n : ℕ) → is_critical (t.pc n) ≡ true → IsHeld v i key t.world
    pub unique : (a b : ℕ) → is_critical (t.pc a) ≡ true → is_critical (t.pc b) ≡ true → a ≡ b

  moved :
      (t : System W) (n : ℕ) (pc' : Pc) (w' : W)
      → IsMove (t.pc n) pc' t.world w'
      → IsExclusive t
      → IsExclusive (record { world = w'; pc = update t.pc n pc' })
  moved t n pc' w' (idles lose keep) x = record {
    held = λ a y. keep (x.held a (before a y));
    unique = λ a b y z. x.unique a b (before a y) (before b z);
  }
    where
      before : (a : ℕ) → is_critical (update t.pc n pc' a) ≡ true → is_critical (t.pc a) ≡ true
      before a y = elim (Bool-cases (n == a)) [
        | inl e ↦
            let same : n ≡ a = (==_iff n a).0 e in
            ap (λ k. is_critical (t.pc k)) (sym same) ∙ lose (rw e at y)
        | inr e ↦ rw e at y
      ]
  moved t n pc' w' (wins free held) x = record {
    held = λ a y. held;
    unique = λ a b y z. sym (only a y) ∙ only b z;
  }
    where
      nobody : (a : ℕ) → is_critical (t.pc a) ≡ true → ⊥
      nobody a y =
          let (k, h) = x.held a y in absurd (let z : none ≡ some k = sym free ∙ h in ground arith)

      only : (a : ℕ) → is_critical (update t.pc n pc' a) ≡ true → n ≡ a
      only a y = elim (Bool-cases (n == a)) [
        | inl e ↦ (==_iff n a).0 e
        | inr e ↦ absurd (nobody a (rw e at y))
      ]
  moved t n pc' w' (gives_up own gone) x = record {
    held = λ a y. absurd (nobody a y);
    unique = λ a b y z. absurd (nobody a y);
  }
    where
      nobody : (a : ℕ) → is_critical (update t.pc n pc' a) ≡ true → ⊥
      nobody a y = elim (Bool-cases (n == a)) [
        | inl e ↦ (let z : is_critical pc' ≡ true = (rw e at y) in absurd (ground arith))
        | inr e ↦
            let same : n ≡ a = x.unique n a own (rw e at y) in
            (let z : (n == a) ≡ true = (==_iff n a).1 same in absurd (ground arith))
      ]

  Step-IsExclusive :
      {t u : System W} → Step lib p s i key q other t u → IsExclusive t → IsExclusive u
  Step-IsExclusive {t} (pick n) x = moved t n _ _ (next_moves n (t.pc n) t.world) x
  Step-IsExclusive {t} (elsewhere w h) x = record {
    held = λ a y. laws.on_other t.world w h (x.held a y);
    unique = x.unique;
  }

  Reach-IsExclusive :
      {t u : System W} → IsExclusive t → Reach lib p s i key q other t u → IsExclusive u
  Reach-IsExclusive x here = x
  Reach-IsExclusive x (later r st) = Step-IsExclusive st (Reach-IsExclusive x r)

  -- All requests start at their first look-up.
  abbrev pub fresh : W → System W
  fresh w = record { world = w; pc = λ n. asking }

  fresh-IsExclusive : (w : W) → IsExclusive (fresh w)
  fresh-IsExclusive w = record {
    held = λ n y. absurd (ground arith);
    unique = λ a b y z. absurd (ground arith);
  }

  -- However many requests with one key take their steps in turns with each other and with the rest
  -- of the world: while the claim on the key does not expire, at most one of them owns the claim, from
  -- winning it until its release, so no two create under it at the same time.
  pub one_creator :
      {t : System W} (w : W)
      → Reach lib p s i key q other (fresh w) t
      → (a b : ℕ) → is_critical (t.pc a) ≡ true
      → is_critical (t.pc b) ≡ true
      → a ≡ b
  one_creator w r = (Reach-IsExclusive (fresh-IsExclusive w) r).unique
