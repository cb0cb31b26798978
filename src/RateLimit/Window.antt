-- ===== src/RateLimit/Window.antt =====
-- How many requests of a client one window admits.
use mathlib.Core.Path.{subst}
use url_shortener.Common.{
  ℕ, zero, suc, ◌+◌, ◌-◌, ◌/◌, ◌≤◌, ◌≡◌, ◌⊎◌, inl, inr, refl, ◌∙◌, ap, ◌==◌, Bool-cases, Bytes,
  Option, none, some, ltb, if◌then◌else◌, arith,
}
use url_shortener.Errors.{Result, ok, err}
use url_shortener.World.{Action}
use url_shortener.World.Platform.{Platform}
use url_shortener.World.Redis.{Reply, reply, nil, fail}
use url_shortener.RateLimit.{
  Counts, Limiter, retry_after, window_key, start_window, verdict, counted, allow, refused, passed,
  middleware,
}

-- Retry-After is at least 1 and at most 60 seconds, and leads exactly to the next window.
pub retry_after-next :
    (now : ℕ)
    → (1 ≤ retry_after now) × (retry_after now ≤ 60) × ((now + retry_after now) / 60 ≡ now / 60 + 1)
unfolding retry_after
retry_after-next now = (ground arith, ground arith, ground arith)

-- What the limiter relies on while the window `m` lasts: Redis answers and counts, and neither the
-- clock nor EXPIRE changes a counter. `hits` is the counter of a key.
pub record WindowLaws {W : Type 0} (rdb : Counts W) (hits : W → Bytes → ℕ) (m : ℕ) : Type 0 where
  pub in_window : (w : W) → (rdb.unix_now w).0 / 60 ≡ m
  pub clock_hits : (w : W) (k : Bytes) → hits (rdb.unix_now w).1 k ≡ hits w k
  pub incr_reply : (k : Bytes) (w : W) → (rdb.incr k w).0 ≡ reply (suc (hits w k))
  pub incr_hits : (k : Bytes) (w : W) → hits (rdb.incr k w).1 k ≡ suc (hits w k)
  pub expire_hits : (k : Bytes) (d : ℕ) (w : W) (j : Bytes) → hits (rdb.expire k d w).1 j ≡ hits w j

-- A verdict's request and those behind it, of which `rest` are admitted.
abbrev one_more : Result (Option ℕ) → ℕ → ℕ
one_more (ok none) rest = suc rest
one_more (ok (some seconds)) rest = rest
one_more (err e) rest = rest

-- How many of `n` requests in a row from one client are admitted.
unfoldable pub admitted : {W : Type 0} → Limiter W → Bytes → ℕ → W → ℕ
admitted rl remote zero w = 0
admitted rl remote (suc n) w =
    let rest = admitted rl remote n (allow rl remote w).1 in one_more (allow rl remote w).0 rest

module _ {W : Type 0} (rl : Limiter W) (hits : W → Bytes → ℕ) (m : ℕ)
    (laws : WindowLaws rl.rdb hits m) (remote : Bytes) where
  start_window-hits :
      (k : Bytes) (n : ℕ) (w : W) (j : Bytes) → hits (start_window rl k n w).1 j ≡ hits w j
  unfolding start_window
  start_window-hits k n w j = elim (Bool-cases (n == 1)) [
    | inl y ↦ rw y (laws.expire_hits k 61 w j)
    | inr y ↦ rw y refl
  ]

  -- The verdict on the request number `n` of a window.
  abbrev IsVerdict : ℕ → Result (Option ℕ) → Type 0
  IsVerdict n r =
      ((r ≡ ok none) × (n ≤ rl.per_minute))
      ⊎ ((seconds : ℕ) × (r ≡ ok (some seconds)) × (suc rl.per_minute ≤ n))

  verdict_lem :
      (n : ℕ) (w : W)
      → IsVerdict n (verdict rl n w).0 × ((j : Bytes) → hits (verdict rl n w).1 j ≡ hits w j)
  unfolding verdict
  verdict_lem n w = elim (Bool-cases (ltb rl.per_minute n)) [
    | inl y ↦ rw y (inr (_, refl, ground arith), λ j. laws.clock_hits w j)
    | inr y ↦ rw y (inl (refl, ground arith), λ j. refl)
  ]

  allow_lem :
      (w : W)
      → IsVerdict (suc (hits w (window_key rl remote m))) (allow rl remote w).0
        × (hits (allow rl remote w).1 (window_key rl remote m)
            ≡ suc (hits w (window_key rl remote m)))
  unfolding allow counted
  allow_lem w =
      let k = window_key rl remote m in
      let w1 = (rl.rdb.unix_now w).1 in
      let w2 = (rl.rdb.incr k w1).1 in
      let n = suc (hits w1 k) in
      let w3 = (start_window rl k n w2).1 in
      let (v, same) = verdict_lem n w3 in
      let clock : n ≡ suc (hits w k) = ap suc (laws.clock_hits w k) in
      rw (laws.in_window w, laws.incr_reply k w1, counted, laws.in_window w)
        (
          subst (λ c. IsVerdict c (verdict rl n w3).0) clock v,
          same k ∙ start_window-hits k n w2 k ∙ laws.incr_hits k w1 ∙ clock,
        )

  -- While Redis answers and the window lasts, of `n` requests in a row from one address exactly as
  -- many are admitted as the limit leaves over: all of them, or what is left of the limit.
  pub admitted_exact :
      (n : ℕ) (w : W)
      → admitted rl remote n w ≡ (
          if ltb (rl.per_minute - hits w (window_key rl remote m)) n
          then rl.per_minute - hits w (window_key rl remote m)
          else n)
  unfolding admitted
  admitted_exact zero w = ground arith
  admitted_exact (suc n) w =
      let (v, grown) = allow_lem w in
      let rest = admitted_exact n (allow rl remote w).1 in
      elim v [
        | inl (e, le) ↦ rw (e, rest, grown) (ground arith)
        | inr (seconds, e, le) ↦ rw (e, rest, grown) (ground arith)
      ]

-- A count that Redis replied and that exceeds the limit.
abbrev IsOver : ℕ → Reply ℕ → Type 0
IsOver limit r = (count : ℕ) × (r ≡ reply count) × (suc limit ≤ count)

module _ {W A : Type 0} (p : Platform W) (rl : Limiter W) (next : Action W A) (remote : Bytes) where
  verdict_inv :
      (n : ℕ) (w : W) {seconds : ℕ}
      → (verdict rl n w).0 ≡ ok (some seconds)
      → (suc rl.per_minute ≤ n) × (1 ≤ seconds) × (seconds ≤ 60)
  unfolding verdict
  verdict_inv n w {seconds} h = elim (Bool-cases (ltb rl.per_minute n)) [
    | inl y ↦
        let same : retry_after (rl.rdb.unix_now w).0 ≡ seconds =
          (let z = (rw y at h) in ground arith) in
        let (low, high, _) = retry_after-next (rl.rdb.unix_now w).0 in
        (ground arith, omega arith, omega arith)
    | inr y ↦ absurd (let z = (rw y at h) in ground arith)
  ]

  counted_inv :
      (key : Bytes) (r : Reply ℕ) (w : W) {seconds : ℕ}
      → (counted rl key r w).0 ≡ ok (some seconds)
      → IsOver rl.per_minute r × (1 ≤ seconds) × (seconds ≤ 60)
  unfolding counted
  counted_inv key nil w h = absurd (ground arith)
  counted_inv key fail w h = absurd (ground arith)
  counted_inv key (reply n) w h =
      let (over, low, high) = verdict_inv n _ h in ((n, refl, over), low, high)

  passed_inv :
      (r : Result (Option ℕ)) (w : W) {status seconds : ℕ}
      → (passed p rl next r w).0 ≡ refused status seconds
      → (status ≡ 429) × (r ≡ ok (some seconds))
  unfolding passed
  passed_inv (err e) w h = absurd (ground arith)
  passed_inv (ok none) w h = absurd (ground arith)
  passed_inv (ok (some n)) w h = (ground arith, ground arith)

  -- A request is refused only with 429 and a Retry-After of 1 to 60 seconds, and only if Redis
  -- counted more requests from its address in this minute than the limit; when Redis fails, it is
  -- served.
  pub middleware_refused :
      (w : W) (status seconds : ℕ)
      → (middleware p rl next remote w).0 ≡ refused status seconds
      → (status ≡ 429)
        × (1 ≤ seconds)
        × (seconds ≤ 60)
        × IsOver rl.per_minute
            (rl.rdb.incr
              (window_key rl remote ((rl.rdb.unix_now w).0 / 60))
              (rl.rdb.unix_now w).1).0
  unfolding middleware allow
  middleware_refused w status seconds h =
      let (st, verdict) = passed_inv _ _ h in
      let (over, low, high) = counted_inv _ _ _ verdict in (st, low, high, over)
