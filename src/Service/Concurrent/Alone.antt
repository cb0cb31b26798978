-- ===== src/Service/Concurrent/Alone.antt =====
-- A request that runs alone does what createIdempotent does.
use url_shortener.Common.{
  ℕ, zero, suc, ◌+◌, ◌≤◌, ◌≡◌, refl, sym, ap, ◌∙◌, inl, inr, Bool, true, false, Bool-cases, Bytes,
  Option, none, some, length, arith, le→not_ltb,
}
use url_shortener.Errors.{Result, ok, err}
use url_shortener.World.{Action}
use url_shortener.World.Platform.{Platform}
use url_shortener.Idempotency
use url_shortener.Idempotency.{IdemStore}
use url_shortener.Service.LongUrl.{UrlLib}
use url_shortener.Service.UrlService.{UrlService}
use url_shortener.Service.Create.{CreateResult}
use url_shortener.Service.Idempotent.{
  max_idem_key_length, replay_counted, polled, wait, create_skipped, record_result, create_claimed,
  claimed, looked_up, guarded, create_idempotent,
}
use url_shortener.Service.Concurrent.{
  Request, Pc, asking, creating, skipping, polling, replaying, finished, asked, answered, created,
  looked, next, drive,
}

-- A result with the world behind it, as a request that is finished.
abbrev pub as_finished : {W : Type 0} → Result CreateResult × W → Pc × W
as_finished r = (finished r.0, r.1)

module _ {W P : Type 0} (lib : UrlLib P) (p : Platform W) (s : UrlService W P) (i : IdemStore W)
    (key : Bytes) (q : Request) where
  stays :
      (n : ℕ) (r : Result CreateResult) (w : W)
      → drive lib p s i key q n (finished r) w ≡ (finished r, w)
  unfolding drive next
  stays zero r w = refl
  stays (suc n) r w = stays n r w

  drive-replaying :
      (n : ℕ) (code : Bytes) (w : W)
      → drive lib p s i key q (suc n) (replaying code) w
        ≡ as_finished (replay_counted lib p s code w)
  unfolding drive next
  drive-replaying n code w = stays n _ _

  drive-skipping :
      (n : ℕ) (w : W)
      → drive lib p s i key q (suc n) skipping w
        ≡ as_finished (create_skipped lib p s q.custom_code q.long_url q.expires_at key w)
  unfolding drive next create_skipped
  drive-skipping n w = stays n _ _

  drive-created :
      (n : ℕ) (r : Result CreateResult) (w : W)
      → drive lib p s i key q (suc (suc n)) (created r) w
        ≡ as_finished (record_result lib p s q.custom_code q.long_url q.expires_at key i r w)
  unfolding drive next created record_result
  drive-created n (err e) w = stays n _ _
  drive-created n (ok res) w = stays n _ _

  drive-creating :
      (n : ℕ) (w : W)
      → drive lib p s i key q (suc (suc (suc n))) creating w
        ≡ as_finished (create_claimed lib p s q.custom_code q.long_url q.expires_at key i w)
  unfolding drive next create_claimed
  drive-creating n w = drive-created n _ _

  -- Enough steps for `m` rounds of the loop, with `n` to spare.
  abbrev rounds : ℕ → ℕ → ℕ
  rounds zero n = suc n
  rounds (suc m) n = suc (rounds m n)

  drive-rounds-replaying :
      (m n : ℕ) (code : Bytes) (w : W)
      → drive lib p s i key q (rounds m n) (replaying code) w
        ≡ as_finished (replay_counted lib p s code w)
  drive-rounds-replaying zero n code w = drive-replaying n code w
  drive-rounds-replaying (suc m) n code w = drive-replaying (rounds m n) code w

  drive-looked :
      (m n : ℕ) (rest : Action W (Result CreateResult)) (r : Result (Option Bytes)) (w : W)
      → ((w' : W) → drive lib p s i key q (rounds m n) (polling m) w' ≡ as_finished (rest w'))
      → drive lib p s i key q (rounds m n) (looked m r) w ≡ as_finished (polled lib p s rest r w)
  unfolding looked polled
  drive-looked m n rest (err e) w h = h w
  drive-looked m n rest (ok none) w h = h w
  drive-looked m n rest (ok (some code)) w h = drive-rounds-replaying m n code w

  drive-polling :
      (m n : ℕ) (w : W)
      → drive lib p s i key q (rounds m n) (polling m) w ≡ as_finished (wait lib p s i key m w)
  unfolding drive next wait
  drive-polling zero n w = stays n _ _
  drive-polling (suc m) n w = elim (Bool-cases (p.context_done w).0) [
    | inl y ↦ rw y (stays (rounds m n) _ _)
    | inr y ↦ rw y (drive-looked m n _ _ _ (drive-polling m n))
  ]

  drive-answered :
      (n : ℕ) (r : Result Bool) (w : W)
      → drive lib p s i key q (rounds 5 n) (answered r) w
        ≡ as_finished (claimed lib p s q.custom_code q.long_url q.expires_at key i r w)
  unfolding answered claimed
  drive-answered n (err e) w = drive-skipping _ w
  drive-answered n (ok true) w = drive-creating _ w
  drive-answered n (ok false) w = drive-polling 5 n w

  drive-asked :
      (n : ℕ) (r : Result (Option Bytes)) (w : W)
      → drive lib p s i key q (suc (rounds 5 n)) (asked r) w
        ≡ as_finished (looked_up lib p s q.custom_code q.long_url q.expires_at key i r w)
  unfolding asked looked_up drive next
  drive-asked n (err e) w = drive-skipping (rounds 5 n) w
  drive-asked n (ok none) w = drive-answered n _ _
  drive-asked n (ok (some code)) w = drive-replaying (rounds 5 n) code w

  enters :
      (w : W)
      → length key ≤ max_idem_key_length
      → s.idem ≡ some i
      → create_idempotent lib p s q.custom_code q.long_url q.expires_at key w
        ≡ looked_up lib p s q.custom_code q.long_url q.expires_at key i
            (Idempotency.get i key w).0
            (Idempotency.get i key w).1
  unfolding create_idempotent guarded
  enters w short e =
      rw (le→not_ltb (length key) max_idem_key_length short, e, create_idempotent) refl

  drive-asking :
      (n : ℕ) (w : W)
      → drive lib p s i key q (suc (suc (rounds 5 n))) asking w
        ≡ as_finished (
            looked_up lib p s q.custom_code q.long_url q.expires_at key i
              (Idempotency.get i key w).0
              (Idempotency.get i key w).1)
  unfolding drive next
  drive-asking n w = drive-asked n (Idempotency.get i key w).0 (Idempotency.get i key w).1

  eight : (n : ℕ) → 8 + n ≡ suc (suc (rounds 5 n))
  eight n = omega arith

  -- With a store and a key of at most 256 bytes, 8 steps or more of a request that nothing interrupts
  -- end it, with the result and the world that createIdempotent gives.
  pub drive_alone :
      (n : ℕ) (w : W)
      → length key ≤ max_idem_key_length
      → s.idem ≡ some i
      → drive lib p s i key q (8 + n) asking w
        ≡ as_finished (create_idempotent lib p s q.custom_code q.long_url q.expires_at key w)
  drive_alone n w short e =
      ap (λ k. drive lib p s i key q k asking w) (eight n)
      ∙ drive-asking n w
      ∙ ap as_finished (sym (enters w short e))
