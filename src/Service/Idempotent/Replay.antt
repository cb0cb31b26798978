-- ===== src/Service/Idempotent/Replay.antt =====
-- What createIdempotent does for a key that is known, that another request owns, or that Redis does
-- not tell about.
use mathlib.Core.Path.{subst}
use url_shortener.Common.{
  ℕ, zero, suc, ◌≤◌, ◌≡◌, ◌⊎◌, inl, inr, le→not_ltb, refl, ◌∙◌, Bytes, true, false, Bool-cases,
  Option, none, some, length,
}
use url_shortener.Errors.{Error, sentinel, Result, ok, err, is, not_found, repository_not_found}
use url_shortener.Model.{Url}
use url_shortener.World.{Action, View, Quiet, Quiet-trans}
use url_shortener.World.Platform.{Platform, idempotency_skipped, idempotency_replays}
use url_shortener.Idempotency
use url_shortener.Idempotency.{IdemStore}
use url_shortener.Service.LongUrl.{UrlLib}
use url_shortener.Service.UrlService.{UrlService, short_url_for}
use url_shortener.Service.Resolve.{not_found_or}
use url_shortener.Service.Resolve.Outcome.{IsAnswering}
use url_shortener.Service.Create.{CreateResult, create_one, replayed, replay}
use url_shortener.Service.Idempotent.{
  max_idem_key_length, idem_wait_polls, replay_counted, polled, wait, create_skipped, claimed,
  looked_up, guarded, create_idempotent,
}
use url_shortener.Service.Idempotent.Safe.{
  CreateLaws, get-Quiet, replay_counted-Quiet, wait-Quiet, claim_coded,
}

module _ {W P : Type 0} (lib : UrlLib P) (s : UrlService W P) where
  -- The answer for a recorded code whose row is `o`.
  abbrev pub IsReplay : Option Url → Result CreateResult → Type 0
  IsReplay none r = r ≡ err (sentinel not_found)
  IsReplay (some u) r =
      r ≡ ok (record { url = u; short_url = short_url_for lib s u.code; replayed = true })

-- A result is marked as a replay.
abbrev pub IsReplayed : Result CreateResult → Type 0
IsReplayed (ok res) = res.replayed ≡ true
IsReplayed (err e) = Unit {0}

module _ {W P : Type 0} (v : View W) (lib : UrlLib P) (p : Platform W) (s : UrlService W P)
    (laws : CreateLaws v p s) where
  replayed_due :
      (code : Bytes) (r : Result Url) (w : W)
      → ((u : Url) → r ≡ ok u → v.coded w code ≡ some u)
      → ((e : Error) → r ≡ err e → (is e repository_not_found ≡ true) × (v.coded w code ≡ none))
      → IsReplay lib s (v.coded w code) (replayed lib s r)
  unfolding replayed not_found_or
  replayed_due code (ok u) w good bad = rw (good u refl) refl
  replayed_due code (err e) w good bad = let (h, gone) = bad e refl in rw (gone, h) refl

  replay_due :
      (code : Bytes) (w : W)
      → IsAnswering s.store
      → IsReplay lib s (v.coded w code) (replay lib s code w).0
  unfolding replay
  replay_due code w answers = replayed_due code _ w (laws.service.store.get_ok code w) (λ e h.
      (answers code w e h, laws.service.store.get_not_found code w e h (answers code w e h)))

  replay_counted_due :
      (code : Bytes) (w : W)
      → IsAnswering s.store
      → IsReplay lib s (v.coded w code) (replay_counted lib p s code w).0
  unfolding replay_counted
  replay_counted_due code w answers =
      subst (λ o. IsReplay lib s o (replay lib s code (p.inc idempotency_replays w).1).0)
        ((laws.service.platform.inc_quiet idempotency_replays w).same_coded code)
        (replay_due code _ answers)

  replayed_is : (r : Result Url) → IsReplayed (replayed lib s r)
  unfolding replayed
  replayed_is (ok u) = refl
  replayed_is (err e) = tt

  counted : (code : Bytes) (w : W) → IsReplayed (replay_counted lib p s code w).0
  unfolding replay_counted replay
  counted code w = replayed_is _

  module _ (i : IdemStore W) (custom_code long_url : Bytes) (x : Option ℕ) (key : Bytes) where
    enters :
        (w : W)
        → length key ≤ max_idem_key_length
        → s.idem ≡ some i
        → create_idempotent lib p s custom_code long_url x key w
          ≡ looked_up lib p s custom_code long_url x key i
              (Idempotency.get i key w).0
              (Idempotency.get i key w).1
    unfolding create_idempotent guarded
    enters w short e =
        rw (le→not_ltb (length key) max_idem_key_length short, e, create_idempotent) refl

    -- A key whose response is recorded: the row of the recorded code is returned, marked as a replay,
    -- or ErrNotFound if it is gone; nothing is written.
    pub create_idempotent_recorded :
        (w : W) (code : Bytes)
        → length key ≤ max_idem_key_length
        → s.idem ≡ some i
        → IsAnswering s.store
        → (Idempotency.get i key w).0 ≡ ok (some code)
        → IsReplay lib s (v.coded w code) (create_idempotent lib p s custom_code long_url x key w).0
          × Quiet v w (create_idempotent lib p s custom_code long_url x key w).1
    unfolding looked_up replay_counted
    create_idempotent_recorded w code short e answers known =
        rw (enters w short e, known, looked_up)
          (
            subst
                (λ o. IsReplay lib s o (replay_counted lib p s code (Idempotency.get i key w).1).0)
                ((get-Quiet v lib p s laws i e key w).same_coded code)
                (replay_counted_due code _ answers),
            Quiet-trans (get-Quiet v lib p s laws i e key w)
                (replay_counted-Quiet v lib p s laws code _),
          )

    polled_replayed :
        (rest : Action W (Result CreateResult)) (r : Result (Option Bytes)) (w : W)
        → ((w' : W) → IsReplayed (rest w').0)
        → IsReplayed (polled lib p s rest r w).0
    unfolding polled
    polled_replayed rest (ok none) w h = h w
    polled_replayed rest (err _) w h = h w
    polled_replayed rest (ok (some code)) w h = counted code w

    wait_replayed : (n : ℕ) (w : W) → IsReplayed (wait lib p s i key n w).0
    unfolding wait
    wait_replayed zero w = tt
    wait_replayed (suc n) w = elim (Bool-cases (p.context_done w).0) [
      | inl y ↦ rw (y, wait) tt
      | inr y ↦ rw (y, wait) (polled_replayed _ _ _ (wait_replayed n))
    ]

    -- A key that another request has claimed: no row is added, removed or changed, and what is
    -- returned, if it is no error, is a replay.
    pub create_idempotent_claimed :
        (w : W)
        → length key ≤ max_idem_key_length
        → s.idem ≡ some i
        → (Idempotency.get i key w).0 ≡ ok none
        → (Idempotency.claim i key (Idempotency.get i key w).1).0 ≡ ok false
        → IsReplayed (create_idempotent lib p s custom_code long_url x key w).0
          × ((c : Bytes)
              → v.coded (create_idempotent lib p s custom_code long_url x key w).1 c ≡ v.coded w c)
    unfolding looked_up
    create_idempotent_claimed w short e unknown owned =
        rw (enters w short e, unknown, looked_up, owned, claimed)
          (
            wait_replayed idem_wait_polls _,
            λ c.
                (wait-Quiet v lib p s laws i e key idem_wait_polls _).same_coded c
                ∙ claim_coded v lib p s laws i e key _ c
                ∙ (get-Quiet v lib p s laws i e key w).same_coded c,
          )

    -- Redis fails at the look-up, or at the claim of a key that it did not know.
    abbrev pub IsUnavailable : W → Type 0
    IsUnavailable w =
        ((fault : Error) × ((Idempotency.get i key w).0 ≡ err fault))
        ⊎ ((fault : Error) × ((Idempotency.get i key w).0 ≡ ok none)
            × ((Idempotency.claim i key (Idempotency.get i key w).1).0 ≡ err fault))

    -- When Redis fails at the look-up, or at the claim of a key that it did not know, the link is
    -- created as if the request had no key: createOne runs, from a world with the same rows.
    pub create_idempotent_fail_open :
        (w : W)
        → length key ≤ max_idem_key_length
        → s.idem ≡ some i
        → IsUnavailable w
        → (w' : W) × ((c : Bytes) → v.coded w' c ≡ v.coded w c)
          × (create_idempotent lib p s custom_code long_url x key w
              ≡ create_one lib s custom_code long_url x w')
    unfolding create_skipped looked_up create_one
    create_idempotent_fail_open w short e (inl (fault, h)) = (
      (p.inc idempotency_skipped (Idempotency.get i key w).1).1,
      λ c.
          (laws.service.platform.inc_quiet idempotency_skipped _).same_coded c
          ∙ (get-Quiet v lib p s laws i e key w).same_coded c,
      rw (enters w short e, h, looked_up) refl,
    )
    create_idempotent_fail_open w short e (inr (fault, h, k)) = (
      (p.inc idempotency_skipped (Idempotency.claim i key (Idempotency.get i key w).1).1).1,
      λ c.
          (laws.service.platform.inc_quiet idempotency_skipped _).same_coded c
          ∙ claim_coded v lib p s laws i e key _ c
          ∙ (get-Quiet v lib p s laws i e key w).same_coded c,
      rw (enters w short e, h, looked_up, k, claimed) refl,
    )
