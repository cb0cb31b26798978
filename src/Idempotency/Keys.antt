-- ===== src/Idempotency/Keys.antt =====
-- The Redis keys of the cache and of the idempotency store, which share one prefix in cmd/server.
use mathlib.Core.List.{append_cancel_left}
use mathlib.Core.Bool.{false≢true}
use url_shortener.Common.{refl, true, false, has_prefix, ◌≡◌, ◌≢◌, sym, ap, ◌∙◌, ◌++◌, Bytes, codes}
use url_shortener.Cache.{UrlCache, url_key}
use url_shortener.Idempotency.{IdemStore, resp_key, lock_key}

-- Two idempotency keys never share a record, nor a lock.
pub resp_key_injective :
    {W : Type 0} (i : IdemStore W) (a b : Bytes) → resp_key i a ≡ resp_key i b → a ≡ b
unfolding resp_key
resp_key_injective i a b h =
    append_cancel_left (codes "idem:resp:") a b (append_cancel_left i.key_base _ _ h)

-- Texts that begin differently are different.
differ : (x y q : Bytes) → has_prefix x q ≡ true → has_prefix y q ≡ false → x ≢ y
differ x y q h k e = false≢true (sym k ∙ ap (λ t. has_prefix t q) (sym e) ∙ h)

-- With one prefix, a cache entry, a recorded response and a lock never share a Redis key, whatever
-- the code and the idempotency keys are.
pub keys_disjoint :
    {W : Type 0} (c : UrlCache W) (i : IdemStore W) (code a b : Bytes)
    → i.key_base ≡ c.key_base
    → (url_key c code ≢ resp_key i a)
      × (url_key c code ≢ lock_key i a)
      × (resp_key i a ≢ lock_key i b)
unfolding url_key resp_key lock_key has_prefix
keys_disjoint c i code a b same = (
  λ h.
      differ (codes "url:" ++ code) (codes "idem:resp:" ++ a) (codes "url:") refl refl
        (append_cancel_left c.key_base _ _ (h ∙ ap (λ k. k ++ (codes "idem:resp:" ++ a)) same)),
  λ h.
      differ (codes "url:" ++ code) (codes "idem:lock:" ++ a) (codes "url:") refl refl
        (append_cancel_left c.key_base _ _ (h ∙ ap (λ k. k ++ (codes "idem:lock:" ++ a)) same)),
  λ h.
      differ (codes "idem:resp:" ++ a) (codes "idem:lock:" ++ b) (codes "idem:resp:") refl refl
        (append_cancel_left i.key_base _ _ h),
)
