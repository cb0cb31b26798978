-- ===== src/Tests/Codes.antt =====
-- The theorems on codes, expiries and keys at concrete texts.
use url_shortener.Common.{
  ◌*◌, ◌%◌, ◌≤◌, ◌≡◌, ◌↔◌, refl, Bytes, codes, [], ◌∷◌, ◌++◌, to_lower, some, length, arith,
}
use url_shortener.Common.Int64.{modulus}
use url_shortener.Errors.{ok}
use url_shortener.Cache.{UrlCache}
use url_shortener.Idempotency.{IdemStore}
use url_shortener.Service.CustomCode.{validate_custom_code}
use url_shortener.Service.CustomCode.Laws.{validate_custom_code_iff, IsValidCode, IsFree}
use url_shortener.Service.Expiry.{expiry_duration, expiry_re, atoi, duration, decimal, hour}
use url_shortener.Service.Expiry.Laws.{in_range, nanos, expiry_duration_exact}
use url_shortener.Tests.Sandbox.{Sand, redis}
use url_shortener.Service.Base62.{encode_base62}
use url_shortener.Service.Base62.Digits.{value}
use url_shortener.Service.Base62.RoundTrip.{encode_base62_total, value-encode_base62}

-- 3844 = 62 * 62
encoded : encode_base62 3844 ≡ some (codes "100")
unfolding encode_base62
encoded = refl

encode_base62_total_example :
    (s : Bytes) × (encode_base62 3844 ≡ some s) × (1 ≤ length s) × (length s ≤ 11)
encode_base62_total_example = encode_base62_total 3844 (omega arith)

value-encode_base62_example : value 0 (codes "100") ≡ 3844
value-encode_base62_example = value-encode_base62 3844 encoded

encoded-IsFree : IsFree (codes "100")
unfolding to_lower
encoded-IsFree = record {
  not_api = λ h. ground arith;
  not_health = λ h. ground arith;
  not_ready = λ h. ground arith;
  not_metrics = λ h. ground arith;
}

validate_custom_code_iff_example :
    (validate_custom_code (codes "My-Link") ≡ ok tt) ↔ IsValidCode (codes "My-Link")
validate_custom_code_iff_example = validate_custom_code_iff (codes "My-Link")

-- 307_445_735 minutes are more than 2 ^ 64 nanoseconds: some 26 seconds are left.
expiry_duration_exact_example :
    expiry_duration (codes "307445735" ++ b'm' ∷ [])
    ≡ in_range (decimal 0 (codes "307445735") * nanos b'm' % modulus)
expiry_duration_exact_example =
    expiry_duration_exact (codes "307445735") b'm' (λ h. ground arith)
      (refl, (refl, (refl, (refl, (refl, (refl, (refl, (refl, (refl, tt))))))))) refl (omega arith)

two_hours : expiry_duration (codes "2h") ≡ ok (2 * hour)
unfolding expiry_duration expiry_re atoi duration
two_hours = refl

abbrev url_cache : UrlCache Sand
url_cache = record { rdb = redis; key_base = codes "us:" }

abbrev idem_store : IdemStore Sand
idem_store = record { rdb = redis; key_base = codes "us:"; resp_ttl = 86_400; lock_ttl = 10 }
