-- ===== src/Service/CustomCode/Laws.antt =====
-- What validateCustomCode accepts, and how the generated codes of base62.go meet it.
use url_shortener.Common.{
  ℕ, ◌*◌, ◌^◌, ◌≤◌, ◌<◌, ◌≡◌, ◌≢◌, ◌↔◌, refl, true, false, some, [], ◌∷◌, arith, Bytes, codes,
  length, All, text_eq_iff, to_lower,
}
use url_shortener.Errors.{ok}
use url_shortener.Service.Base62.{encode_base62}
use url_shortener.Service.Base62.RoundTrip.{IsBase62, encode_base62-IsBase62, encode_base62-length}
use url_shortener.Service.CustomCode.{
  is_code_char, all_code_chars, is_member, reserved_codes, validate_custom_code,
}

-- A letter, a digit, `_` or `-`.
abbrev pub IsCodeChar : ℕ → Type 0
IsCodeChar c = is_code_char c ≡ true

code_chars_sound : (s : Bytes) → all_code_chars s ≡ true → All IsCodeChar s
unfolding all_code_chars
code_chars_sound [] h = tt
code_chars_sound (c ∷ s) h = (ground arith, code_chars_sound s (ground arith))

All→all_code_chars : (s : Bytes) → All IsCodeChar s → all_code_chars s ≡ true
unfolding all_code_chars
All→all_code_chars [] h = refl
All→all_code_chars (c ∷ s) h = rw (h.0, All→all_code_chars s h.1)

-- The code is none of the reserved names, in any case.
pub record IsFree (s : Bytes) : Type 0 where
  pub not_api : to_lower s ≢ codes "api"
  pub not_health : to_lower s ≢ codes "health"
  pub not_ready : to_lower s ≢ codes "ready"
  pub not_metrics : to_lower s ≢ codes "metrics"

pub record IsValidCode (s : Bytes) : Type 0 where
  pub at_least_three : 3 ≤ length s
  pub at_most_32 : length s ≤ 32
  pub chars : All IsCodeChar s
  pub free : IsFree s

not_member : (s : Bytes) → is_member (to_lower s) reserved_codes ≡ false → IsFree s
unfolding is_member
not_member s h = record {
  not_api = ground (arith, text_eq_iff (to_lower s) (codes "api"));
  not_health = ground (arith, text_eq_iff (to_lower s) (codes "health"));
  not_ready = ground (arith, text_eq_iff (to_lower s) (codes "ready"));
  not_metrics = ground (arith, text_eq_iff (to_lower s) (codes "metrics"));
}

free_not_member : (s : Bytes) → IsFree s → is_member (to_lower s) reserved_codes ≡ false
unfolding is_member
free_not_member s h = ground (
  arith,
  text_eq_iff (to_lower s) (codes "api"),
  text_eq_iff (to_lower s) (codes "health"),
  text_eq_iff (to_lower s) (codes "ready"),
  text_eq_iff (to_lower s) (codes "metrics"),
)

validate_inv :
    (s : Bytes)
    → validate_custom_code s ≡ ok tt
    → (3 ≤ length s)
      × (length s ≤ 32)
      × (all_code_chars s ≡ true)
      × (is_member (to_lower s) reserved_codes ≡ false)
unfolding validate_custom_code
validate_inv s h = ground arith

validate_intro :
    (s : Bytes)
    → 3 ≤ length s
    → length s ≤ 32
    → all_code_chars s ≡ true
    → is_member (to_lower s) reserved_codes ≡ false
    → validate_custom_code s ≡ ok tt
unfolding validate_custom_code
validate_intro s a b c d = ground arith

-- A custom code is accepted exactly if it has 3 to 32 bytes, all of them letters, digits, `_` or
-- `-`, and is none of the reserved names in any case.
pub validate_custom_code_iff : (s : Bytes) → (validate_custom_code s ≡ ok tt) ↔ IsValidCode s
validate_custom_code_iff s = (
  λ h.
      let (a, b, c, d) = validate_inv s h in
      record {
        at_least_three = a;
        at_most_32 = b;
        chars = code_chars_sound s c;
        free = not_member s d;
      },
  λ v.
      validate_intro s v.at_least_three v.at_most_32 (All→all_code_chars s v.chars)
        (free_not_member s v.free),
)

IsBase62→All : (s : Bytes) → IsBase62 s → All IsCodeChar s
IsBase62→All [] h = tt
IsBase62→All (c ∷ s) h = (ground (arith, h.0), IsBase62→All s h.1)

-- Every generated code of at least three bytes that is not reserved is also a valid custom code:
-- the two kinds of code share one name space.
pub generated_is_valid :
    (n : ℕ) {s : Bytes}
    → 62 * 62 ≤ n
    → n < 2 ^ 64
    → encode_base62 n ≡ some s
    → IsFree s
    → validate_custom_code s ≡ ok tt
generated_is_valid n {s} big fits e free =
    let (upper, lower) = encode_base62-length n fits e in
    (validate_custom_code_iff s).1 (record {
      at_least_three = lower big;
      at_most_32 = omega arith;
      chars = IsBase62→All s (encode_base62-IsBase62 n e);
      free = free;
    })
