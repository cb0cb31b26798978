-- ===== src/Service/Base62/Digits.antt =====
-- The alphabet of base62.go, digit by digit, and the number that a text of digits spells.
use url_shortener.Common.{
  ℕ, ◌+◌, ◌-◌, ◌*◌, ◌<◌, ◌≤◌, ◌≡◌, refl, Bool, true, ◌&&◌, ◌||◌, [], ◌∷◌, arith, Bytes, leb, ◌==◌,
  if◌then◌else◌, all_below, all_below_sound,
}
use url_shortener.Service.Base62.{digit}

-- The test of base62_test.go: `0-9`, `A-Z` or `a-z`.
abbrev pub is_base62_char : ℕ → Bool
is_base62_char c =
    (leb b'0' c && leb c b'9') || (leb b'A' c && leb c b'Z') || (leb b'a' c && leb c b'z')

pub is_base62_char_bounds : (c : ℕ) → is_base62_char c ≡ true → (b'0' ≤ c) × (c ≤ b'z')
is_base62_char_bounds c h = ground arith

-- The value of a base62 character.
unfoldable pub digit_value : ℕ → ℕ
digit_value c = if leb c b'9' then c - 48 else if leb c b'Z' then c - 55 else c - 61

-- The number that `s` spells behind the digits of `n`.
abbrev pub value : ℕ → Bytes → ℕ
value n [] = n
value n (c ∷ s) = value (n * 62 + digit_value c) s

digit_table : all_below 62 (λ d. (digit_value (digit d) == d) && is_base62_char (digit d)) ≡ true
unfolding all_below digit digit_value
digit_table = refl

pub digit_value-digit : (d : ℕ) → d < 62 → digit_value (digit d) ≡ d
digit_value-digit d h = ground (
  arith,
  all_below_sound 62 (λ (d : ℕ). (digit_value (digit d) == d) && is_base62_char (digit d)) d
      digit_table h,
)

pub is_base62_char-digit : (d : ℕ) → d < 62 → is_base62_char (digit d) ≡ true
is_base62_char-digit d h = ground (
  arith,
  all_below_sound 62 (λ (d : ℕ). (digit_value (digit d) == d) && is_base62_char (digit d)) d
      digit_table h,
)

pub digit_value-lt : (c : ℕ) → is_base62_char c ≡ true → digit_value c < 62
unfolding digit_value
digit_value-lt c h = ground arith
