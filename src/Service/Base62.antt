-- ===== src/Service/Base62.antt =====
-- internal/service/base62.go
pub mod Digits
pub mod RoundTrip
use url_shortener.Common.{
  ℕ, zero, suc, ◌+◌, ◌*◌, ◌/◌, ◌%◌, ◌≡◌, refl, Option, none, some, [], ◌∷◌, Bytes, codes, ◌==◌,
  if◌then◌else◌,
}

abbrev pub base62_alphabet : Bytes
base62_alphabet = codes "0123456789ABCDEFGHIJKLMNOPQRSTUVWXYZabcdefghijklmnopqrstuvwxyz"

-- `s[i]`; the program indexes only with `n % 62`.
abbrev pub index : Bytes → ℕ → ℕ
index [] i = 0
index (c ∷ s) zero = c
index (c ∷ s) (suc i) = index s i

-- `base62Alphabet[d]`
unfoldable pub digit : ℕ → ℕ
digit d = index base62_alphabet d

-- The loop: `i` bytes of `buf` are still free, `out` is `buf[i:]`. Writing with `i = 0` would be
-- `buf[-1]`, a run-time panic (`none`).
unfoldable pub fill : ℕ → ℕ → Bytes → Option Bytes
fill zero n out = if n == 0 then some out else none
fill (suc i) n out =
    let rest = fill i (n / 62) (digit (n % 62) ∷ out) in if n == 0 then some out else rest

unfoldable pub encode_base62 : ℕ → Option Bytes
unfolding fill digit
encode_base62 n = if n == 0 then some (codes "0") else fill 11 n []

encode_sixty_two : encode_base62 (62 * 62 + 3) ≡ some (codes "103")
unfolding encode_base62
encode_sixty_two = refl
