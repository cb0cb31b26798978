-- ===== src/Service/Base62/RoundTrip.antt =====
-- What EncodeBase62 of base62.go returns: it never panics, and its codes can be read back.
use url_shortener.Common.{
  ℕ, zero, suc, ◌+◌, ◌*◌, ◌/◌, ◌%◌, ◌^◌, ◌≤◌, ◌<◌, ◌≡◌, ◌⊎◌, ◌∙◌, ap, sym, refl, some, true, [],
  ◌∷◌, arith, Bytes, codes, length, All, Bool-cases, inl, inr, ◌==◌,
}
use mathlib.Core.Path.{subst}
use native.Mathlib.Nat.{pow-suc}
use url_shortener.Service.Base62.{digit, fill, encode_base62}
use url_shortener.Service.Base62.Digits.{
  is_base62_char, digit_value, value, digit_value-digit, digit_value-lt, is_base62_char-digit,
}

abbrev pub IsBase62 : Bytes → Type 0
IsBase62 = All (λ c. is_base62_char c ≡ true)

-- One round: the loop ends exactly at 0.
fill_inv :
    (i n : ℕ) (out : Bytes) {s : Bytes}
    → fill (suc i) n out ≡ some s
    → ((n ≡ 0) × (out ≡ s)) ⊎ ((0 < n) × (fill i (n / 62) (digit (n % 62) ∷ out) ≡ some s))
unfolding fill
fill_inv i n out h = ground arith

value-fill : (i n : ℕ) (out : Bytes) {s : Bytes} → fill i n out ≡ some s → value 0 s ≡ value n out
value-fill zero n out h = unfold fill in ground arith
value-fill (suc i) n out h = elim (fill_inv i n out h) [
  | inl (z, e) ↦ cc
  | inr (_, e) ↦
      value-fill i (n / 62) (digit (n % 62) ∷ out) e
      ∙ ap (λ k. value k out) (omega (arith, digit_value-digit (n % 62)))
]

IsBase62-fill :
    (i n : ℕ) (out : Bytes) {s : Bytes} → IsBase62 out → fill i n out ≡ some s → IsBase62 s
IsBase62-fill zero n out hout h = unfold fill in ground arith
IsBase62-fill (suc i) n out hout h = elim (fill_inv i n out h) [
  | inl (z, e) ↦ subst IsBase62 e hout
  | inr (_, e) ↦
      IsBase62-fill i (n / 62) (digit (n % 62) ∷ out)
        (is_base62_char-digit (n % 62) (omega arith), hout) e
]

div_lt_pow : (i n : ℕ) → n < 62 ^ suc i → n / 62 < 62 ^ i
div_lt_pow i n h = let p = pow-suc 62 i in omega arith

fill_total :
    (i n : ℕ) (out : Bytes)
    → n < 62 ^ i
    → (s : Bytes) × (fill i n out ≡ some s) × (length s ≤ length out + i) × (length out ≤ length s)
unfolding fill
fill_total zero n out h = (out, ground arith, omega arith, omega arith)
fill_total (suc i) n out h = elim (Bool-cases (n == 0)) [
  | inl z ↦ (out, rw z, omega arith, omega arith)
  | inr nz ↦
      let (s, e, upper, lower) = fill_total i (n / 62) (digit (n % 62) ∷ out) (div_lt_pow i n h) in
      (s, rw nz e, omega arith, omega arith)
]

shift_bound : (v n d p q : ℕ) → q ≡ p * 62 → v < (n * 62 + d + 1) * p → d < 62 → v < (n + 1) * q
shift_bound v n d p q e h k = rw e (grind arith)

-- A text of `k` digits spells a number below 62 ^ k.
value-lt : (s : Bytes) (n : ℕ) → IsBase62 s → value n s < (n + 1) * 62 ^ length s
value-lt [] n h = omega arith
value-lt (c ∷ s) n h =
    shift_bound (value n (c ∷ s)) n (digit_value c) (62 ^ length s) (62 ^ suc (length s))
      (pow-suc 62 (length s)) (value-lt s (n * 62 + digit_value c) h.1) (digit_value-lt c h.0)

-- For every uint64 the buffer is large enough, so EncodeBase62 returns a code, and the code has
-- between 1 and 11 bytes.
pub encode_base62_total :
    (n : ℕ)
    → n < 2 ^ 64
    → (s : Bytes) × (encode_base62 n ≡ some s) × (1 ≤ length s) × (length s ≤ 11)
encode_base62_total n h = elim (Bool-cases (n == 0)) [
  | inl z ↦ (codes "0", unfold encode_base62 in rw z, omega arith, omega arith)
  | inr nz ↦
      let (s, e, upper, lower) = fill_total 10 (n / 62) (digit (n % 62) ∷ []) (omega arith) in
      (s, unfold encode_base62 in rw nz e, omega arith, omega arith)
]

encode_base62_inv :
    (n : ℕ) {s : Bytes}
    → encode_base62 n ≡ some s
    → ((n ≡ 0) × (codes "0" ≡ s)) ⊎ ((0 < n) × (fill 11 n [] ≡ some s))
unfolding encode_base62
encode_base62_inv n h = ground arith

-- A code holds letters and digits only.
pub encode_base62-IsBase62 : (n : ℕ) {s : Bytes} → encode_base62 n ≡ some s → IsBase62 s
encode_base62-IsBase62 n h = elim (encode_base62_inv n h) [
  | inl (_, e) ↦ subst IsBase62 e (refl, tt)
  | inr (_, e) ↦ IsBase62-fill 11 n [] tt e
]

-- Reading a code back as a base-62 number gives the number that was encoded.
pub value-encode_base62 : (n : ℕ) {s : Bytes} → encode_base62 n ≡ some s → value 0 s ≡ n
value-encode_base62 n h = elim (encode_base62_inv n h) [
  | inl (z, e) ↦ rw (← e) (unfold digit_value in omega arith)
  | inr (_, e) ↦ value-fill 11 n [] e
]

-- Two numbers never get the same code.
pub encode_base62_injective :
    (m n : ℕ) {s : Bytes} → encode_base62 m ≡ some s → encode_base62 n ≡ some s → m ≡ n
encode_base62_injective m n h k = sym (value-encode_base62 m h) ∙ value-encode_base62 n k

-- A code of `k` bytes encodes a number below 62 ^ k.
pub encode_base62-lt : (n : ℕ) {s : Bytes} → encode_base62 n ≡ some s → n < 62 ^ length s
encode_base62-lt n {s} h =
    omega (arith, value-encode_base62 n h, value-lt s 0 (encode_base62-IsBase62 n h))

-- The code of a uint64 has at most 11 bytes, and at least 3 from 62 * 62 on.
pub encode_base62-length :
    (n : ℕ) {s : Bytes}
    → n < 2 ^ 64
    → encode_base62 n ≡ some s
    → (length s ≤ 11) × (62 * 62 ≤ n → 3 ≤ length s)
encode_base62-length n {s} h e =
    let (t, e', lower, upper) = encode_base62_total n h in
    let same : length t ≡ length s = cc in
    (omega arith, λ big. three (length s) (encode_base62-lt n e) big)
  where
    three : (k : ℕ) → n < 62 ^ k → 62 * 62 ≤ n → 3 ≤ k
    three zero p q = absurd (omega arith)
    three (suc zero) p q = absurd (omega arith)
    three (suc (suc zero)) p q = absurd (omega arith)
    three (suc (suc (suc k))) p q = omega arith
