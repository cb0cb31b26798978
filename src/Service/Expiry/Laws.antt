-- ===== src/Service/Expiry/Laws.antt =====
-- What parseExpiry accepts, and the duration that it computes.
use url_shortener.Common.{
  ℕ, ◌*◌, ◌%◌, ◌<◌, ◌≤◌, ◌≡◌, ◌≢◌, ◌∙◌, Option-cases, inl, inr, ap, refl, true, not, ◌&&◌, ◌||◌,
  Option, none, some, [], ◌∷◌, ◌++◌, arith, Bytes, All, leb, ◌==◌, if◌then◌else◌,
}
use url_shortener.Common.Int64.{modulus, max_int64, signed, is_le_zero, is_above}
use url_shortener.Errors.{Result, ok, err, sentinel, invalid_expiry}
use url_shortener.Service.Expiry.{
  minute, hour, max_expiry, is_digit, is_unit, digits_then_unit, expiry_re, expiry_groups, decimal,
  atoi, duration, expiry_duration,
}

abbrev pub IsDigits : Bytes → Type 0
IsDigits = All (λ c. is_digit c ≡ true)

-- The nanoseconds of a unit: `m`, `h` or `d`.
abbrev pub nanos : ℕ → ℕ
nanos u = if u == b'm' then minute else if u == b'h' then hour else 24 * hour

digits_then_unit-append :
    (ds : Bytes) (u : ℕ)
    → IsDigits ds
    → is_unit u ≡ true
    → digits_then_unit (ds ++ u ∷ []) ≡ some (ds, u)
unfolding digits_then_unit
digits_then_unit-append [] u h k = rw k
digits_then_unit-append (c ∷ []) u h k = rw (h.0, k)
digits_then_unit-append (c ∷ d ∷ s) u h k = rw (h.0, digits_then_unit-append (d ∷ s) u h.1 k)

inv_one :
    (c : ℕ) {ds : Bytes} {u : ℕ}
    → digits_then_unit (c ∷ []) ≡ some (ds, u)
    → (ds ≡ []) × (u ≡ c) × (is_unit c ≡ true)
unfolding digits_then_unit
inv_one c h = ground arith

inv_more :
    (c d : ℕ) (s : Bytes) {ds : Bytes} {u : ℕ}
    → digits_then_unit (c ∷ d ∷ s) ≡ some (ds, u)
    → (rest : Bytes) × (digits_then_unit (d ∷ s) ≡ some (rest, u))
      × (ds ≡ c ∷ rest)
      × (is_digit c ≡ true)
unfolding digits_then_unit
inv_more c d s h = ground arith

digits_then_unit_sound :
    (s : Bytes) {ds : Bytes} {u : ℕ}
    → digits_then_unit s ≡ some (ds, u)
    → (s ≡ ds ++ u ∷ []) × IsDigits ds × (is_unit u ≡ true)
digits_then_unit_sound [] h = unfold digits_then_unit in cc
digits_then_unit_sound (c ∷ []) h = let (e, e', k) = inv_one c h in rw (e, e') (refl, tt, k)
digits_then_unit_sound (c ∷ d ∷ s) h =
    let (rest, e, e', k) = inv_more c d s h in
    let (same, digits, unit) = digits_then_unit_sound (d ∷ s) e in
    rw e' (ap (λ t. c ∷ t) same, (k, digits), unit)

wrap_twice : (n : ℕ) → n * 24 % modulus * hour % modulus ≡ n * (24 * hour) % modulus
wrap_twice n = omega arith

duration_lem : (n u : ℕ) → is_unit u ≡ true → duration n u ≡ n * nanos u % modulus
unfolding duration
duration_lem n u h = ground (arith, wrap_twice n)

-- The range test on an int64, as a test of its bit pattern.
range_test :
    (w : ℕ)
    → w < modulus
    → (is_above (signed w) max_expiry || is_le_zero (signed w)) ≡ not (leb 1 w && leb w max_expiry)
range_test w h = ground arith

abbrev pub in_range : ℕ → Result ℕ
in_range w = if leb 1 w && leb w max_expiry then ok w else err (sentinel invalid_expiry)

-- For digits that fit an int64 and a unit, the product with the unit is taken modulo 2 ^ 64, and it
-- is this remainder that is held to the range of 1 ns to 365 days.
pub expiry_duration_exact :
    (ds : Bytes) (u : ℕ)
    → ds ≢ []
    → IsDigits ds
    → is_unit u ≡ true
    → decimal 0 ds ≤ max_int64
    → expiry_duration (ds ++ u ∷ []) ≡ in_range (decimal 0 ds * nanos u % modulus)
unfolding expiry_duration expiry_re atoi
expiry_duration_exact [] u ne hd hu fits = absurd (ne refl)
expiry_duration_exact (c ∷ ds) u ne hd hu fits = rw (digits_then_unit-append (c ∷ ds) u hd hu) (
    ground (
      arith,
      duration_lem (decimal 0 (c ∷ ds)) u hu,
      range_test (decimal 0 (c ∷ ds) * nanos u % modulus) (omega arith),
    ))

-- Whatever is accepted is a number of nanoseconds from 1 to 365 days.
pub expiry_duration_bounds :
    (s : Bytes) {d : ℕ} → expiry_duration s ≡ ok d → (0 < d) × (d ≤ max_expiry)
unfolding expiry_duration
expiry_duration_bounds s h = ground arith

split_inv :
    (o : Option (Bytes × ℕ)) {ds : Bytes} {u : ℕ}
    → expiry_groups o ≡ some (ds, u)
    → (o ≡ some (ds, u)) × (ds ≢ [])
split_inv none h = cc
split_inv (some ([], u)) h = cc
split_inv (some (c ∷ s, u)) h = ground arith

expiry_re_inv :
    (s : Bytes) {ds : Bytes} {u : ℕ}
    → expiry_re s ≡ some (ds, u)
    → (digits_then_unit s ≡ some (ds, u)) × (ds ≢ [])
unfolding expiry_re
expiry_re_inv s h = split_inv (digits_then_unit s) h

expiry_duration_inv :
    (s : Bytes) {d : ℕ}
    → expiry_duration s ≡ ok d
    → (ds : Bytes) × (u : ℕ) × (expiry_re s ≡ some (ds, u))
      × (decimal 0 ds ≤ max_int64)
      × (d ≡ duration (decimal 0 ds) u)
unfolding expiry_duration atoi
expiry_duration_inv s h = elim (Option-cases (expiry_re s)) [
  | inl missing ↦ absurd (ground arith)
  | inr ((ds, u), e) ↦ (ds, u, e, ground arith, ground arith)
]

-- What is accepted reads as digits that fit an int64 and a unit.
pub expiry_duration_sound :
    (s : Bytes) {d : ℕ}
    → expiry_duration s ≡ ok d
    → (ds : Bytes) × (u : ℕ) × (s ≡ ds ++ u ∷ [])
      × (ds ≢ [])
      × IsDigits ds
      × (is_unit u ≡ true)
      × (decimal 0 ds ≤ max_int64)
      × (d ≡ decimal 0 ds * nanos u % modulus)
expiry_duration_sound s {d} h =
    let (ds, u, e, fits, same) = expiry_duration_inv s h in
    let (e', ne) = expiry_re_inv s e in
    let (text, digits, unit) = digits_then_unit_sound s e' in
    (ds, u, text, ne, digits, unit, fits, same ∙ duration_lem (decimal 0 ds) u unit)
