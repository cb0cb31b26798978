-- ===== src/Service/Expiry.antt =====
-- parseExpiry of internal/service/url.go. A duration is an int64 number of nanoseconds.
pub mod Laws
use url_shortener.Common.{
  ℕ, ◌+◌, ◌-◌, ◌*◌, ◌%◌, ◌^◌, Bool, true, false, ◌&&◌, ◌||◌, Option, none, some, List, [], ◌∷◌,
  Bytes, codes, ◌≡◌, refl, leb, ltb, ◌==◌, if◌then◌else◌,
}
use url_shortener.Common.Int64.{ℤ, pos, negsuc, max_int64, signed, mul64, is_le_zero, is_above}
use url_shortener.World.{Action, pure, ◌>>=◌}
use url_shortener.World.Platform.{Platform}
use url_shortener.Errors.{Result, ok, err, sentinel, invalid_expiry}

-- time.Minute and time.Hour
abbrev pub minute : ℕ
minute = 60_000_000_000

abbrev pub hour : ℕ
hour = 3_600_000_000_000

abbrev pub max_expiry : ℕ
max_expiry = 365 * 24 * hour

abbrev pub is_digit : ℕ → Bool
is_digit c = leb b'0' c && leb c b'9'

abbrev pub is_unit : ℕ → Bool
is_unit c = c == b'm' || c == b'h' || c == b'd'

-- `^(\d*)([mhd])$`
unfoldable pub digits_then_unit : Bytes → Option (Bytes × ℕ)
digits_then_unit [] = none
digits_then_unit (c ∷ []) = if is_unit c then some ([], c) else none
digits_then_unit (c ∷ d ∷ s) =
    let rest = digits_then_unit (d ∷ s) in
    if is_digit c then elim rest [ none ↦ none | some (ds, u) ↦ some (c ∷ ds, u) ] else none

-- expiryRe.FindStringSubmatch, `^(\d+)([mhd])$`: the two groups, where `\d+` wants a digit
abbrev pub expiry_groups : Option (Bytes × ℕ) → Option (Bytes × ℕ)
expiry_groups none = none
expiry_groups (some ([], u)) = none
expiry_groups (some (c ∷ ds, u)) = some (c ∷ ds, u)

unfoldable pub expiry_re : Bytes → Option (Bytes × ℕ)
unfolding digits_then_unit
expiry_re s = expiry_groups (digits_then_unit s)

abbrev pub decimal : ℕ → Bytes → ℕ
decimal n [] = n
decimal n (c ∷ s) = decimal (n * 10 + (c - b'0')) s

-- strconv.Atoi of a text of digits: an error above the int64 range
unfoldable pub atoi : Bytes → Option ℕ
atoi s = let n = decimal 0 s in if leb n max_int64 then some n else none

-- The bit pattern of `time.Duration(n) * unit`; for days the program multiplies twice.
unfoldable pub duration : ℕ → ℕ → ℕ
duration n u =
    if u == b'm'
    then mul64 n minute
    else if u == b'h'
    then mul64 n hour
    else if u == b'd'
    then mul64 (mul64 n 24) hour
    else 0

-- The part of parseExpiry up to the clock: the accepted duration.
unfoldable pub expiry_duration : Bytes → Result ℕ
expiry_duration s = elim (expiry_re s) [
  | none ↦ err (sentinel invalid_expiry)
  | some (ds, u) ↦ elim (atoi ds) [
    | none ↦ err (sentinel invalid_expiry)
    | some n ↦
        let d = duration n u in
        if is_above (signed d) max_expiry || is_le_zero (signed d)
        then err (sentinel invalid_expiry)
        else ok d
  ]
]

-- `time.Now().Add(d).UTC()` for an accepted duration
unfoldable pub expiry_instant : {W : Type 0} → Platform W → Result ℕ → Action W (Result ℕ)
expiry_instant p (ok d) = do t ← p.now; pure (ok (t + d))
expiry_instant p (err e) = pure (err e)

unfoldable pub parse_expiry : {W : Type 0} → Platform W → Bytes → Action W (Result ℕ)
unfolding expiry_instant
parse_expiry p s = expiry_instant p (expiry_duration s)

ninety_minutes : expiry_duration (codes "90m") ≡ ok 5_400_000_000_000
unfolding expiry_duration expiry_re atoi duration
ninety_minutes = refl

overflowing : expiry_duration (codes "307445735m") ≡ ok 26_290_448_384
unfolding expiry_duration expiry_re atoi duration
overflowing = refl
