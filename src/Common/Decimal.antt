-- ===== src/Common/Decimal.antt =====
-- strconv.ParseInt(s, 10, 64): an optional sign and decimal digits, with a range check.
use Prim.Native.Nat.{ℕ, ◌+◌, ◌-◌, ◌*◌}
use mathlib.Core.Bool.{◌&&◌}
use mathlib.Core.List.{[], ◌∷◌}
use mathlib.Core.Option.{Option, none, some}
use url_shortener.Common.Tests.{leb, ◌==◌, if◌then◌else◌}
use url_shortener.Common.Text.{Bytes}
use url_shortener.Common.Int64.{ℤ, pos, negsuc, max_int64}

-- The number behind the digits of `n`; `none` at a byte that is no digit.
unfoldable pub read_digits : ℕ → Bytes → Option ℕ
read_digits n [] = some n
read_digits n (c ∷ s) =
    let rest = read_digits (n * 10 + (c - b'0')) s in
    if leb b'0' c && leb c b'9' then rest else none

unfoldable pub read_natural : Bytes → Option ℕ
unfolding read_digits
read_natural [] = none
read_natural (c ∷ s) = read_digits 0 (c ∷ s)

unfoldable pub non_negative : Option ℕ → Option ℤ
non_negative none = none
non_negative (some n) = if leb n max_int64 then some (pos n) else none

unfoldable pub negative : Option ℕ → Option ℤ
negative none = none
negative (some ℕ.zero) = some (pos 0)
negative (some (ℕ.suc n)) = if leb n max_int64 then some (negsuc n) else none

unfoldable pub parse_int64 : Bytes → Option ℤ
unfolding read_natural non_negative negative
parse_int64 [] = none
parse_int64 (c ∷ s) =
    if c == b'-'
    then negative (read_natural s)
    else if c == b'+'
    then non_negative (read_natural s)
    else non_negative (read_natural (c ∷ s))
