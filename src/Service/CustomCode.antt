-- ===== src/Service/CustomCode.antt =====
-- validateCustomCode of internal/service/url.go
pub mod Laws
use url_shortener.Common.{
  ℕ, Bool, true, false, not, ◌&&◌, ◌||◌, List, [], ◌∷◌, Bytes, codes, length, leb, ◌==◌, text_eq,
  to_lower, if◌then◌else◌,
}
use url_shortener.Errors.{Result, ok, err, sentinel, invalid_code}

abbrev pub min_custom_code : ℕ
min_custom_code = 3

abbrev pub max_custom_code : ℕ
max_custom_code = 32

-- `[A-Za-z0-9_-]`
abbrev pub is_code_char : ℕ → Bool
is_code_char c =
    (leb b'A' c && leb c b'Z')
    || (leb b'a' c && leb c b'z')
    || (leb b'0' c && leb c b'9')
    || c == b'_'
    || c == b'-'

unfoldable pub all_code_chars : Bytes → Bool
all_code_chars [] = true
all_code_chars (c ∷ s) = is_code_char c && all_code_chars s

-- customCodeRe.MatchString: `^[A-Za-z0-9_-]{3,32}$`, where `$` is the end of the text
unfoldable pub custom_code_re : Bytes → Bool
unfolding all_code_chars
custom_code_re s =
    leb min_custom_code (length s) && leb (length s) max_custom_code && all_code_chars s

abbrev pub reserved_codes : List Bytes
reserved_codes = codes "api" ∷ codes "health" ∷ codes "ready" ∷ codes "metrics" ∷ []

-- the look-up in a map that stands for a set
unfoldable pub is_member : Bytes → List Bytes → Bool
unfolding text_eq
is_member s [] = false
is_member s (t ∷ ts) = text_eq s t || is_member s ts

unfoldable pub validate_custom_code : Bytes → Result (Unit {0})
unfolding custom_code_re
validate_custom_code code =
    if not (custom_code_re code)
    then err (sentinel invalid_code)
    else if is_member (to_lower code) reserved_codes
    then err (sentinel invalid_code)
    else ok tt
