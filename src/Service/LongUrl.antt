-- ===== src/Service/LongUrl.antt =====
-- validateLongURL of internal/service/url.go. Package net/url is a parameter.
pub mod Laws
use url_shortener.Common.{
  ℕ, Bool, not, ◌&&◌, Option, none, some, [], ◌++◌, Bytes, codes, length, ltb, text_eq, trim_space,
  contains, to_lower, if◌then◌else◌,
}
use url_shortener.Errors.{Result, ok, err, sentinel, invalid_url, url_too_long, self_reference}

abbrev pub max_url_length : ℕ
max_url_length = 2048

-- What the service uses of net/url and of strings.EqualFold; `none` is a parse error.
pub record UrlLib (P : Type 0) : Type 0 where
  pub parse : Bytes → Option P
  pub scheme : P → Bytes
  pub host : P → Bytes
  pub to_string : P → Bytes
  pub join_path : P → Bytes → P
  pub equal_fold : Bytes → Bytes → Bool

-- A scheme, which Parse gives in lower case or which is ASCII, is http or https.
unfoldable pub is_http : Bytes → Bool
unfolding to_lower
is_http scheme =
    let s = to_lower scheme in
    if text_eq s (codes "http") then Bool.true else text_eq s (codes "https")

module _ {P : Type 0} (lib : UrlLib P) where
  unfoldable pub with_scheme : Bytes → Bytes
  with_scheme raw = if contains raw (codes "://") then raw else codes "http://" ++ raw

  unfoldable pub check_parsed : Bytes → Option P → Result Bytes
  check_parsed block_domain none = err (sentinel invalid_url)
  check_parsed block_domain (some u) =
      if not (is_http (lib.scheme u))
      then err (sentinel invalid_url)
      else if text_eq (lib.host u) []
      then err (sentinel invalid_url)
      else if lib.equal_fold (lib.host u) block_domain
      then err (sentinel self_reference)
      else ok (lib.to_string u)

  unfoldable pub validate_long_url : Bytes → Bytes → Result Bytes
  unfolding check_parsed
  validate_long_url block_domain input =
      let raw = trim_space input in
      if text_eq raw []
      then err (sentinel invalid_url)
      else if ltb max_url_length (length raw)
      then err (sentinel url_too_long)
      else check_parsed block_domain (lib.parse (with_scheme raw))
