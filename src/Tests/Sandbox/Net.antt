-- ===== src/Tests/Sandbox/Net.antt =====
-- A net/url for addresses of the form `http://host`.
use url_shortener.Common.{
  Bytes, codes, [], ◌∷◌, ◌++◌, Option, none, some, text_eq, to_lower, if◌then◌else◌, ◌==◌,
}
use url_shortener.Service.LongUrl.{UrlLib}

-- What follows a prefix.
abbrev pub strip : Bytes → Bytes → Option Bytes
strip [] s = some s
strip (c ∷ p) [] = none
strip (c ∷ p) (d ∷ s) = let rest = strip p s in if c == d then rest else none

abbrev pub net : UrlLib Bytes
net = record {
  parse = strip (codes "http://");
  scheme = λ h. codes "http";
  host = λ h. h;
  to_string = λ h. codes "http://" ++ h;
  join_path = λ h c. h ++ (codes "/" ++ c);
  equal_fold = λ a b. text_eq (to_lower a) (to_lower b);
}
