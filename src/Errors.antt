-- ===== src/Errors.antt =====
-- The errors of the program: the sentinels of internal/service/url.go and
-- internal/repository/url_repo.go, and what may wrap them.
use url_shortener.Common.{ℕ, Bool, false, Bytes, ◌==◌}

-- One constructor for each `errors.New`.
pub data Sentinel : Type 0 where
  not_found expired invalid_url url_too_long self_reference : Sentinel
  invalid_code invalid_expiry code_taken in_flight idem_key_too_long : Sentinel
  repository_not_found repository_conflict : Sentinel

abbrev pub number : Sentinel → ℕ
number not_found = 0
number expired = 1
number invalid_url = 2
number url_too_long = 3
number self_reference = 4
number invalid_code = 5
number invalid_expiry = 6
number code_taken = 7
number in_flight = 8
number idem_key_too_long = 9
number repository_not_found = 10
number repository_conflict = 11

pub data Error : Type 0 where
  sentinel : Sentinel → Error
  -- fmt.Errorf with `%w`, and the text around it
  wrapped : Bytes → Error → Error
  -- an error of the Redis client, of the JSON decoder or of the database driver
  driver : Error
  -- ctx.Err()
  context_done : Error
  -- a run-time panic, which unwinds the request up to the Recoverer
  runtime_panic : Error

-- errors.Is
abbrev pub is : Error → Sentinel → Bool
is (sentinel s) t = number s == number t
is (wrapped _ e) t = is e t
is driver t = false
is context_done t = false
is runtime_panic t = false

pub data Result {ℓ} (A : Type ℓ) : Type ℓ where
  ok : A → Result A
  err : Error → Result A

infixl 5 ◌>>=◌
abbrev pub ◌>>=◌ {ℓ κ} : {A : Type ℓ} {B : Type κ} → Result A → (A → Result B) → Result B
ok a >>= f = f a
err e >>= f = err e
