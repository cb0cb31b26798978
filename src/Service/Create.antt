-- ===== src/Service/Create.antt =====
-- createOne and replay of internal/service/url.go.
pub mod Inserted
pub mod Outcome
pub mod Keeps
pub mod Invariant
use url_shortener.Common.{
  ℕ, ◌%◌, ◌^◌, Bool, true, false, not, Bytes, codes, [], Option, none, some, text_eq, if◌then◌else◌,
}
use url_shortener.Common.Int64.{modulus}
use url_shortener.Errors.{
  Error, Result, ok, err, sentinel, wrapped, runtime_panic, is, repository_conflict, code_taken,
}
use url_shortener.Model.{Url}
use url_shortener.World.{Action, pure, ◌>>=◌, ◌>>◌}
use url_shortener.Service.Base62.{encode_base62}
use url_shortener.Service.CustomCode.{validate_custom_code}
use url_shortener.Service.LongUrl.{UrlLib}
use url_shortener.Service.UrlService.{UrlService, short_url_for}
use url_shortener.Service.Resolve.{not_found_or}

-- CreateParams; an absent field is the empty text.
pub record CreateParams : Type 0 where
  pub url : Bytes
  pub custom_code : Bytes
  pub expires_in : Bytes
  pub idempotency_key : Bytes

pub record CreateResult : Type 0 where
  pub url : Url
  pub short_url : Bytes
  pub replayed : Bool

-- The result of CreateWithCode: ErrConflict becomes ErrCodeTaken.
unfoldable pub custom_created : Bytes → Result ℕ → Result Bytes
custom_created code (ok id) = ok code
custom_created code (err e) =
    if is e repository_conflict then err (wrapped code (sentinel code_taken)) else err e

-- The result of SetCode.
unfoldable pub numbered : Bytes → Result (Unit {0}) → Result Bytes
numbered code (ok _) = ok code
numbered code (err e) =
    if is e repository_conflict
    then err (wrapped (codes "codegen collision (database state inconsistent)") e)
    else err e

module _ {W P : Type 0} (lib : UrlLib P) (s : UrlService W P) where
  unfoldable pub after_validation :
      Bytes → Bytes → Option ℕ → Result (Unit {0}) → Action W (Result Bytes)
  after_validation code long_url expires_at (err e) = pure (err e)
  after_validation code long_url expires_at (ok _) = do
    r ← s.store.create_with_code code long_url expires_at
    pure (custom_created code r)

  unfoldable pub with_custom_code : Bytes → Bytes → Option ℕ → Action W (Result Bytes)
  unfolding after_validation
  with_custom_code code long_url expires_at =
      after_validation code long_url expires_at (validate_custom_code code)

  -- SetCode with the code of EncodeBase62, which is `none` if that panics.
  unfoldable pub number_row : ℕ → Option Bytes → Action W (Result Bytes)
  number_row id none = pure (err runtime_panic)
  number_row id (some code) = do r ← s.store.set_code id code; pure (numbered code r)

  unfoldable pub after_insert : Result ℕ → Action W (Result Bytes)
  after_insert (err e) = pure (err e)
  after_insert (ok id) = number_row id (encode_base62 (id % modulus))

  unfoldable pub with_generated_code : Bytes → Option ℕ → Action W (Result Bytes)
  unfolding after_insert
  with_generated_code long_url expires_at = do
    r ← s.store.create long_url expires_at
    after_insert r

  -- The row under its code.
  unfoldable pub insert : Bytes → Bytes → Option ℕ → Action W (Result Bytes)
  insert custom_code long_url expires_at =
      if not (text_eq custom_code [])
      then with_custom_code custom_code long_url expires_at
      else with_generated_code long_url expires_at

  unfoldable pub fresh : Bytes → Result Url → Result CreateResult
  fresh code (ok u) =
      ok (record { url = u; short_url = short_url_for lib s code; replayed = false })
  fresh code (err e) = err e

  unfoldable pub read_back : Result Bytes → Action W (Result CreateResult)
  unfolding fresh
  read_back (err e) = pure (err e)
  read_back (ok code) = do r ← s.store.get_by_code code; pure (fresh code r)

  unfoldable pub create_one : Bytes → Bytes → Option ℕ → Action W (Result CreateResult)
  unfolding read_back
  create_one custom_code long_url expires_at = do
    c ← insert custom_code long_url expires_at
    read_back c

  unfoldable pub replayed : Result Url → Result CreateResult
  replayed (ok u) = ok (record { url = u; short_url = short_url_for lib s u.code; replayed = true })
  replayed (err e) = err (not_found_or e)

  unfoldable pub replay : Bytes → Action W (Result CreateResult)
  unfolding replayed
  replay code = do r ← s.store.get_by_code code; pure (replayed r)
