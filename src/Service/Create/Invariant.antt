-- ===== src/Service/Create/Invariant.antt =====
-- What every call of the store keeps, createOne keeps.
use url_shortener.Common.{ℕ, ◌%◌, Bytes, Bool-cases, inl, inr, Option, none, some, [], text_eq}
use url_shortener.Common.Int64.{modulus}
use url_shortener.Errors.{Result, ok, err}
use url_shortener.Service.Base62.{encode_base62}
use url_shortener.Service.LongUrl.{UrlLib}
use url_shortener.Service.Store.{UrlStore}
use url_shortener.Service.UrlService.{UrlService}
use url_shortener.Service.Create.{
  after_validation, with_custom_code, number_row, after_insert, with_generated_code, insert,
  read_back, create_one, replay,
}

-- The calls of the store that createOne and replay make keep `I`.
pub record IsStoreKept {W : Type 0} (store : UrlStore W) (I : W → Type 0) : Type 0 where
  pub on_create : (l : Bytes) (x : Option ℕ) (w : W) → I w → I (store.create l x w).1
  pub on_create_with_code :
      (c l : Bytes) (x : Option ℕ) (w : W) → I w → I (store.create_with_code c l x w).1
  pub on_set_code : (id : ℕ) (c : Bytes) (w : W) → I w → I (store.set_code id c w).1
  pub on_get_by_code : (c : Bytes) (w : W) → I w → I (store.get_by_code c w).1

module _ {W P : Type 0} (lib : UrlLib P) (s : UrlService W P) (I : W → Type 0)
    (kept : IsStoreKept s.store I) where
  after_validation_kept :
      (code long_url : Bytes) (x : Option ℕ) (r : Result (Unit {0})) (w : W)
      → I w
      → I (after_validation lib s code long_url x r w).1
  unfolding after_validation
  after_validation_kept code long_url x (err e) w h = h
  after_validation_kept code long_url x (ok _) w h = kept.on_create_with_code code long_url x w h

  number_row_kept : (id : ℕ) (o : Option Bytes) (w : W) → I w → I (number_row lib s id o w).1
  unfolding number_row
  number_row_kept id none w h = h
  number_row_kept id (some code) w h = kept.on_set_code id code w h

  after_insert_kept : (r : Result ℕ) (w : W) → I w → I (after_insert lib s r w).1
  unfolding after_insert
  after_insert_kept (err e) w h = h
  after_insert_kept (ok id) w h = number_row_kept id (encode_base62 (id % modulus)) w h

  insert_kept :
      (custom_code long_url : Bytes) (x : Option ℕ) (w : W)
      → I w
      → I (insert lib s custom_code long_url x w).1
  unfolding insert with_custom_code with_generated_code
  insert_kept custom_code long_url x w h = elim (Bool-cases (text_eq custom_code [])) [
    | inl e ↦ rw (e, insert) (after_insert_kept _ _ (kept.on_create long_url x w h))
    | inr e ↦ rw (e, insert) (after_validation_kept custom_code long_url x _ w h)
  ]

  read_back_kept : (r : Result Bytes) (w : W) → I w → I (read_back lib s r w).1
  unfolding read_back
  read_back_kept (err e) w h = h
  read_back_kept (ok code) w h = kept.on_get_by_code code w h

  pub create_one_kept :
      (custom_code long_url : Bytes) (x : Option ℕ) (w : W)
      → I w
      → I (create_one lib s custom_code long_url x w).1
  unfolding create_one
  create_one_kept custom_code long_url x w h =
      read_back_kept _ _ (insert_kept custom_code long_url x w h)

  pub replay_kept : (code : Bytes) (w : W) → I w → I (replay lib s code w).1
  unfolding replay
  replay_kept code w h = kept.on_get_by_code code w h
