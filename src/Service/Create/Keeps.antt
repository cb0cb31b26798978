-- ===== src/Service/Create/Keeps.antt =====
-- createOne and replay never change a row that has a code, and keep the cache coherent, whatever
-- PostgreSQL answers.
use url_shortener.Common.{
  ℕ, ◌%◌, ◌≡◌, ◌∙◌, refl, Bytes, Bool-cases, inl, inr, Option, none, some, [], text_eq, arith,
}
use url_shortener.Common.Int64.{modulus}
use url_shortener.Errors.{Result, ok, err}
use url_shortener.World.{View, Quiet, Draft}
use url_shortener.World.Postgres.{Adds}
use url_shortener.Service.Base62.{encode_base62}
use url_shortener.Service.LongUrl.{UrlLib}
use url_shortener.Service.Store.Contract.{StoreLaws}
use url_shortener.Service.UrlService.{UrlService}
use url_shortener.Service.Create.{
  after_validation, with_custom_code, number_row, after_insert, with_generated_code, insert,
  read_back, create_one, replay,
}

module _ {W : Type 0} {v : View W} where
  pub Adds-refl : (w : W) → Adds v w w
  Adds-refl w = record { later = omega arith; fades = λ k x h. h; keeps = λ c u h. h }

  pub Adds-trans : {a b c : W} → Adds v a b → Adds v b c → Adds v a c
  Adds-trans f g = record {
    later = let l = f.later in let m = g.later in omega arith;
    fades = λ k x h. f.fades k x (g.fades k x h);
    keeps = λ c u h. g.keeps c u (f.keeps c u h);
  }

  pub Quiet→Adds : {a b : W} → Quiet v a b → Adds v a b
  Quiet→Adds q = record { later = q.later; fades = q.fades; keeps = λ c u h. q.same_coded c ∙ h }

module _ {W P : Type 0} (v : View W) (lib : UrlLib P) (s : UrlService W P)
    (store : StoreLaws v s.store) where
  after_validation-Adds :
      (code long_url : Bytes) (x : Option ℕ) (r : Result (Unit {0})) (w : W)
      → Adds v w (after_validation lib s code long_url x r w).1
  unfolding after_validation
  after_validation-Adds code long_url x (err e) w = Adds-refl w
  after_validation-Adds code long_url x (ok _) w = store.create_code_adds code long_url x w

  number_row-Adds :
      (id : ℕ) (o : Option Bytes) (w : W) (d : Draft)
      → v.draft w id ≡ some d
      → Adds v w (number_row lib s id o w).1
  unfolding number_row
  number_row-Adds id none w d h = Adds-refl w
  number_row-Adds id (some code) w d h = store.set_adds id code w d h

  after_insert-Adds :
      (r : Result ℕ) (w : W)
      → ((id : ℕ) → r ≡ ok id → (d : Draft) × (v.draft w id ≡ some d))
      → Adds v w (after_insert lib s r w).1
  unfolding after_insert
  after_insert-Adds (err e) w h = Adds-refl w
  after_insert-Adds (ok id) w h =
      let (d, k) = h id refl in number_row-Adds id (encode_base62 (id % modulus)) w d k

  generated-Adds :
      (long_url : Bytes) (x : Option ℕ) (w : W)
      → Adds v w (with_generated_code lib s long_url x w).1
  unfolding with_generated_code
  generated-Adds long_url x w = Adds-trans (store.create_adds long_url x w) (
      after_insert-Adds _ _
        (λ id e. let (t, d, same) = store.create_ok long_url x w id e in (_, d)))

  insert-Adds :
      (custom_code long_url : Bytes) (x : Option ℕ) (w : W)
      → Adds v w (insert lib s custom_code long_url x w).1
  unfolding insert with_custom_code
  insert-Adds custom_code long_url x w = elim (Bool-cases (text_eq custom_code [])) [
    | inl e ↦ rw (e, insert) (generated-Adds long_url x w)
    | inr e ↦ rw (e, insert) (after_validation-Adds custom_code long_url x _ w)
  ]

  read_back-Adds : (r : Result Bytes) (w : W) → Adds v w (read_back lib s r w).1
  unfolding read_back
  read_back-Adds (err e) w = Adds-refl w
  read_back-Adds (ok code) w = Quiet→Adds (store.get_quiet code w)

  -- createOne, whether it succeeds or fails and at whichever step, changes no row that has a code.
  pub create_one-Adds :
      (custom_code long_url : Bytes) (x : Option ℕ) (w : W)
      → Adds v w (create_one lib s custom_code long_url x w).1
  unfolding create_one
  create_one-Adds custom_code long_url x w =
      Adds-trans (insert-Adds custom_code long_url x w) (read_back-Adds _ _)

  pub replay-Quiet : (code : Bytes) (w : W) → Quiet v w (replay lib s code w).1
  unfolding replay
  replay-Quiet code w = store.get_quiet code w
