-- ===== src/Service/Create/Inserted.antt =====
-- The row that createOne writes, and the code that it gives it.
use mathlib.Core.Path.{subst}
use url_shortener.Common.{
  ℕ, ◌%◌, ◌≡◌, ◌≢◌, ◌⊎◌, inl, inr, refl, sym, ◌∙◌, ap, Bytes, Bool-cases, Option, none, some, [],
  arith, text_eq, text_eq_iff, if◌then◌else◌,
}
use url_shortener.Common.Int64.{modulus}
use url_shortener.Errors.{Result, ok, err}
use url_shortener.Model.{Url}
use url_shortener.World.{View, Draft}
use url_shortener.World.Postgres.{micros}
use url_shortener.Service.Base62.{encode_base62}
use url_shortener.Service.CustomCode.{validate_custom_code}
use url_shortener.Service.LongUrl.{UrlLib}
use url_shortener.Service.Store.Contract.{StoreLaws}
use url_shortener.Service.UrlService.{UrlService}
use url_shortener.Service.Create.{
  custom_created, numbered, after_validation, with_custom_code, number_row, after_insert,
  with_generated_code, insert,
}

-- From `w` to `w'` the row `u` was added under the code `code`, which was free.
pub record IsInserted {W : Type 0} (v : View W) (code long_url : Bytes) (expires_at : Option ℕ)
    (u : Url) (w w' : W) : Type 0 where
  pub code_given : u.code ≡ code
  pub long_given : u.long_url ≡ long_url
  pub expiry_given : u.expires_at ≡ expires_at
  pub was_free : v.coded w code ≡ none
  pub coded : (d : Bytes) → v.coded w' d ≡ (if text_eq code d then some u else v.coded w d)

-- Where the code of a new row comes from: the client, or the number that Create gave the row.
abbrev pub IsNamed : {W P : Type 0} → UrlService W P → Bytes → Bytes → Option ℕ → W → Bytes → Type 0
IsNamed s custom_code long_url x w code =
    ((custom_code ≢ []) × (validate_custom_code custom_code ≡ ok tt) × (code ≡ custom_code))
    ⊎ ((custom_code ≡ [])
        × ((id : ℕ) × ((s.store.create long_url x w).0 ≡ ok id)
            × (encode_base62 (id % modulus) ≡ some code)))

custom_created_ok :
    (code : Bytes) (r : Result ℕ) {c : Bytes}
    → custom_created code r ≡ ok c
    → (c ≡ code) × ((id : ℕ) × (r ≡ ok id))
unfolding custom_created
custom_created_ok code (ok id) h = (ground arith, (id, refl))
custom_created_ok code (err e) h = absurd (ground arith)

numbered_ok :
    (code : Bytes) (r : Result (Unit {0})) {c : Bytes}
    → numbered code r ≡ ok c
    → (c ≡ code) × (r ≡ ok tt)
unfolding numbered
numbered_ok code (ok _) h = (ground arith, refl)
numbered_ok code (err e) h = absurd (ground arith)

module _ {W P : Type 0} (v : View W) (lib : UrlLib P) (s : UrlService W P)
    (store : StoreLaws v s.store) where
  custom_ok :
      (code long_url : Bytes) (x : Option ℕ) (r : Result (Unit {0})) (w : W) {c : Bytes}
      → (after_validation lib s code long_url x r w).0 ≡ ok c
      → (r ≡ ok tt)
        × (c ≡ code)
        × ((u : Url) × IsInserted v code long_url
              (micros x)
              u
              w
              (after_validation lib s code long_url x r w).1)
  unfolding after_validation
  custom_ok code long_url x (err e) w h = absurd (ground arith)
  custom_ok code long_url x (ok _) w h =
      let (same, (id, done)) = custom_created_ok code _ h in
      let (t, gains) = store.create_code_ok code long_url x w id done in
      (
        refl,
        same,
        (
          _,
          record {
            code_given = refl;
            long_given = refl;
            expiry_given = refl;
            was_free = gains.was_free;
            coded = gains.coded;
          },
        ),
      )

  numbered_row :
      (id : ℕ) (o : Option Bytes) (w : W) (d : Draft) {c : Bytes}
      → v.draft w id ≡ some d
      → (number_row lib s id o w).0 ≡ ok c
      → (o ≡ some c)
        × ((u : Url) × IsInserted v c d.long_url d.expires_at u w (number_row lib s id o w).1)
  unfolding number_row
  numbered_row id none w d k h = absurd (ground arith)
  numbered_row id (some code) w d {c} k h =
      let (same, done) = numbered_ok code _ h in
      let gains = store.set_ok id code w d k done in
      (
        ap some (sym same),
        subst
            (λ c'.
              (u : Url) × IsInserted v c' d.long_url d.expires_at u w
                (s.store.set_code id code w).1)
            (sym same)
            (
              _,
              record {
                code_given = refl;
                long_given = refl;
                expiry_given = refl;
                was_free = gains.was_free;
                coded = gains.coded;
              },
            ),
      )

  after_insert_ok :
      (r : Result ℕ) (w : W) {c : Bytes}
      → (after_insert lib s r w).0 ≡ ok c
      → (id : ℕ) × (r ≡ ok id)
        × ((number_row lib s id (encode_base62 (id % modulus)) w).0 ≡ ok c)
        × ((number_row lib s id (encode_base62 (id % modulus)) w).1 ≡ (after_insert lib s r w).1)
  unfolding after_insert
  after_insert_ok (err e) w h = absurd (ground arith)
  after_insert_ok (ok id) w h = (id, refl, h, refl)

  moved :
      (c long_url : Bytes) (x : Option ℕ) (u : Url) (w w1 w2 : W)
      → ((d : Bytes) → v.coded w1 d ≡ v.coded w d)
      → IsInserted v c long_url x u w1 w2
      → IsInserted v c long_url x u w w2
  moved c long_url x u w w1 w2 same i = record {
    code_given = i.code_given;
    long_given = i.long_given;
    expiry_given = i.expiry_given;
    was_free = sym (same c) ∙ i.was_free;
    coded = λ d. i.coded d ∙ ap (λ o. if text_eq c d then some u else o) (same d);
  }

  generated_ok :
      (long_url : Bytes) (x : Option ℕ) (w : W) {c : Bytes}
      → (with_generated_code lib s long_url x w).0 ≡ ok c
      → ((id : ℕ) × ((s.store.create long_url x w).0 ≡ ok id)
          × (encode_base62 (id % modulus) ≡ some c))
        × ((u : Url) × IsInserted v c long_url
              (micros x)
              u
              w
              (with_generated_code lib s long_url x w).1)
  unfolding with_generated_code
  generated_ok long_url x w {c} h =
      let (id, done, named, world) = after_insert_ok _ _ h in
      let (t, draft, same) = store.create_ok long_url x w id done in
      let (code, (u, i)) = numbered_row id (encode_base62 (id % modulus)) _ _ draft named in
      (
        (id, done, code),
        (
          u,
          moved c long_url (micros x) u w _ _ same (
              subst (λ w'. IsInserted v c long_url (micros x) u (s.store.create long_url x w).1 w')
                world i),
        ),
      )

  pub insert_ok :
      (custom_code long_url : Bytes) (x : Option ℕ) (w : W) {c : Bytes}
      → (insert lib s custom_code long_url x w).0 ≡ ok c
      → IsNamed s custom_code long_url x w c
        × ((u : Url) × IsInserted v c long_url
              (micros x)
              u
              w
              (insert lib s custom_code long_url x w).1)
  unfolding insert with_custom_code
  insert_ok custom_code long_url x w {c} h = elim (Bool-cases (text_eq custom_code [])) [
    | inl e ↦
        rw (e, insert)
          (let (number, row) = generated_ok long_url x w (rw (e, insert) at h) in
            (inr ((text_eq_iff custom_code []).0 e, number), row))
    | inr e ↦
        rw (e, insert)
          (let (valid, same, (u, i)) =
              custom_ok custom_code long_url x (validate_custom_code custom_code) w
                (rw (e, insert) at h) in
            (
              inl (λ q. cc (e, (text_eq_iff custom_code []).1 q), valid, same),
              (
                u,
                subst
                    (λ c'.
                      IsInserted v c' long_url (micros x) u w
                        (with_custom_code lib s custom_code long_url x w).1)
                    (sym same) i,
              ),
            ))
  ]
