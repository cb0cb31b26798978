-- ===== src/Service/Create/Outcome.antt =====
-- What createOne returns.
use mathlib.Core.Path.{subst, subst₂}
use url_shortener.Common.{
  ℕ, ◌%◌, ◌≡◌, inl, inr, refl, sym, ◌∙◌, ap, Bytes, false, Option, none, some, [], arith,
  text_eq_refl, some_inj,
}
use url_shortener.Common.Int64.{modulus}
use url_shortener.Errors.{Error, Result, ok, err}
use url_shortener.Model.{Url}
use url_shortener.World.{View, Quiet}
use url_shortener.World.Postgres.{micros}
use url_shortener.Service.Base62.{encode_base62}
use url_shortener.Service.LongUrl.{UrlLib}
use url_shortener.Service.Store.Contract.{StoreLaws}
use url_shortener.Service.UrlService.{UrlService, short_url_for}
use url_shortener.Service.Create.{CreateResult, insert, fresh, read_back, create_one}
use url_shortener.Service.Create.Inserted.{IsInserted, IsNamed, insert_ok}

module _ {W P : Type 0} (v : View W) (lib : UrlLib P) (s : UrlService W P)
    (store : StoreLaws v s.store) where
  settled :
      {c long_url : Bytes} {x : Option ℕ} {u : Url} {w : W} (w1 w2 : W)
      → Quiet v w1 w2
      → IsInserted v c long_url x u w w1
      → IsInserted v c long_url x u w w2
  settled w1 w2 q i = record {
    code_given = i.code_given;
    long_given = i.long_given;
    expiry_given = i.expiry_given;
    was_free = i.was_free;
    coded = λ d. q.same_coded d ∙ i.coded d;
  }

  fresh_ok :
      (code : Bytes) (r : Result Url) {res : CreateResult}
      → fresh lib s code r ≡ ok res
      → (r ≡ ok res.url) × (res.short_url ≡ short_url_for lib s code) × (res.replayed ≡ false)
  unfolding fresh
  fresh_ok code (ok u) h = ground arith
  fresh_ok code (err e) h = absurd (ground arith)

  read_back_ok :
      (r : Result Bytes) (w : W) {res : CreateResult}
      → (read_back lib s r w).0 ≡ ok res
      → (code : Bytes) × (r ≡ ok code)
        × (v.coded w code ≡ some res.url)
        × (res.short_url ≡ short_url_for lib s code)
        × (res.replayed ≡ false)
        × Quiet v w (read_back lib s r w).1
  unfolding read_back
  read_back_ok (err e) w h = absurd (ground arith)
  read_back_ok (ok code) w {res} h =
      let (row, short, replay) = fresh_ok code _ h in
      (code, refl, store.get_ok code w res.url row, short, replay, store.get_quiet code w)

  -- When createOne succeeds, the code that it returns was free, and is the client's valid custom code
  -- or, without one, the base-62 form of a row number; the row under it has the long URL that was
  -- asked for and the expiry cut to whole microseconds, and is the row returned; every other row is as it was; the short URL
  -- is built from that code, and the result is not marked as a replay.
  pub create_one_ok :
      (custom_code long_url : Bytes) (x : Option ℕ) (w : W) {res : CreateResult}
      → (create_one lib s custom_code long_url x w).0 ≡ ok res
      → IsNamed s custom_code long_url x w res.url.code
        × IsInserted v res.url.code long_url
            (micros x)
            res.url
            w
            (create_one lib s custom_code long_url x w).1
        × (res.short_url ≡ short_url_for lib s res.url.code)
        × (res.replayed ≡ false)
  unfolding create_one
  create_one_ok custom_code long_url x w {res} h =
      let (code, e, row, short, replay, q) = read_back_ok _ _ h in
      let (named, (u, i)) = insert_ok v lib s store custom_code long_url x w e in
      let own : v.coded (insert lib s custom_code long_url x w).1 code ≡ some u =
        i.coded code ∙ rw text_eq_refl in
      let same : u ≡ res.url = some_inj (sym own ∙ row) in
      let name : code ≡ res.url.code = sym i.code_given ∙ ap (λ (y : Url). y.code) same in
      (
        subst (IsNamed s custom_code long_url x w) name named,
        settled _ _ q (
            subst₂
              (λ c' u'.
                IsInserted v c' long_url (micros x) u' w (insert lib s custom_code long_url x w).1)
              name same i),
        short ∙ ap (short_url_for lib s) name,
        replay,
      )

  -- If the code of the number that Create gave the new row is taken already, as a custom code may
  -- have taken it, then createOne without a custom code fails.
  pub create_one_collision :
      (long_url : Bytes) (x : Option ℕ) (w : W) (id : ℕ) (code : Bytes) (u : Url)
      → (s.store.create long_url x w).0 ≡ ok id
      → encode_base62 (id % modulus) ≡ some code
      → v.coded w code ≡ some u
      → (e : Error) × ((create_one lib s [] long_url x w).0 ≡ err e)
  create_one_collision long_url x w id code u done number taken =
      go (create_one lib s [] long_url x w).0 refl
    where
      clash :
          (res : CreateResult)
          → IsNamed s [] long_url x w res.url.code
          → v.coded w res.url.code ≡ none
          → ⊥
      clash res (inl (h, _, _)) free = h refl
      clash res (inr (_, (id', done', number'))) free =
          let same : id ≡ id' = cc in
          let name : code ≡ res.url.code = cc in cc (ap (v.coded w) name)

      go :
          (r : Result CreateResult)
          → (create_one lib s [] long_url x w).0 ≡ r
          → (e : Error) × ((create_one lib s [] long_url x w).0 ≡ err e)
      go (err e) h = (e, h)
      go (ok res) h =
          let (named, i, _, _) = create_one_ok [] long_url x w h in
          absurd (clash res named i.was_free)
