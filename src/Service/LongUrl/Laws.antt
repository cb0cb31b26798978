-- ===== src/Service/LongUrl/Laws.antt =====
-- What validateLongURL accepts.
use url_shortener.Common.{
  ◌++◌, ◌≤◌, ◌≡◌, ◌≢◌, ◌⊎◌, ◌↔◌, inl, inr, refl, true, false, Bool-cases, Option, none, some, [],
  Bytes, codes, length, ltb, text_eq, text_eq_iff, trim_space, contains, to_lower, arith,
}
use url_shortener.Errors.{ok}
use url_shortener.Service.LongUrl.{
  max_url_length, UrlLib, is_http, with_scheme, check_parsed, validate_long_url,
}

-- `full` is the text `raw`, with `http://` in front if it names no scheme.
abbrev pub IsSchemed : Bytes → Bytes → Type 0
IsSchemed raw full =
    ((contains raw (codes "://") ≡ true) × (full ≡ raw))
    ⊎ ((contains raw (codes "://") ≡ false) × (full ≡ codes "http://" ++ raw))

-- A scheme that a link may have, in any case.
abbrev pub IsHttp : Bytes → Type 0
IsHttp scheme = (to_lower scheme ≡ codes "http") ⊎ (to_lower scheme ≡ codes "https")

is_http_iff : (scheme : Bytes) → (is_http scheme ≡ true) ↔ IsHttp scheme
unfolding is_http
is_http_iff scheme = (from, to)
  where
    from : is_http scheme ≡ true → IsHttp scheme
    from h = elim (Bool-cases (text_eq (to_lower scheme) (codes "http"))) [
      | inl e ↦ inl ((text_eq_iff _ _).0 e)
      | inr e ↦ inr ((text_eq_iff _ _).0 (rw e at h))
    ]

    to : IsHttp scheme → is_http scheme ≡ true
    to (inl e) = rw ((text_eq_iff _ _).1 e) refl
    to (inr e) = elim (Bool-cases (text_eq (to_lower scheme) (codes "http"))) [
      | inl y ↦ rw y refl
      | inr y ↦ rw y ((text_eq_iff _ _).1 e)
    ]

module _ {P : Type 0} (lib : UrlLib P) (block_domain : Bytes) where
  -- What holds of an accepted URL: `u` is the parse of `full`, and `out` is what is stored.
  pub record IsAccepted (raw full : Bytes) (u : P) (out : Bytes) : Type 0 where
    pub schemed : IsSchemed raw full
    pub parses : lib.parse full ≡ some u
    pub http : IsHttp (lib.scheme u)
    pub has_host : lib.host u ≢ []
    pub foreign : lib.equal_fold (lib.host u) block_domain ≡ false
    pub printed : out ≡ lib.to_string u

  with_scheme_lem : (raw : Bytes) → IsSchemed raw (with_scheme lib raw)
  unfolding with_scheme
  with_scheme_lem raw = elim (Bool-cases (contains raw (codes "://"))) [
    | inl e ↦ rw e (inl (refl, refl))
    | inr e ↦ rw e (inr (refl, refl))
  ]

  with_scheme_unique : (raw full : Bytes) → IsSchemed raw full → full ≡ with_scheme lib raw
  unfolding with_scheme
  with_scheme_unique raw full (inl (e, h)) = rw e h
  with_scheme_unique raw full (inr (e, h)) = rw e h

  text_eq-false : (a b : Bytes) → a ≢ b → text_eq a b ≡ false
  text_eq-false a b h = elim (Bool-cases (text_eq a b)) [
    | inl e ↦ absurd (h ((text_eq_iff a b).0 e))
    | inr e ↦ e
  ]

  checked :
      (raw full : Bytes) (o : Option P) {out : Bytes}
      → IsSchemed raw full
      → lib.parse full ≡ o
      → check_parsed lib block_domain o ≡ ok out
      → (u : P) × IsAccepted raw full u out
  unfolding check_parsed
  checked raw full none s e h = absurd (ground arith)
  checked raw full (some u) {out} s e h = (
    u,
    record {
      schemed = s;
      parses = e;
      http = (is_http_iff (lib.scheme u)).0 (ground arith);
      has_host = λ x.
          (let y : text_eq (lib.host u) [] ≡ true = (text_eq_iff (lib.host u) []).1 x in
            ground arith);
      foreign = ground arith;
      printed = ground arith;
    },
  )

  check_accepted :
      (raw full : Bytes) (u : P) (out : Bytes)
      → IsAccepted raw full u out
      → check_parsed lib block_domain (some u) ≡ ok out
  unfolding check_parsed
  check_accepted raw full u out a =
      rw
        (
          (is_http_iff (lib.scheme u)).1 a.http,
          text_eq-false (lib.host u) [] a.has_host,
          a.foreign,
          a.printed,
        )
        refl

  pub validate_long_url_iff :
      (input out : Bytes)
      → (validate_long_url lib block_domain input ≡ ok out) ↔ (
          (trim_space input ≢ [])
          × (length (trim_space input) ≤ 2048)
          × ((full : Bytes) × (u : P) × IsAccepted (trim_space input) full u out))
  unfolding validate_long_url
  validate_long_url_iff input out = (from, to)
    where
      parsed :
          check_parsed lib block_domain (lib.parse (with_scheme lib (trim_space input))) ≡ ok out
          → (full : Bytes) × (u : P) × IsAccepted (trim_space input) full u out
      parsed h =
          let (u, a) =
            checked (trim_space input) (with_scheme lib (trim_space input)) _
              (with_scheme_lem (trim_space input)) refl h in
          (with_scheme lib (trim_space input), u, a)

      from :
          validate_long_url lib block_domain input ≡ ok out
          → (trim_space input ≢ [])
            × (length (trim_space input) ≤ 2048)
            × ((full : Bytes) × (u : P) × IsAccepted (trim_space input) full u out)
      from h = (
        λ e. (let y : text_eq (trim_space input) [] ≡ true = (text_eq_iff _ _).1 e in ground arith),
        ground arith,
        parsed (ground arith),
      )

      to :
          (trim_space input ≢ [])
            × (length (trim_space input) ≤ 2048)
            × ((full : Bytes) × (u : P) × IsAccepted (trim_space input) full u out)
          → validate_long_url lib block_domain input ≡ ok out
      to (some_text, short, (full, u, a)) =
          let fits : ltb max_url_length (length (trim_space input)) ≡ false = ground arith in
          let same = with_scheme_unique (trim_space input) full a.schemed in
          rw (text_eq-false (trim_space input) [] some_text, fits, ← same, a.parses)
            (check_accepted (trim_space input) full u out a)
