-- ===== src/Tests/Creation.antt =====
-- The theorems on Create, in a world with one link and a service with an idempotency store.
use url_shortener.Common.{
  ℕ, ◌%◌, ◌≤◌, ◌≡◌, ◌↔◌, refl, false, Bytes, codes, [], ◌∷◌, none, some, some_inj, text_eq, length,
  trim_space, contains, ◌≢◌,
}
use url_shortener.Common.Int64.{modulus}
use url_shortener.Errors.{Error, ok, err}
use url_shortener.Model.{Url}
use url_shortener.Repository
use url_shortener.Repository.{found, created, created_with_code, code_set}
use url_shortener.Service.Base62.{encode_base62}
use url_shortener.Service.Store.{url_repository}
use url_shortener.Service.UrlService.{short_url_for}
use url_shortener.Service.Create.{
  CreateParams, CreateResult, numbered, number_row, after_insert, with_generated_code, insert,
  fresh, read_back, create_one,
}
use url_shortener.Service.Create.Inserted.{IsInserted, IsNamed}
use url_shortener.World.{Action}
use url_shortener.Handler.{redirect_to, redirect}
use url_shortener.Handler.RoundTrip.{redirect-create_one}
use url_shortener.Service.Create.Outcome.{create_one_ok, create_one_collision}
use url_shortener.Service.Resolve.Coherence.{IsCoherent}
use url_shortener.Service.Idempotent.{create}
use url_shortener.Service.Idempotent.Safe.{CreateLaws}
use url_shortener.Service.Idempotent.Kept.{create-IsCoherent}
use url_shortener.Service.LongUrl.{with_scheme, is_http, check_parsed, validate_long_url}
use url_shortener.Service.LongUrl.Laws.{IsAccepted, validate_long_url_iff}
use url_shortener.Tests.Sandbox.{Sand, find, view, platform, postgres}
use url_shortener.Tests.Sandbox.Laws.{sand-RedisLaws}
use url_shortener.Tests.Sandbox.Net.{net}
use url_shortener.Tests.Links.{
  service, service_laws, docs, world, world-IsCoherent, idem_store, url_cache, store-IsAnswering,
}

pub create_laws : CreateLaws view platform service
create_laws = record {
  service = service_laws;
  idem = λ i e. let same : idem_store ≡ i = some_inj e in rw (← same) sand-RedisLaws;
  one_prefix = λ c i e e'.
      let same : url_cache ≡ c = some_inj e in
      let same' : idem_store ≡ i = some_inj e' in rw (← same, ← same') refl;
}

abbrev pub long : Bytes
long = codes "http://c.d"

-- The row that gets the number 2.
abbrev second : Url
second = record { id = 2; code = codes "2"; long_url = long; expires_at = none; created_at = 10 }

abbrev created_second : CreateResult
created_second = record { url = second; short_url = codes "http://sho.rt/2"; replayed = false }

creates : (create_one net service [] long none world).0 ≡ ok created_second
unfolding create_one read_back fresh insert with_generated_code after_insert number_row numbered
    Repository.create created Repository.set_code code_set Repository.get_by_code found find
    encode_base62 short_url_for text_eq
creates = refl

create_one_ok_example :
    IsNamed service [] long none world (codes "2")
    × IsInserted view
        (codes "2")
        long
        none
        second
        world
        (create_one net service [] long none world).1
    × (codes "http://sho.rt/2" ≡ short_url_for net service (codes "2"))
    × (false ≡ false)
create_one_ok_example = create_one_ok view net service service_laws.store [] long none world creates

abbrev unix : Action Sand ℕ
unix w = (w.time, w)

redirect-create_one_example :
    (redirect net platform service none unix []
      (codes "2")
      (create_one net service [] long none world).1).0
    ≡ redirect_to 301 long
redirect-create_one_example =
    redirect-create_one view net platform service service_laws none unix [] [] long none world
      world-IsCoherent store-IsAnswering creates

-- A custom code has taken the code of the next number.
abbrev squatted : Sand
squatted = record {
  time = 10;
  keys = λ k. none;
  rows =
      record { id = 7; code = codes "100"; long_url = long; expires_at = none; created_at = 3 }
      ∷ [];
  drafts = λ i. none;
  next = 3844;
}

next_number : ((url_repository postgres).create long none squatted).0 ≡ ok 3844
unfolding Repository.create created
next_number = refl

next_code : encode_base62 (3844 % modulus) ≡ some (codes "100")
unfolding encode_base62
next_code = refl

squatter :
    find (codes "100") squatted.rows
    ≡ some
        (record { id = 7; code = codes "100"; long_url = long; expires_at = none; created_at = 3 })
unfolding find text_eq
squatter = refl

create_one_collision_example :
    (e : Error) × ((create_one net service [] long none squatted).0 ≡ err e)
create_one_collision_example =
    create_one_collision view net service service_laws.store long none squatted 3844 (codes "100") _
      next_number next_code squatter

abbrev request : CreateParams
request = record {
  url = codes "http://c.d";
  custom_code = codes "mine";
  expires_in = codes "2h";
  idempotency_key = codes "k1";
}

create-IsCoherent_example :
    IsCoherent view platform service (create net platform service request world).1
create-IsCoherent_example =
    create-IsCoherent view net platform service create_laws request world world-IsCoherent

docs_found : find (codes "docs") (docs ∷ []) ≡ some docs
unfolding find text_eq
docs_found = refl

accepted : validate_long_url net (codes "sho.rt") (codes " c.d ") ≡ ok (codes "http://c.d")
unfolding validate_long_url check_parsed with_scheme is_http text_eq trim_space contains
accepted = refl

validate_long_url_iff_example :
    (validate_long_url net (codes "sho.rt") (codes " c.d ") ≡ ok (codes "http://c.d")) ↔ (
      (trim_space (codes " c.d ") ≢ [])
      × (length (trim_space (codes " c.d ")) ≤ 2048)
      × ((full u : Bytes) × IsAccepted net
            (codes "sho.rt")
            (trim_space (codes " c.d "))
            full
            u
            (codes "http://c.d")))
validate_long_url_iff_example =
    validate_long_url_iff net (codes "sho.rt") (codes " c.d ") (codes "http://c.d")

-- Both sides of it hold.
accepted_url :
    (full u : Bytes) × IsAccepted net
      (codes "sho.rt")
      (trim_space (codes " c.d "))
      full
      u
      (codes "http://c.d")
accepted_url = (validate_long_url_iff_example.0 accepted).2
