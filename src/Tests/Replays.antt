-- ===== src/Tests/Replays.antt =====
-- The theorems on requests with an idempotency key: a recorded response, a key that another request has
-- claimed, and a Redis that does not answer.
use url_shortener.Common.{
  ◌≡◌, refl, inl, false, Bytes, codes, [], ◌∷◌, none, some, arith, some_inj, text_eq,
}
use url_shortener.Errors.{ok, err, driver}
use url_shortener.World.{Quiet, Quiet-refl}
use url_shortener.World.Redis.{Redis, Reply, RedisLaws, Writes}
use url_shortener.Idempotency
use url_shortener.Idempotency.{IdemStore}
use url_shortener.Service.Store.{url_repository}
use url_shortener.Service.Store.Contract.{url_repository-StoreLaws}
use url_shortener.Service.UrlService.{UrlService}
use url_shortener.Service.Create.{create_one}
use url_shortener.Service.Idempotent.{create_idempotent}
use url_shortener.Service.Idempotent.Safe.{CreateLaws}
use url_shortener.Service.Idempotent.Replay.{
  IsReplay, IsReplayed, create_idempotent_recorded, create_idempotent_claimed,
  create_idempotent_fail_open,
}
use url_shortener.Tests.Sandbox.{Sand, find, view, platform, postgres, put}
use url_shortener.Tests.Sandbox.Laws.{sand-PlatformLaws, sand-PostgresLaws}
use url_shortener.Tests.Sandbox.Net.{net}
use url_shortener.Tests.Links.{service, docs, world, idem_store, store-IsAnswering}
use url_shortener.Tests.Creation.{create_laws, long}

abbrev key : Bytes
key = codes "k1"

-- The key's response is recorded.
abbrev answered_world : Sand
answered_world = put (codes "us:idem:resp:k1") (some (codes "docs")) world

known : (Idempotency.get idem_store key answered_world).0 ≡ ok (some (codes "docs"))
unfolding Idempotency.get Idempotency.resp_key Idempotency.recorded text_eq
known = refl

create_idempotent_recorded_example :
    IsReplay net service
      (find (codes "docs") (docs ∷ []))
      (create_idempotent net platform service [] long none key answered_world).0
    × Quiet view answered_world
        (create_idempotent net platform service [] long none key answered_world).1
create_idempotent_recorded_example =
    create_idempotent_recorded view net platform service create_laws idem_store [] long none key
      answered_world (codes "docs") (omega arith) refl store-IsAnswering known

-- Another request holds the lock.
abbrev locked : Sand
locked = put (codes "us:idem:lock:k1") (some (codes "1")) world

unknown : (Idempotency.get idem_store key locked).0 ≡ ok none
unfolding Idempotency.get Idempotency.resp_key Idempotency.recorded text_eq
unknown = refl

owned : (Idempotency.claim idem_store key (Idempotency.get idem_store key locked).1).0 ≡ ok false
unfolding Idempotency.get Idempotency.claim Idempotency.lock_key Idempotency.answered text_eq
owned = refl

create_idempotent_claimed_example :
    IsReplayed (create_idempotent net platform service [] long none key locked).0
    × ((c : Bytes)
        → find c (create_idempotent net platform service [] long none key locked).1.rows
          ≡ find c (docs ∷ []))
create_idempotent_claimed_example =
    create_idempotent_claimed view net platform service create_laws idem_store [] long none key
      locked (omega arith) refl unknown owned

-- A Redis that does not answer.
abbrev down : Redis Sand
down = record {
  get = λ k w. (Reply.fail, w);
  set = λ k x d w. (Reply.fail, w);
  set_nx = λ k x d w. (Reply.fail, w);
  del = λ k w. (Reply.fail, w);
}

nothing_written : (k x : Bytes) (w : Sand) → Writes view k x w w
nothing_written k x w = record {
  later = omega arith;
  fades = λ j y h. inl h;
  same_coded = λ c. refl;
  same_draft = λ i. refl;
}

down-RedisLaws : RedisLaws view down
down-RedisLaws = record {
  get_quiet = λ k w. Quiet-refl w;
  get_live = λ k w x h. absurd (ground arith);
  set_writes = λ k x d w. nothing_written k x w;
  set_nx_writes = λ k x d w. nothing_written k x w;
  del_quiet = λ k w. Quiet-refl w;
  del_gone = λ k w h. absurd (ground arith);
}

abbrev down_store : IdemStore Sand
down_store = record { rdb = down; key_base = codes "us:"; resp_ttl = 86_400; lock_ttl = 10 }

abbrev down_service : UrlService Sand Bytes
down_service = record {
  store = url_repository postgres;
  cache = none;
  idem = some down_store;
  base_url = codes "sho.rt";
  block_domain = codes "sho.rt";
}

down_laws : CreateLaws view platform down_service
down_laws = record {
  service = record {
    platform = sand-PlatformLaws;
    cache = λ c e. absurd (ground arith);
    store = url_repository-StoreLaws view postgres sand-PostgresLaws;
  };
  idem = λ i e. let same : down_store ≡ i = some_inj e in rw (← same) down-RedisLaws;
  one_prefix = λ c i e e'. absurd (ground arith);
}

fails : (Idempotency.get down_store key world).0 ≡ err driver
unfolding Idempotency.get Idempotency.recorded
fails = refl

create_idempotent_fail_open_example :
    (w' : Sand) × ((c : Bytes) → find c w'.rows ≡ find c (docs ∷ []))
    × (create_idempotent net platform down_service [] long none key world
        ≡ create_one net down_service [] long none w')
create_idempotent_fail_open_example =
    create_idempotent_fail_open view net platform down_service down_laws down_store [] long none key
      world (omega arith) refl (inl (driver, fails))
