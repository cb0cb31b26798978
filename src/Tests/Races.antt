-- ===== src/Tests/Races.antt =====
-- The theorems on requests that share an idempotency key, and the race that they leave open.
use url_shortener.Common.{
  ℕ, ◌≡◌, refl, ap, ◌∙◌, Bool, true, false, Bytes, codes, List, [], ◌∷◌, Option, none, some,
  text_eq, text_eq_refl, arith,
}
use url_shortener.Model.{Url}
use url_shortener.World.{Draft}
use url_shortener.World.Redis.{reply}
use url_shortener.Idempotency
use url_shortener.Idempotency.{IdemStore, lock_key, resp_key}
use url_shortener.Repository
use url_shortener.Repository.{found, created, created_with_code, code_set}
use url_shortener.Errors.{ok}
use url_shortener.Service.Base62.{encode_base62}
use url_shortener.Service.UrlService.{short_url_for}
use url_shortener.Service.Create.{
  CreateResult, numbered, number_row, after_insert, with_generated_code, insert, fresh, read_back,
  create_one,
}
use url_shortener.Service.Create.Invariant.{IsStoreKept}
use url_shortener.Service.Store.{url_repository}
use url_shortener.Service.Concurrent
use url_shortener.Service.Concurrent.{
  Request, Pc, asking, claiming, recording, asked, next, drive, System, update, Reach, Step, pick,
  here, later,
}
use url_shortener.Service.Concurrent.Exclusion.{is_critical, ClaimLaws, one_creator}
use url_shortener.Service.Concurrent.Recorded.{RecordLaws, IsReplaying, recorded_forever}
use url_shortener.Tests.Sandbox.{
  Sand, find, view, platform, postgres, put, put_new, got, add_row, give_code,
}
use url_shortener.Tests.Sandbox.Net.{net}
use url_shortener.Tests.Links.{service, world, idem_store}

abbrev key : Bytes
key = codes "k1"

abbrev request : Request
request = record { custom_code = []; long_url = codes "http://c.d"; expires_at = none }

-- The rest of the world leaves Redis alone.
abbrev IsElsewhere : Sand → Sand → Type 0
IsElsewhere a b = b.keys ≡ a.keys

-- Something is stored under a Redis key.
abbrev Has : Bytes → Sand → Type 0
Has k w = (x : Bytes) × (w.keys k ≡ some x)

same_keys : (k : Bytes) (a b : Sand) → b.keys ≡ a.keys → Has k a → Has k b
same_keys k a b e (x, h) = (x, ap (λ f. f k) e ∙ h)

add_row-Has :
    (k c l : Bytes) (e : Option ℕ) (o : Option Url) (w : Sand)
    → Has k w
    → Has k (add_row c l e o w).1
add_row-Has k c l e none w h = h
add_row-Has k c l e (some u) w h = h

give_code-Has :
    (k c : Bytes) (id : ℕ) (m : Option Draft) (o : Option Url) (w : Sand)
    → Has k w
    → Has k (give_code c id m o w).1
give_code-Has k c id none o w h = h
give_code-Has k c id (some d) none w h = h
give_code-Has k c id (some d) (some u) w h = h

store_kept : (k : Bytes) → IsStoreKept (url_repository postgres) (Has k)
unfolding Repository.create Repository.create_with_code Repository.set_code Repository.get_by_code
store_kept k = record {
  on_create = λ l x w h. h;
  on_create_with_code = λ c l x w h. add_row-Has k c l x (find c w.rows) w h;
  on_set_code = λ id c w h. give_code-Has k c id (w.drafts id) (find c w.rows) w h;
  on_get_by_code = λ c w h. h;
}

-- A write under a key leaves something under every key that had something.
put-Has : (j k x : Bytes) (w : Sand) → Has k w → Has k (put j (some x) w)
put-Has j k x w (y, h) = go (text_eq j k) refl
  where
    go : (b : Bool) → text_eq j k ≡ b → Has k (put j (some x) w)
    go true e = (x, rw e refl)
    go false e = (y, rw e h)

put_new-Has : (j k x : Bytes) (o : Option Bytes) (w : Sand) → Has k w → Has k (put_new j x o w).1
put_new-Has j k x none w h = put-Has j k x w h
put_new-Has j k x (some y) w h = h

won :
    (k x : Bytes) (o : Option Bytes) (w : Sand)
    → w.keys k ≡ o
    → (put_new k x o w).0 ≡ reply true
    → (w.keys k ≡ none) × Has k (put_new k x o w).1
won k x none w e h = (e, (x, rw text_eq_refl refl))
won k x (some y) w e h = absurd (ground arith)

got-some : (o : Option Bytes) (x : Bytes) → o ≡ some x → got o ≡ reply x
got-some none x h = absurd (ground arith)
got-some (some y) x h = ground arith

claim_laws : ClaimLaws view platform service idem_store key IsElsewhere
claim_laws = record {
  won =
      λ w h. won (lock_key idem_store key) (codes "1") (w.keys (lock_key idem_store key)) w refl h;
  on_set_nx =
      λ w h. put_new-Has (lock_key idem_store key) (lock_key idem_store key) (codes "1") _ w h;
  on_get = λ k w h. h;
  on_set = λ x w h. put-Has (resp_key idem_store key) (lock_key idem_store key) x w h;
  on_inc = λ c w h. h;
  on_sleep = λ d w h. h;
  on_done = λ w h. h;
  on_store = store_kept (lock_key idem_store key);
  on_other = λ a b e h. same_keys (lock_key idem_store key) a b e h;
}

record_laws : RecordLaws view platform service idem_store key IsElsewhere
unfolding lock_key resp_key text_eq
record_laws = record {
  answers = λ w x h. got-some _ x h;
  on_get = λ k w h. h;
  on_set_nx = λ x d w h. put_new-Has (lock_key idem_store key) (resp_key idem_store key) x _ w h;
  on_set = λ x d w h. put-Has (resp_key idem_store key) (resp_key idem_store key) x w h;
  on_del = λ w h. h;
  on_inc = λ c w h. h;
  on_sleep = λ d w h. h;
  on_done = λ w h. h;
  on_store = store_kept (resp_key idem_store key);
  on_other = λ a b e h. same_keys (resp_key idem_store key) a b e h;
}

abbrev turn : System Sand → ℕ → System Sand
turn t n = record {
  world = (next net platform service idem_store key request (t.pc n) t.world).1;
  pc = update t.pc n (next net platform service idem_store key request (t.pc n) t.world).0;
}

-- The requests take turns in the order of a list.
unfoldable play : List ℕ → System Sand → System Sand
play [] t = t
play (n ∷ rest) t = play rest (turn t n)

abbrev start : Sand → System Sand
start w = record { world = w; pc = λ n. asking }

play-Reach :
    (ns : List ℕ) (t u : System Sand)
    → Reach net platform service idem_store key (λ n. request) IsElsewhere t u
    → Reach net platform service idem_store key (λ n. request) IsElsewhere t (play ns u)
unfolding play
play-Reach [] t u r = r
play-Reach (n ∷ ns) t u r = play-Reach ns t (turn u n) (later r (pick n))

-- Both requests have asked, and request 1 has won the claim.
abbrev contended : List ℕ
contended = 0 ∷ 1 ∷ 1 ∷ []

owns : is_critical ((play contended (start world)).pc 1) ≡ true
unfolding play next Idempotency.get Idempotency.claim Idempotency.recorded Idempotency.answered
    lock_key resp_key Concurrent.answered asked text_eq
owns = refl

one_creator_example : ◌≡◌ {A = ℕ} 1 1
one_creator_example =
    one_creator view net platform service idem_store key IsElsewhere claim_laws (λ n. request) world
      (play-Reach contended (start world) (start world) here) 1 1 owns owns

-- The response of an earlier request is recorded.
abbrev settled : System Sand
settled = start (put (codes "us:idem:resp:k1") (some (codes "docs")) world)

has_record : settled.world.keys (resp_key idem_store key) ≡ some (codes "docs")
unfolding resp_key text_eq
has_record = refl

recorded_forever_example : IsReplaying ((play (0 ∷ 1 ∷ []) settled).pc 1)
recorded_forever_example =
    recorded_forever view net platform service idem_store key IsElsewhere record_laws (λ n. request)
      1 (codes "docs", has_record) refl (play-Reach (0 ∷ 1 ∷ []) settled settled here)

abbrev second_link : CreateResult
second_link = record {
  url = record {
    id = 2;
    code = codes "2";
    long_url = codes "http://c.d";
    expires_at = none;
    created_at = 10;
  };
  short_url = codes "http://sho.rt/2";
  replayed = false;
}

abbrev claimed_late : Sand
claimed_late = (Idempotency.claim idem_store key settled.world).1

late_link : (create_one net service [] (codes "http://c.d") none claimed_late).0 ≡ ok second_link
unfolding create_one read_back fresh insert with_generated_code after_insert number_row numbered
    Repository.create created Repository.set_code code_set Repository.get_by_code found find
    encode_base62 short_url_for text_eq Idempotency.claim lock_key
late_link = refl

late_claim : (Idempotency.claim idem_store key settled.world).0 ≡ ok true
unfolding Idempotency.claim Idempotency.answered lock_key text_eq
late_claim = refl

-- The race: a request that looked the key up before the response was recorded, and claims it after
-- the claim was released, creates a second link, although the response is recorded.
second_link_created :
    (next net platform service idem_store key request
      (next net platform service idem_store key request claiming settled.world).0
      (next net platform service idem_store key request claiming settled.world).1).0
    ≡ recording second_link
unfolding next Concurrent.answered Concurrent.created
second_link_created = rw (late_claim, late_link) refl
