-- ===== src/Tests/Sandbox.antt =====
-- A world with a clock, a Redis and a table of links, each as simple as its laws allow.
pub mod Codec
pub mod Laws
pub mod Chi
pub mod Net
use url_shortener.Common.{
  ℕ, suc, ◌+◌, ◌≡◌, Bool, true, false, Bytes, codes, List, [], ◌∷◌, Option, none, some, text_eq,
  if◌then◌else◌, ◌==◌,
}
use url_shortener.Model.{Url}
use url_shortener.World.{Action, View, Draft}
use url_shortener.World.Platform.{Platform}
use url_shortener.World.Redis.{Redis, Reply, reply, nil}
use url_shortener.World.Postgres.{
  Rows, Postgres, PgError, pg_error, no_rows, PgResult, done, failed, micros,
}
use url_shortener.Tests.Sandbox.Codec.{marshal, unmarshal}

pub record Sand : Type 0 where
  pub time : ℕ
  pub keys : Bytes → Option Bytes
  pub rows : List Url
  pub drafts : ℕ → Option Draft
  pub next : ℕ

-- The first row with the code.
unfoldable pub find : Bytes → List Url → Option Url
find c [] = none
find c (u ∷ rest) = if text_eq u.code c then some u else find c rest

unfoldable pub remove : Bytes → List Url → List Url
remove c [] = []
remove c (u ∷ rest) = if text_eq u.code c then remove c rest else u ∷ remove c rest

abbrev pub view : View Sand
view = record {
  time = λ w. w.time;
  live = λ w. w.keys;
  coded = λ w c. find c w.rows;
  draft = λ w. w.drafts;
}

abbrev pub put : Bytes → Option Bytes → Sand → Sand
put k o w = record {
  time = w.time;
  keys = λ j. if text_eq k j then o else w.keys j;
  rows = w.rows;
  drafts = w.drafts;
  next = w.next;
}

abbrev pub sleep : ℕ → Sand → Sand
sleep d w = record {
  time = w.time + d;
  keys = w.keys;
  rows = w.rows;
  drafts = w.drafts;
  next = w.next;
}

abbrev pub with_rows : List Url → Sand → Sand
with_rows us w = record {
  time = w.time;
  keys = w.keys;
  rows = us;
  drafts = w.drafts;
  next = suc w.next;
}

abbrev pub with_draft : Draft → Sand → Sand
with_draft d w = record {
  time = w.time;
  keys = w.keys;
  rows = w.rows;
  drafts = λ i. if i == w.next then some d else w.drafts i;
  next = suc w.next;
}

abbrev pub platform : Platform Sand
platform = record {
  now = λ w. (w.time, w);
  sleep = λ d w. (tt, sleep d w);
  context_done = λ w. (false, w);
  inc = λ c w. (tt, w);
  marshal = marshal;
  unmarshal = unmarshal;
}

abbrev pub got : Option Bytes → Reply Bytes
got none = nil
got (some x) = reply x

abbrev pub put_new : Bytes → Bytes → Option Bytes → Action Sand (Reply Bool)
put_new k x none w = (reply true, put k (some x) w)
put_new k x (some old) w = (reply false, w)

abbrev pub redis : Redis Sand
redis = record {
  get = λ k w. (got (w.keys k), w);
  set = λ k x d w. (reply tt, put k (some x) w);
  set_nx = λ k x d w. put_new k x (w.keys k) w;
  del = λ k w. (reply tt, put k none w);
}

-- `unique_violation`
abbrev pub taken : PgResult ℕ
taken = failed (pg_error (codes "23505"))

abbrev pub add_row : Bytes → Bytes → Option ℕ → Option Url → Action Sand (PgResult ℕ)
add_row c l e (some old) w = (taken, w)
add_row c l e none w = (
  done w.next,
  with_rows
      (record { id = w.next; code = c; long_url = l; expires_at = micros e; created_at = w.time }
        ∷ w.rows)
      w,
)

abbrev pub give_code : Bytes → ℕ → Option Draft → Option Url → Action Sand (PgResult ℕ)
give_code c id none o w = (done 0, w)
give_code c id (some d) (some old) w = (taken, w)
give_code c id (some d) none w = (
  done 1,
  with_rows
      (record {
        id = id;
        code = c;
        long_url = d.long_url;
        expires_at = d.expires_at;
        created_at = d.created_at;
      }
        ∷ w.rows)
      w,
)

abbrev pub selected : Option Url → PgResult Url
selected none = failed no_rows
selected (some u) = done u

abbrev pub counted : Option Url → PgResult ℕ
counted none = done 0
counted (some u) = done 1

abbrev pub postgres : Postgres Sand
postgres = record {
  insert_url = λ l e w. (
    done w.next,
    with_draft (record { long_url = l; expires_at = micros e; created_at = w.time }) w,
  );
  insert_url_with_code = λ c l e w. add_row c l e (find c w.rows) w;
  update_code = λ c id w. give_code c id (w.drafts id) (find c w.rows) w;
  select_by_code = λ c w. (selected (find c w.rows), w);
  sum_total = λ id w. (done 0, w);
  select_daily = λ id w. (done Rows.end, w);
  select_referrers = λ id w. (done Rows.end, w);
  delete_by_code = λ c w. (counted (find c w.rows), with_rows (remove c w.rows) w);
}
