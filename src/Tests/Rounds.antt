-- ===== src/Tests/Rounds.antt =====
-- The theorems on the worker's loop, in a world whose context is cancelled while the first batch is
-- read.
use url_shortener.Common.{
  ◌≡◌, ◌≢◌, inr, refl, ◌∙◌, Bytes, codes, Bool, true, false, List, [], ◌∷◌, append-nil, none, some,
  arith, text_eq, if◌then◌else◌,
}
use url_shortener.Common.Int64.{pos}
use url_shortener.World.{Action}
use url_shortener.World.Platform.{Platform}
use url_shortener.World.Redis.{Reply, reply, nil, fail}
use url_shortener.World.Postgres.{done}
use url_shortener.World.Analytics.{Worker, Message}
use url_shortener.Consumer.{batch_size, concat, received, process_once}
use url_shortener.Consumer.Run.{run}
use url_shortener.Consumer.Run.Kept.{IsWorkerKept, batch_kept}
use url_shortener.Consumer.Run.Progress.{
  IsRead, StreamLaws, OnLaws, CancelLaws, run_drains, run_cancelled,
}
use url_shortener.Consumer.Run.Processed.{HasRead, process_once_exact}
use url_shortener.Config.{Environment, config_of, get_env, load}
use url_shortener.Consumer.{ensure_group, group_error}
use url_shortener.Programs.{ready}
use url_shortener.Programs.Worker.{
  WorkerLibraries, Started, start, configured, pinged, connected, grouped,
}

record Belt : Type 0 where
  messages : List Message
  cancelled : Bool

abbrev platform : Platform Belt
platform = record {
  now = λ w. (0, w);
  sleep = λ d w. (tt, w);
  context_done = λ w. (w.cancelled, w);
  inc = λ k w. (tt, w);
  marshal = λ u. none;
  unmarshal = λ s. none;
}

abbrev read_all : List Message → Reply (List (List Message))
read_all [] = nil
read_all (m ∷ rest) = reply ((m ∷ rest) ∷ [])

abbrev worker : Worker Belt
worker = record {
  create_group = λ w. (none, w);
  read_group = λ n b w. (read_all w.messages, record { messages = []; cancelled = true });
  ack = λ id w. (reply tt, w);
  insert_claim = λ id w. (done 1, w);
  select_id = λ code w. (done 7, w);
  upsert = λ k w. (done tt, w);
  format_day = λ sec. codes "2025-01-01";
  unix_now = λ w. (pos 0, w);
}

abbrev idle : Action Belt Bool
idle w = (w.cancelled, w)

read_all_lem : (s : List Message) → IsRead s (read_all s) []
unfolding concat
read_all_lem [] = (refl, refl)
read_all_lem (m ∷ rest) = (append-nil _ ∙ append-nil _, inr refl)

answered : (s : List Message) → read_all s ≢ fail
answered [] h = absurd (ground arith)
answered (m ∷ rest) h = absurd (ground arith)

stream_laws : StreamLaws (λ w. w.messages) platform worker idle
stream_laws = record {
  on_context_done = λ w. refl;
  on_idle = λ w. refl;
  kept = λ l. record {
    on_inc = λ k w h. h;
    on_ack = λ id w h. h;
    on_insert_claim = λ id w h. h;
    on_select_id = λ code w h. h;
    on_upsert = λ k w h. h;
    on_unix_now = λ w h. h;
  };
  read = λ b w. read_all_lem w.messages;
}

abbrev two_clicks : List Message
two_clicks =
    record { id = codes "1-0"; values = (codes "code", codes "docs") ∷ [] }
    ∷ record { id = codes "1-1"; values = (codes "code", codes "a") ∷ [] }
    ∷ []

abbrev full : Belt
full = record { messages = two_clicks; cancelled = false }

process_once_exact_example :
    HasRead
      (λ w. w.messages)
      platform
      worker
      full
      (worker.read_group batch_size true full).0
      (worker.read_group batch_size true full).1
      (process_once platform worker true full).0
      (process_once platform worker true full).1
process_once_exact_example =
    process_once_exact (λ w. w.messages) platform worker idle stream_laws true full

-- The same worker, whose read leaves the context as it was.
abbrev steady : Worker Belt
steady = record {
  create_group = λ w. (none, w);
  read_group = λ n b w. (read_all w.messages, record { messages = []; cancelled = w.cancelled });
  ack = λ id w. (reply tt, w);
  insert_claim = λ id w. (done 1, w);
  select_id = λ code w. (done 7, w);
  upsert = λ k w. (done tt, w);
  format_day = λ sec. codes "2025-01-01";
  unix_now = λ w. (pos 0, w);
}

steady_kept : (I : Belt → Type 0) → IsWorkerKept platform steady I
steady_kept I = record {
  on_inc = λ k w h. h;
  on_ack = λ id w h. h;
  on_insert_claim = λ id w h. h;
  on_select_id = λ code w h. h;
  on_upsert = λ k w h. h;
  on_unix_now = λ w h. h;
}

steady_stream : StreamLaws (λ w. w.messages) platform steady idle
steady_stream = record {
  on_context_done = λ w. refl;
  on_idle = λ w. refl;
  kept = λ l. steady_kept (λ w. w.messages ≡ l);
  read = λ b w. read_all_lem w.messages;
}

on_laws : OnLaws (λ w. w.cancelled ≡ false) platform steady idle
on_laws = record {
  kept = steady_kept (λ w. w.cancelled ≡ false);
  on_read = λ w h. h;
  on_context_done = λ w h. (h, h);
  on_idle = λ w h. (h, h);
}

run_drains_example :
    ((run platform steady idle 1 full).0 ≡ false)
    × ((run platform steady idle 1 full).1.messages ≡ [])
run_drains_example =
    run_drains (λ w. w.messages) platform steady idle steady_stream (λ w. w.cancelled ≡ false)
      on_laws 1 full refl (λ x. answered x.messages) (omega arith)

flag_kept : IsWorkerKept platform worker (λ w. w.cancelled ≡ true)
flag_kept = record {
  on_inc = λ k w h. h;
  on_ack = λ id w h. h;
  on_insert_claim = λ id w h. h;
  on_select_id = λ code w h. h;
  on_upsert = λ k w h. h;
  on_unix_now = λ w h. h;
}

cancel_laws : CancelLaws (λ w. w.cancelled ≡ true) platform idle
cancel_laws = record { reported = λ w h. h; on_idle = λ w h. h }

-- What a batch keeps, it keeps of the flag.
was_cancelled : (process_once platform worker true full).1.cancelled ≡ true
unfolding process_once received
was_cancelled =
    batch_kept platform worker (λ w. w.cancelled ≡ true) flag_kept 0 (concat (two_clicks ∷ []))
      (record { messages = []; cancelled = true }) refl

run_cancelled_example :
    ((run platform worker idle 3 full).0 ≡ true)
    × ((run platform worker idle 3 full).1.messages
        ≡ (process_once platform worker true full).1.messages)
run_cancelled_example =
    run_cancelled (λ w. w.messages) platform worker idle stream_laws (λ w. w.cancelled ≡ true)
      cancel_laws 1 full refl was_cancelled

abbrev variables : Environment
variables key =
    if text_eq key (codes "DATABASE_URL")
    then codes "postgres://db"
    else if text_eq key (codes "REDIS_ADDR")
    then codes "cache:6379"
    else []

abbrev libraries : WorkerLibraries Belt Bytes Bytes
libraries = record {
  env = variables;
  parse_duration = λ s. none;
  platform = platform;
  new_client = λ s. s;
  redis_ping = λ r w. (true, w);
  redis_close = λ r w. (tt, w);
  connect = λ s w. (some s, w);
  close = λ c w. (tt, w);
  consumer = λ r stream c. worker;
  idle = idle;
  listen_metrics = λ a w. (tt, w);
  shutdown_metrics = λ w. (tt, w);
}

abbrev started : Started Bytes Bytes
started = record {
  config = config_of variables (λ s. none);
  rdb = codes "cache:6379";
  conn = codes "postgres://db";
}

starts : (start libraries full).0 ≡ ready started
unfolding start configured pinged connected grouped ensure_group group_error load config_of get_env
    text_eq
starts = refl
