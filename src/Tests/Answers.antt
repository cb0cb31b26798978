-- ===== src/Tests/Answers.antt =====
-- The theorems on the handlers, the rate limiter and the recorder at concrete requests.
use url_shortener.Common.{
  ℕ, suc, ◌-◌, ◌≤◌, ◌≡◌, ◌++◌, refl, false, Bytes, codes, List, [], ◌∷◌, none, text_eq,
  text_eq_refl, ltb, some_inj, if◌then◌else◌,
}
use url_shortener.Errors.{ok}
use url_shortener.World.{Action}
use url_shortener.World.Platform.{Platform}
use url_shortener.World.Redis.{Reply, reply}
use url_shortener.Service.Resolve
use url_shortener.Service.Resolve.{
  resolve, use_cached, look_up, from_row, from_store, remember, resolved, is_expired, evict,
  after_delete,
}
use url_shortener.Service.Store.{url_repository}
use url_shortener.Service.Resolve.Deletion.{IsEvicting}
use url_shortener.Cache
use url_shortener.Repository
use url_shortener.Repository.{found}
use url_shortener.RateLimit.{
  Counts, Limiter, refused, allow, counted, window_key, passed, start_window, verdict, middleware,
  retry_after,
}
use url_shortener.RateLimit.Window.{WindowLaws, admitted, admitted_exact, middleware_refused}
use url_shortener.Recorder.{Event, Channel}
use url_shortener.Recorder.Buffer.{Step, pushes, publishes, steps, accepted, SentLaws, steps_fifo}
use url_shortener.Model.{StatsSummary}
use url_shortener.Statistics.{
  collected, queried, with_referrers, with_daily, with_total, stats_by_url_id, IsSummary,
  stats_by_url_id_ok,
}
use url_shortener.Handler
use url_shortener.Handler.{
  Response, failure, link, link_body, redirect, redirect_to, no_content, create_error, to_delete,
  deleted,
}
use url_shortener.Tests.Sandbox.{Sand, find, platform, postgres}
use url_shortener.Tests.Sandbox.Codec.{marshal}
use url_shortener.Tests.Sandbox.Net.{net}
use url_shortener.Tests.Links.{service, world, url_cache}

abbrev unix : Action Sand ℕ
unix w = (w.time, w)

evicts_after :
    IsEvicting service
      (codes "docs")
      ((url_repository postgres).delete_by_code
        (codes "docs")
        (resolve platform service (codes "docs") world).1).1
unfolding Cache.delete Cache.replied
evicts_after c e = let same : url_cache ≡ c = some_inj e in rw (← same) refl

answers_204 : (Handler.delete net platform service (codes "docs") world).0 ≡ no_content 204
unfolding Handler.delete to_delete deleted resolve look_up use_cached from_store from_row remember
    resolved is_expired Cache.get Cache.decode Cache.set Cache.store Cache.ttl_for Cache.replied
    Cache.url_key Cache.delete Repository.get_by_code found find text_eq Resolve.delete after_delete
    evict Repository.delete_by_code Repository.deleted marshal
answers_204 = refl

-- A Redis with counters, at the time 90.
abbrev Hits : Type 0
Hits = Bytes → ℕ

abbrev hit : Bytes → Hits → Hits
hit k h j = if text_eq k j then suc (h j) else h j

abbrev counts : Counts Hits
counts = record {
  incr = λ k h. (reply (suc (h k)), hit k h);
  expire = λ k d h. (reply tt, h);
  unix_now = λ h. (90, h);
  split_host_port = λ remote. none;
  format_int = λ n. n ∷ [];
}

abbrev limiter : Limiter Hits
limiter = record { rdb = counts; key_base = codes "us:"; per_minute = 2 }

abbrev hits_now : Action Hits ℕ
hits_now h = (90, h)

abbrev hits_platform : Platform Hits
hits_platform = record {
  now = hits_now;
  sleep = λ d h. (tt, h);
  context_done = λ h. (false, h);
  inc = λ k h. (tt, h);
  marshal = λ u. none;
  unmarshal = λ s. none;
}

window_laws : WindowLaws counts (λ h. h) 1
window_laws = record {
  in_window = λ h. refl;
  clock_hits = λ h k. refl;
  incr_reply = λ k h. refl;
  incr_hits = λ k h. rw text_eq_refl refl;
  expire_hits = λ k d h j. refl;
}

admitted_exact_example :
    admitted limiter (codes "10.0.0.1") 5 (λ k. 0) ≡ (if ltb (2 - 0) 5 then 2 - 0 else 5)
admitted_exact_example = admitted_exact limiter (λ h. h) 1 window_laws (codes "10.0.0.1") 5 (λ k. 0)

-- The third request of the window.
abbrev busy : Hits
busy k = 2

refuses : (middleware hits_platform limiter hits_now (codes "10.0.0.1") busy).0 ≡ refused 429 30
unfolding middleware passed allow counted start_window verdict retry_after
refuses = refl

middleware_refused_example :
    (◌≡◌ {A = ℕ} 429 429)
    × (1 ≤ 30)
    × (30 ≤ 60)
    × ((count : ℕ) × ((counts.incr (window_key limiter (codes "10.0.0.1") 1) busy).0 ≡ reply count)
        × (3 ≤ count))
middleware_refused_example =
    middleware_refused hits_platform limiter hits_now (codes "10.0.0.1") busy 429 30 refuses

abbrev click : Event
click = record { code = codes "docs"; referrer = codes "a.b"; ts = 17 }

-- The world is the list of the events that were sent.
abbrev sender : Platform (List Event)
sender = record {
  now = λ w. (0, w);
  sleep = λ d w. (tt, w);
  context_done = λ w. (false, w);
  inc = λ k w. (tt, w);
  marshal = λ u. none;
  unmarshal = λ s. none;
}

abbrev xadd : Event → Action (List Event) (Reply Bytes)
xadd e w = (reply (codes "1-0"), w ++ (e ∷ []))

abbrev sent : List Event → List Event
sent w = w

sent_laws : SentLaws sender xadd sent
sent_laws = record { on_xadd = λ e w. refl; on_inc = λ k w. refl }

abbrev idle : Channel (List Event)
idle = record { waiting = []; rest = [] }

abbrev turns : List Step
turns = pushes click ∷ pushes click ∷ publishes ∷ []

steps_fifo_example :
    (steps sender xadd turns idle).rest ++ (steps sender xadd turns idle).waiting
    ≡ ([] ++ []) ++ accepted sender xadd turns idle
steps_fifo_example = steps_fifo sender xadd sent sent_laws turns idle

abbrev summary : StatsSummary
summary = record { total_clicks = 0; daily = []; top_referrers = [] }

sums : (stats_by_url_id postgres 1 world).0 ≡ ok summary
unfolding stats_by_url_id with_total with_daily with_referrers queried collected
sums = refl

stats_by_url_id_ok_example : IsSummary postgres 1 summary
stats_by_url_id_ok_example = stats_by_url_id_ok postgres 1 world summary sums
