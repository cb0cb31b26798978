-- ===== src/Statistics.antt =====
-- internal/repository/stats_repo.go
use url_shortener.Common.{ℕ, ◌≡◌, ◌∙◌, ap, sym, arith, refl, Bytes, codes, List, [], ◌∷◌}
use url_shortener.Errors.{Result, ok, err, driver, wrapped}
use url_shortener.Model.{DailyCount, ReferrerCount, StatsSummary}
use url_shortener.World.{Action, pure, ◌>>=◌}
use url_shortener.World.Postgres.{
  Postgres, PgResult, done, failed, Rows, row, scan_error, broken, end,
}

unfoldable pub behind : {A : Type 0} → A → Result (List A) → Result (List A)
behind a (ok rest) = ok (a ∷ rest)
behind a (err e) = err e

-- The loop over the rows, and the test of Err behind it.
unfoldable pub collected : {A : Type 0} → Bytes → Bytes → Rows A → Result (List A)
unfolding behind
collected scan iterate (row a rest) = behind a (collected scan iterate rest)
collected scan iterate scan_error = err (wrapped scan driver)
collected scan iterate broken = err (wrapped iterate driver)
collected scan iterate end = ok []

unfoldable pub queried : {A : Type 0} → Bytes → Bytes → Bytes → PgResult (Rows A) → Result (List A)
unfolding collected
queried query scan iterate (failed e) = err (wrapped query driver)
queried query scan iterate (done rows) = collected scan iterate rows

unfoldable pub with_referrers :
    ℕ → List DailyCount → Result (List ReferrerCount) → Result StatsSummary
with_referrers total daily (err e) = err e
with_referrers total daily (ok refs) =
    ok (record { total_clicks = total; daily = daily; top_referrers = refs })

module _ {W : Type 0} (pg : Postgres W) where
  unfoldable pub with_daily : ℕ → ℕ → Result (List DailyCount) → Action W (Result StatsSummary)
  unfolding with_referrers queried
  with_daily url_id total (err e) = pure (err e)
  with_daily url_id total (ok daily) = do
    r ← pg.select_referrers url_id
    pure (
        with_referrers total daily
          (queried (codes "query referrers") (codes "scan referrer") (codes "iterate referrers") r))

  unfoldable pub with_total : ℕ → PgResult ℕ → Action W (Result StatsSummary)
  unfolding with_daily queried
  with_total url_id (failed e) = pure (err (wrapped (codes "sum total clicks") driver))
  with_total url_id (done total) = do
    r ← pg.select_daily url_id
    with_daily url_id total (
        queried (codes "query daily clicks") (codes "scan daily click")
          (codes "iterate daily clicks") r)

  unfoldable pub stats_by_url_id : ℕ → Action W (Result StatsSummary)
  unfolding with_total
  stats_by_url_id url_id = do r ← pg.sum_total url_id; with_total url_id r

-- What Rows gives without a failure.
abbrev pub rows_of : {A : Type 0} → List A → Rows A
rows_of [] = end
rows_of (a ∷ rest) = row a (rows_of rest)

behind_ok :
    {A : Type 0} (a : A) (r : Result (List A)) {list : List A}
    → behind a r ≡ ok list
    → (b : List A) × (r ≡ ok b) × (list ≡ a ∷ b)
unfolding behind
behind_ok a (ok b) h = (b, refl, ground arith)
behind_ok a (err e) h = absurd (ground arith)

collected_ok :
    {A : Type 0} (scan iterate : Bytes) (rows : Rows A) {list : List A}
    → collected scan iterate rows ≡ ok list
    → rows ≡ rows_of list
unfolding collected
collected_ok scan iterate (row a rest) h =
    let (b, e, same) = behind_ok a (collected scan iterate rest) h in
    ap (row a) (collected_ok scan iterate rest e) ∙ ap rows_of (sym same)
collected_ok scan iterate scan_error h = absurd (ground arith)
collected_ok scan iterate broken h = absurd (ground arith)
collected_ok {A} scan iterate end {list} h = let same : [] ≡ list = ground arith in ap rows_of same

queried_ok :
    {A : Type 0} (query scan iterate : Bytes) (r : PgResult (Rows A)) {list : List A}
    → queried query scan iterate r ≡ ok list
    → r ≡ done (rows_of list)
unfolding queried
queried_ok query scan iterate (failed e) h = absurd (ground arith)
queried_ok query scan iterate (done rows) h = ap done (collected_ok scan iterate rows h)

-- The summary holds the answers of the three statements, each carried out in some world, with all
-- rows of the two lists in their order.
pub record IsSummary {W : Type 0} (pg : Postgres W) (url_id : ℕ) (s : StatsSummary) : Type 0 where
  pub total : (w : W) × ((pg.sum_total url_id w).0 ≡ done s.total_clicks)
  pub daily : (w : W) × ((pg.select_daily url_id w).0 ≡ done (rows_of s.daily))
  pub referrers : (w : W) × ((pg.select_referrers url_id w).0 ≡ done (rows_of s.top_referrers))

module _ {W : Type 0} (pg : Postgres W) where
  with_referrers_ok :
      (total : ℕ) (daily : List DailyCount) (r : Result (List ReferrerCount)) {s : StatsSummary}
      → with_referrers total daily r ≡ ok s
      → (total ≡ s.total_clicks) × (daily ≡ s.daily) × (r ≡ ok s.top_referrers)
  unfolding with_referrers
  with_referrers_ok total daily (err e) h = absurd (ground arith)
  with_referrers_ok total daily (ok refs) h = ground arith

  with_daily_ok :
      (url_id total : ℕ) (r : Result (List DailyCount)) (w : W) {s : StatsSummary}
      → (with_daily pg url_id total r w).0 ≡ ok s
      → (total ≡ s.total_clicks)
        × (r ≡ ok s.daily)
        × ((pg.select_referrers url_id w).0 ≡ done (rows_of s.top_referrers))
  unfolding with_daily
  with_daily_ok url_id total (err e) w h = absurd (ground arith)
  with_daily_ok url_id total (ok daily) w h =
      let (t, d, r) = with_referrers_ok total daily _ h in (t, ap ok d, queried_ok _ _ _ _ r)

  with_total_ok :
      (url_id : ℕ) (r : PgResult ℕ) (w : W) {s : StatsSummary}
      → (with_total pg url_id r w).0 ≡ ok s
      → (r ≡ done s.total_clicks)
        × ((pg.select_daily url_id w).0 ≡ done (rows_of s.daily))
        × ((w' : W) × ((pg.select_referrers url_id w').0 ≡ done (rows_of s.top_referrers)))
  unfolding with_total
  with_total_ok url_id (failed e) w h = absurd (ground arith)
  with_total_ok url_id (done total) w h =
      let (t, d, r) = with_daily_ok url_id total _ _ h in
      (ap done t, queried_ok _ _ _ _ d, ((pg.select_daily url_id w).1, r))

  -- When StatsByURLID succeeds, its summary is the sum that PostgreSQL gave, and all the rows of the
  -- two lists, in their order: no row is lost to an error of the iteration.
  pub stats_by_url_id_ok :
      (url_id : ℕ) (w : W) (s : StatsSummary)
      → (stats_by_url_id pg url_id w).0 ≡ ok s
      → IsSummary pg url_id s
  unfolding stats_by_url_id
  stats_by_url_id_ok url_id w s h =
      let (t, d, r) = with_total_ok url_id _ _ h in
      record { total = (w, t); daily = ((pg.sum_total url_id w).1, d); referrers = r }
