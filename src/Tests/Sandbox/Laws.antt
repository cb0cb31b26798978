-- ===== src/Tests/Sandbox/Laws.antt =====
-- The sandbox keeps every law that the program relies on.
use url_shortener.Common.{
  ℕ, suc, ◌≡◌, ◌≢◌, ◌⊎◌, inl, inr, refl, sym, ◌∙◌, ap, true, false, Bytes, List, [], ◌∷◌, Option,
  none, some, text_eq, text_eq_iff, text_eq_refl, arith, Bool-cases, ◌==◌, some_inj,
}
use url_shortener.Model.{Url}
use url_shortener.World.{Draft, Quiet-refl}
use url_shortener.World.Platform.{PlatformLaws}
use url_shortener.World.Redis.{RedisLaws, reply, Writes}
use url_shortener.World.Postgres.{
  PostgresLaws, pg_error, no_rows, done, failed, micros, Adds, Gains,
}
use url_shortener.Service.Create.Keeps.{Adds-refl}
use url_shortener.Tests.Sandbox.{
  Sand, find, remove, view, platform, redis, postgres, put, put_new, got, add_row, give_code,
  selected, counted,
}
use url_shortener.Tests.Sandbox.Codec.{unmarshal-marshal}

pub sand-PlatformLaws : PlatformLaws view platform
sand-PlatformLaws = record {
  now_quiet = λ w. Quiet-refl w;
  now_later = λ w. omega arith;
  now_earlier = λ w. omega arith;
  sleep_quiet = λ d w. record {
    later = omega arith;
    fades = λ k x h. h;
    same_coded = λ c. refl;
    same_draft = λ i. refl;
  };
  done_quiet = λ w. Quiet-refl w;
  inc_quiet = λ c w. Quiet-refl w;
  unmarshal-marshal = unmarshal-marshal;
}

put_fades :
    (k x j y : Bytes) (w : Sand)
    → (put k (some x) w).keys j ≡ some y
    → (w.keys j ≡ some y) ⊎ ((j ≡ k) × (y ≡ x))
put_fades k x j y w h = elim (Bool-cases (text_eq k j)) [
  | inl e ↦ inr (sym ((text_eq_iff k j).0 e), sym (some_inj (rw e at h)))
  | inr e ↦ inl (rw e at h)
]

put-Writes : (k x : Bytes) (w : Sand) → Writes view k x w (put k (some x) w)
put-Writes k x w = record {
  later = omega arith;
  fades = λ j y h. put_fades k x j y w h;
  same_coded = λ c. refl;
  same_draft = λ i. refl;
}

put_new-Writes : (k x : Bytes) (o : Option Bytes) (w : Sand) → Writes view k x w (put_new k x o w).1
put_new-Writes k x none w = put-Writes k x w
put_new-Writes k x (some old) w = record {
  later = omega arith;
  fades = λ j y h. inl h;
  same_coded = λ c. refl;
  same_draft = λ i. refl;
}

del_fades : (k j y : Bytes) (w : Sand) → (put k none w).keys j ≡ some y → w.keys j ≡ some y
del_fades k j y w h = elim (Bool-cases (text_eq k j)) [
  | inl e ↦ absurd (let z : none ≡ some y = (rw e at h) in ground arith)
  | inr e ↦ rw e at h
]

got_live : (o : Option Bytes) (x : Bytes) → got o ≡ reply x → o ≡ some x
got_live none x h = absurd (ground arith)
got_live (some y) x h = ground arith

pub sand-RedisLaws : RedisLaws view redis
sand-RedisLaws = record {
  get_quiet = λ k w. Quiet-refl w;
  get_live = λ k w x h. got_live _ x h;
  set_writes = λ k x d w. put-Writes k x w;
  set_nx_writes = λ k x d w. put_new-Writes k x (w.keys k) w;
  del_quiet = λ k w. record {
    later = omega arith;
    fades = λ j y h. del_fades k j y w h;
    same_coded = λ c. refl;
    same_draft = λ i. refl;
  };
  del_gone = λ k w h. rw text_eq_refl refl;
}

find_code : (us : List Url) (c : Bytes) (u : Url) → find c us ≡ some u → u.code ≡ c
unfolding find
find_code [] c u h = absurd (ground arith)
find_code (x ∷ us) c u h = elim (Bool-cases (text_eq x.code c)) [
  | inl e ↦
      let same : x ≡ u = some_inj (rw e at h) in
      sym (ap (λ (y : Url). y.code) same) ∙ (text_eq_iff x.code c).0 e
  | inr e ↦ find_code us c u (rw e at h)
]

find-remove : (us : List Url) (c d : Bytes) → text_eq c d ≡ false → find d (remove c us) ≡ find d us
unfolding find remove
find-remove [] c d h = refl
find-remove (x ∷ us) c d h = elim (Bool-cases (text_eq x.code c)) [
  | inl e ↦
      let miss : text_eq x.code d ≡ false =
        ap (λ y. text_eq y d) ((text_eq_iff x.code c).0 e) ∙ h in
      rw (e, miss) (find-remove us c d h)
  | inr e ↦ elim (Bool-cases (text_eq x.code d)) [
    | inl y ↦ rw (e, y) refl
    | inr y ↦ rw (e, y) (find-remove us c d h)
  ]
]

find-removed : (us : List Url) (c : Bytes) → find c (remove c us) ≡ none
unfolding find remove
find-removed [] c = refl
find-removed (x ∷ us) c = elim (Bool-cases (text_eq x.code c)) [
  | inl e ↦ rw e (find-removed us c)
  | inr e ↦ rw (e, e) (find-removed us c)
]

selected_done : (o : Option Url) (u : Url) → selected o ≡ done u → o ≡ some u
selected_done none u h = absurd (ground arith)
selected_done (some x) u h = ground arith

selected-none : (o : Option Url) → selected o ≡ failed no_rows → o ≡ none
selected-none none h = refl
selected-none (some x) h = absurd (ground arith)

counted-none : (o : Option Url) → counted o ≡ done 0 → o ≡ none
counted-none none h = refl
counted-none (some x) h = absurd (ground arith)

counted_some : (o : Option Url) (n : ℕ) → counted o ≡ done (suc n) → o ≢ none
counted_some none n h = absurd (ground arith)
counted_some (some x) n h = λ e. absurd (ground arith)

add_row-Adds :
    (c l : Bytes) (e : Option ℕ) (w : Sand) (o : Option Url)
    → find c w.rows ≡ o
    → Adds view w (add_row c l e o w).1
unfolding find
add_row-Adds c l e w (some old) h = Adds-refl w
add_row-Adds c l e w none h = record {
  later = omega arith;
  fades = λ k x h. h;
  keeps = λ d u k. elim (Bool-cases (text_eq c d)) [
    | inl y ↦ absurd (
        let z : none ≡ some u = sym h ∙ ap (λ x. find x w.rows) ((text_eq_iff c d).0 y) ∙ k in
        ground arith)
    | inr y ↦ rw y k
  ];
}

add_row_done :
    (c l : Bytes) (e : Option ℕ) (w : Sand) (o : Option Url) (id : ℕ)
    → find c w.rows ≡ o
    → (add_row c l e o w).0 ≡ done id
    → (t : ℕ) × Gains view
        (record { id = id; code = c; long_url = l; expires_at = micros e; created_at = t })
        w
        (add_row c l e o w).1
unfolding find
add_row_done c l e w (some old) id h k = absurd (ground arith)
add_row_done c l e w none id h k =
    let same : w.next ≡ id = ground arith in
    (w.time, rw (← same) (record { was_free = h; coded = λ d. refl }))

add_row_refused :
    (c l : Bytes) (e : Option ℕ) (w : Sand) (o : Option Url) (state : Bytes)
    → (add_row c l e o w).0 ≡ failed (pg_error state)
    → (d : Bytes) → find d (add_row c l e o w).1.rows ≡ find d w.rows
add_row_refused c l e w (some old) state h d = refl
add_row_refused c l e w none state h d = absurd (ground arith)

give-Adds :
    (c : Bytes) (id : ℕ) (w : Sand) (m : Option Draft) (o : Option Url)
    → find c w.rows ≡ o
    → Adds view w (give_code c id m o w).1
unfolding find
give-Adds c id w none o h = Adds-refl w
give-Adds c id w (some d) (some old) h = Adds-refl w
give-Adds c id w (some d) none h = record {
  later = omega arith;
  fades = λ k x h. h;
  keeps = λ j u k. elim (Bool-cases (text_eq c j)) [
    | inl y ↦ absurd (
        let z : none ≡ some u = sym h ∙ ap (λ x. find x w.rows) ((text_eq_iff c j).0 y) ∙ k in
        ground arith)
    | inr y ↦ rw y k
  ];
}

give_done :
    (c : Bytes) (id : ℕ) (w : Sand) (d : Draft) (m : Option Draft) (o : Option Url) (n : ℕ)
    → m ≡ some d
    → find c w.rows ≡ o
    → (give_code c id m o w).0 ≡ done (suc n)
    → Gains view
        (record {
          id = id;
          code = c;
          long_url = d.long_url;
          expires_at = d.expires_at;
          created_at = d.created_at;
        })
        w
        (give_code c id m o w).1
unfolding find
give_done c id w d none o n e h k = absurd (ground arith)
give_done c id w d (some d') (some old) n e h k = absurd (ground arith)
give_done c id w d (some d') none n e h k =
    let same : d' ≡ d = some_inj e in rw (← same) (record { was_free = h; coded = λ d. refl })

pub sand-PostgresLaws : PostgresLaws view postgres
sand-PostgresLaws = record {
  code_found = λ w c u h. find_code w.rows c u h;
  select_quiet = λ c w. Quiet-refl w;
  select_done = λ c w u h. selected_done _ u h;
  select_no_rows = λ c w h. selected-none _ h;
  insert_adds = λ l e w. record { later = omega arith; fades = λ k x h. h; keeps = λ c u h. h };
  insert_done = λ l e w id h.
      let same : w.next ≡ id = ground arith in (w.time, rw (← same, own w.next) refl, λ c. refl);
  insert_code_adds = λ c l e w. add_row-Adds c l e w _ refl;
  insert_code_done = λ c l e w id h. add_row_done c l e w _ id refl h;
  insert_code_refused = λ c l e w state h. add_row_refused c l e w _ state h;
  update_adds = λ c id w d h. give-Adds c id w _ _ refl;
  update_done = λ c id w d n h k. give_done c id w d _ _ n h refl k;
  delete_drops = λ c w. record {
    later = omega arith;
    fades = λ k x h. h;
    others = λ d h. find-remove w.rows c d h;
  };
  delete_done = λ c w n h. find-removed w.rows c;
  delete_some = λ c w n h. counted_some _ n h;
  delete_none = λ c w h. counted-none _ h;
}
  where
    own : (n : ℕ) → (n == n) ≡ true
    own n = ground arith
