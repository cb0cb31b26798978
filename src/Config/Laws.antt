-- ===== src/Config/Laws.antt =====
-- What Load gives.
use mathlib.Core.Path.{subst}
use url_shortener.Common.{
  ℕ, ◌-◌, ◌%◌, ◌^◌, ◌<◌, ◌≡◌, ◌≢◌, ◌↔◌, inl, inr, refl, sym, ◌∙◌, true, false, Bool-cases, Bytes,
  codes, [], Option, text_eq, text_eq_iff, text_eq→eq, ltb, arith,
}
use url_shortener.Common.Int64.{ℤ, pos, negsuc}
use url_shortener.Errors.{ok}
use url_shortener.Config.{
  Environment, Config, signed32, to_int32, get_env, get_int, config_of, load,
}

-- The integers of an int32.
abbrev pub InInt32 : ℤ → Type 0
InInt32 (pos n) = n < 2 ^ 31
InInt32 (negsuc n) = n < 2 ^ 31

signed32-InInt32 : (w : ℕ) → w < 2 ^ 32 → InInt32 (signed32 w)
unfolding signed32
signed32-InInt32 w h = elim (Bool-cases (ltb w (2 ^ 31))) [
  | inl e ↦ rw e (ground arith)
  | inr e ↦ rw e (ground arith)
]

to_int32-InInt32 : (z : ℤ) → InInt32 (to_int32 z)
unfolding to_int32
to_int32-InInt32 (pos n) = signed32-InInt32 (n % 2 ^ 32) (omega arith)
to_int32-InInt32 (negsuc n) = signed32-InInt32 (2 ^ 32 - 1 - n % 2 ^ 32) (omega arith)

to_int32_small : (z : ℤ) → InInt32 z → to_int32 z ≡ z
unfolding to_int32 signed32
to_int32_small (pos n) h =
    let e : n % 2 ^ 32 ≡ n = omega arith in
    let s : ltb n (2 ^ 31) ≡ true = ground arith in rw (e, s) refl
to_int32_small (negsuc n) h =
    let e : n % 2 ^ 32 ≡ n = omega arith in
    let s : ltb (2 ^ 32 - 1 - n) (2 ^ 31) ≡ false = ground arith in
    let t : 2 ^ 32 - 1 - (2 ^ 32 - 1 - n) ≡ n = omega arith in rw (e, s, t) refl

InInt32-of : (z : ℤ) → to_int32 z ≡ z → InInt32 z
InInt32-of z h = subst InInt32 h (to_int32-InInt32 z)

-- What the programs rely on: no text is empty but the address of Redis, and the limit of the pool is
-- the number of the environment exactly when that is an int32.
pub record IsUsable (env : Environment) (cfg : Config) : Type 0 where
  pub database : cfg.database_url ≡ env (codes "DATABASE_URL")
  pub has_database : cfg.database_url ≢ []
  pub has_port : cfg.app_port ≢ []
  pub has_base : cfg.base_url ≢ []
  pub has_prefix : cfg.redis_key_prefix ≢ []
  pub has_stream : cfg.redis_stream ≢ []
  pub has_metrics : cfg.metrics_addr ≢ []
  pub conns : InInt32 cfg.pg_max_conns
  pub conns_exact :
      (cfg.pg_max_conns ≡ get_int env (codes "PG_MAX_CONNS") (pos 0))
      ↔ InInt32 (get_int env (codes "PG_MAX_CONNS") (pos 0))

module _ (env : Environment) (parse : Bytes → Option ℤ) where
  get_env_inhabited : (key fallback : Bytes) → fallback ≢ [] → get_env env key fallback ≢ []
  unfolding get_env
  get_env_inhabited key fallback h = elim (Bool-cases (text_eq (env key) [])) [
    | inl e ↦ rw e h
    | inr e ↦ rw e (λ x. absurd (ground (arith, text_eq_iff (env key) [])))
  ]

  config-IsUsable : env (codes "DATABASE_URL") ≢ [] → IsUsable env (config_of env parse)
  unfolding config_of
  config-IsUsable h = record {
    database = refl;
    has_database = h;
    has_port = get_env_inhabited (codes "APP_PORT") (codes "8080") (λ e. absurd (ground arith));
    has_base =
        get_env_inhabited (codes "BASE_URL") (codes "http://localhost:8080")
          (λ e. absurd (ground arith));
    has_prefix =
        get_env_inhabited (codes "REDIS_KEY_PREFIX") (codes "us:") (λ e. absurd (ground arith));
    has_stream =
        get_env_inhabited (codes "REDIS_STREAM") (codes "us:events") (λ e. absurd (ground arith));
    has_metrics =
        get_env_inhabited (codes "METRICS_ADDR") (codes ":8081") (λ e. absurd (ground arith));
    conns = to_int32-InInt32 (get_int env (codes "PG_MAX_CONNS") (pos 0));
    conns_exact = (
      InInt32-of (get_int env (codes "PG_MAX_CONNS") (pos 0)),
      to_int32_small (get_int env (codes "PG_MAX_CONNS") (pos 0)),
    );
  }

  ok-inj : {a b : Config} → ok a ≡ ok b → a ≡ b
  ok-inj h = ground arith

  -- Load succeeds exactly if DATABASE_URL is set and not empty, whatever else the environment holds,
  -- also where a number or a duration cannot be read. Its configuration then has that URL, no empty
  -- port, base URL, key prefix, stream or metrics address, and a limit of connections which is an
  -- int32 and is the number of PG_MAX_CONNS exactly if that number is an int32.
  pub load_iff :
      (((cfg : Config) × (load env parse ≡ ok cfg)) ↔ (env (codes "DATABASE_URL") ≢ []))
      × ((cfg : Config) → load env parse ≡ ok cfg → IsUsable env cfg)
  unfolding load config_of
  load_iff =
      ((λ (cfg, h) e. absurd (refused cfg h e), λ h. (config_of env parse, loaded h)), usable)
    where
      named : env (codes "DATABASE_URL") ≡ [] → text_eq (env (codes "DATABASE_URL")) [] ≡ true
      named e = (text_eq_iff _ []).1 e

      loaded : env (codes "DATABASE_URL") ≢ [] → load env parse ≡ ok (config_of env parse)
      loaded h = elim (Bool-cases (text_eq (env (codes "DATABASE_URL")) [])) [
        | inl e ↦ absurd (h (text_eq→eq _ _ e))
        | inr e ↦ rw e refl
      ]

      refused : (cfg : Config) → load env parse ≡ ok cfg → env (codes "DATABASE_URL") ≡ [] → ⊥
      refused cfg h e = absurd (let k = rw (named e) at h in ground arith)

      usable : (cfg : Config) → load env parse ≡ ok cfg → IsUsable env cfg
      usable cfg h =
          let set : env (codes "DATABASE_URL") ≢ [] = refused cfg h in
          let same : config_of env parse ≡ cfg = ok-inj (sym (loaded set) ∙ h) in
          subst (IsUsable env) same (config-IsUsable set)
