-- ===== src/World.antt =====
-- What surrounds the program: an abstract world `W`, actions on it, and what can be seen of it.
pub mod Platform
pub mod Redis
pub mod Postgres
pub mod Analytics
use url_shortener.Common.{ℕ, ◌≤◌, ◌≡◌, Option, some, refl, Bytes, arith, ◌∙◌}
use url_shortener.Model.{Url}

-- A call that may read and change the world.
abbrev pub Action : Type 0 → Type 0 → Type 0
Action W A = W → A × W

module _ {W A : Type 0} where
  abbrev pub pure : A → Action W A
  pure a w = (a, w)

  abbrev pub result : Action W A → W → A
  result m w = (m w).0

  abbrev pub after : Action W A → W → W
  after m w = (m w).1

infixl 5 ◌>>=◌ ◌>>◌
abbrev pub ◌>>=◌ : {W A B : Type 0} → Action W A → (A → Action W B) → Action W B
◌>>=◌ m f w = f (m w).0 (m w).1

abbrev pub ◌>>◌ : {W A B : Type 0} → Action W A → Action W B → Action W B
m >> k = m >>= λ _. k

-- A row of `urls` whose code is still NULL.
pub record Draft : Type 0 where
  pub long_url : Bytes
  pub expires_at : Option ℕ
  pub created_at : ℕ

-- What can be seen of a world: the clock, the live Redis keys with their values, the rows of `urls`
-- by their code, and the rows without a code by their id.
pub record View (W : Type 0) : Type 0 where
  pub time : W → ℕ
  pub live : W → Bytes → Option Bytes
  pub coded : W → Bytes → Option Url
  pub draft : W → ℕ → Option Draft

-- From `w` to `w'` time passes, Redis keys may expire, and nothing is written.
pub record Quiet {W : Type 0} (v : View W) (w w' : W) : Type 0 where
  pub later : v.time w ≤ v.time w'
  pub fades : (k x : Bytes) → v.live w' k ≡ some x → v.live w k ≡ some x
  pub same_coded : (c : Bytes) → v.coded w' c ≡ v.coded w c
  pub same_draft : (i : ℕ) → v.draft w' i ≡ v.draft w i

module _ {W : Type 0} {v : View W} where
  pub Quiet-refl : (w : W) → Quiet v w w
  Quiet-refl w = record {
    later = omega arith;
    fades = λ k x h. h;
    same_coded = λ c. refl;
    same_draft = λ i. refl;
  }

  pub Quiet-trans : {a b c : W} → Quiet v a b → Quiet v b c → Quiet v a c
  Quiet-trans p q = record {
    later = let l = p.later in let m = q.later in omega arith;
    fades = λ k x h. p.fades k x (q.fades k x h);
    same_coded = λ c. q.same_coded c ∙ p.same_coded c;
    same_draft = λ i. q.same_draft i ∙ p.same_draft i;
  }
