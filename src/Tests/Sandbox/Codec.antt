-- ===== src/Tests/Sandbox/Codec.antt =====
-- A text form of a link that can be read back.
use url_shortener.Common.{
  ℕ, zero, suc, ◌≡◌, refl, Bytes, [], ◌∷◌, ◌++◌, Option, none, some, length, some_inj,
}
use url_shortener.Model.{Url}

abbrev pub cons_first : ℕ → Bytes × Bytes → Bytes × Bytes
cons_first c (a, b) = (c ∷ a, b)

unfoldable pub split : ℕ → Bytes → Bytes × Bytes
split zero s = ([], s)
split (suc n) [] = ([], [])
split (suc n) (c ∷ s) = cons_first c (split n s)

split-append : (a b : Bytes) → split (length a) (a ++ b) ≡ (a, b)
unfolding split
split-append [] b = refl
split-append (c ∷ a) b = rw (split-append a b) refl

abbrev pub texts : Option ℕ → Url → Bytes
texts none u = 0 ∷ 0 ∷ length u.code ∷ (u.code ++ u.long_url)
texts (some x) u = 1 ∷ x ∷ length u.code ∷ (u.code ++ u.long_url)

abbrev pub expiry : ℕ → ℕ → Option ℕ
expiry zero x = none
expiry (suc n) x = some x

abbrev pub link : ℕ → ℕ → Option ℕ → Bytes × Bytes → Url
link id created e (c, l) = record {
  id = id;
  code = c;
  long_url = l;
  expires_at = e;
  created_at = created;
}

unfoldable pub marshal : Url → Option Bytes
marshal u = some (u.id ∷ u.created_at ∷ texts u.expires_at u)

unfoldable pub unmarshal : Bytes → Option Url
unmarshal (id ∷ created ∷ tag ∷ x ∷ n ∷ s) = some (link id created (expiry tag x) (split n s))
unmarshal _ = none

pub unmarshal-marshal : (u : Url) (raw : Bytes) → marshal u ≡ some raw → unmarshal raw ≡ some u
unfolding marshal unmarshal
unmarshal-marshal u raw h =
    rw (← some_inj h) (both u.id u.created_at u.expires_at u.code u.long_url)
  where
    both :
        (id created : ℕ) (e : Option ℕ) (c l : Bytes)
        → unmarshal (id ∷ created ∷ texts e (link id created e (c, l)))
          ≡ some (link id created e (c, l))
    both id created none c l = rw (split-append c l) refl
    both id created (some x) c l = rw (split-append c l) refl
