-- ===== src/Router/Mux.antt =====
-- What the router relies on of github.com/go-chi/chi: fixed patterns win over parameters, and a
-- parameter takes the text up to the next slash.
use url_shortener.Common.{
  ℕ, ◌≡◌, ◌≢◌, ◌&&◌, not, Bool, true, Bytes, codes, List, [], ◌∷◌, ◌++◌, text_eq, ◌==◌,
}
use url_shortener.Router.{Target, Entry, handle, under, Match, matched}

-- The byte does not occur.
unfoldable pub is_without : ℕ → Bytes → Bool
is_without b [] = true
is_without b (c ∷ s) = not (c == b) && is_without b s

-- A pattern without parameters and wildcards.
unfoldable pub is_literal : Bytes → Bool
unfolding is_without
is_literal pattern = is_without b'{' pattern && is_without b'*' pattern

-- The entry is not for this very path, read as a literal pattern; a group is also reached with a
-- slash behind its prefix.
unfoldable pub is_elsewhere : Bytes → Entry → Bool
unfolding text_eq
is_elsewhere path (handle m pattern t) = not (text_eq pattern path)
is_elsewhere path (under prefix group) =
    not (text_eq prefix path) && not (text_eq (prefix ++ codes "/") path)

-- The entry has a literal pattern and is for other paths.
unfoldable pub is_apart : Bytes → Entry → Bool
unfolding is_literal is_elsewhere text_eq
is_apart path (handle m pattern t) = is_literal pattern && is_elsewhere path (handle m pattern t)
is_apart path (under prefix group) =
    is_literal prefix
    && (not (text_eq prefix [])
        && (not (text_eq prefix (codes "/")) && is_elsewhere path (under prefix group)))

unfoldable pub are_all : (Entry → Bool) → List Entry → Bool
are_all f [] = true
are_all f (e ∷ rest) = f e && are_all f rest

-- The table contains the entry, and `f` holds of all other entries.
pub record Registers (es : List Entry) (e : Entry) (f : Entry → Bool) : Type 0 where
  pub before : List Entry
  pub behind : List Entry
  pub split : es ≡ before ++ (e ∷ behind)
  pub earlier : are_all f before ≡ true
  pub later : are_all f behind ≡ true

pub record MuxLaws (lookup : List Entry → Bytes → Bytes → Match) : Type 0 where
  pub fixed :
      (es : List Entry) (m path : Bytes) (t : Target)
      → Registers es (handle m path t) (is_elsewhere path)
      → is_literal path ≡ true
      → lookup es m path ≡ matched t []
  pub captured :
      (es : List Entry) (m code : Bytes) (t : Target)
      → Registers es (handle m (codes "/{code}") t) (is_apart (codes "/" ++ code))
      → code ≢ []
      → is_without b'/' code ≡ true
      → lookup es m (codes "/" ++ code) ≡ matched t code
