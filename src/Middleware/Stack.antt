-- ===== src/Middleware/Stack.antt =====
-- What a request and its response go through between net/http and a handler.
use url_shortener.Common.{
  ℕ, ◌*◌, ◌≤◌, ◌≡◌, inl, inr, refl, true, false, Bool-cases, Bytes, codes, [], ◌∷◌, Option, none,
  some, length, text_eq, if◌then◌else◌, arith,
}
use url_shortener.World.Platform.{Platform}
use url_shortener.Web.{
  HttpRequest, Writer, set_header, write_header, Ending, returned, panics, Handler,
}
use url_shortener.Middleware.{
  panicked, Surroundings, request_id_header, request_id_from, valid_request_id, hex, encoded,
  instance_id, new_request_id, chosen_id, request_id, recovered, recoverer, logged, request_logger,
  observed, metrics, stack,
}

-- 1 to 128 bytes
abbrev pub IsRequestId : Bytes → Type 0
IsRequestId id = (1 ≤ length id) × (length id ≤ 128)

-- rand.Read fills the whole buffer of 16 bytes.
abbrev pub IsFilling : {W : Type 0} → Surroundings W → Type 0
IsFilling {W} env = (w : W) (buf : Bytes) → (env.random w).0 ≡ some buf → length buf ≡ 16

length-hex : (s : Bytes) → length (hex s) ≡ 2 * length s
unfolding hex
length-hex [] = refl
length-hex (b ∷ rest) = let e = length-hex rest in omega arith

encoded-IsRequestId :
    (o : Option Bytes) → ((buf : Bytes) → o ≡ some buf → length buf ≡ 16) → IsRequestId (encoded o)
unfolding encoded
encoded-IsRequestId none h = (omega arith, omega arith)
encoded-IsRequestId (some buf) h =
    let e = length-hex buf in let f = h buf refl in (omega arith, omega arith)

valid_sound : (id : Bytes) → valid_request_id id ≡ true → IsRequestId id
unfolding valid_request_id
valid_sound id h = (ground arith, ground arith)

-- The writer as the handler gets it.
abbrev pub prepared : Bytes → Bytes → Writer → Writer
unfolding set_header
prepared instance id w =
    let named = if text_eq instance [] then w else set_header (codes "X-Instance") instance w in
    let stamped = set_header request_id_header id named in
    record { header = stamped.header; sent = stamped.sent; status = 200 }

module _ {W : Type 0} (p : Platform W) (env : Surroundings W) (filling : IsFilling env) where
  -- How the middleware passes on the end of a handler.
  abbrev pub Ended : HttpRequest → (Ending × Writer) × W → (Ending × Writer) × W → Type 0
  Ended r ((returned, w), y) out = out.0 ≡ (returned, w)
  Ended r ((panics true, w), y) out = out ≡ ((panics true, w), y)
  Ended r ((panics false, w), y) out =
      out ≡ ((returned, write_header 500 w), (env.log (panicked [] r.method r.path) y).1)

  -- The handler ran with the request id `id`, from the world `at`.
  pub record HasServed (instance : Bytes) (h : Handler W) (r : HttpRequest) (w : Writer)
      (out : (Ending × Writer) × W) : Type 0 where
    pub id : Bytes
    pub at : W
    pub valid : IsRequestId id
    pub own : IsRequestId (r.header request_id_header) → id ≡ r.header request_id_header
    pub ended : Ended r (h (some id) r (prepared instance id w) at) out

  chosen_lem :
      (id : Bytes) (w : W)
      → IsRequestId (chosen_id p env id w).0 × (IsRequestId id → (chosen_id p env id w).0 ≡ id)
  unfolding chosen_id new_request_id valid_request_id
  chosen_lem id w = elim (Bool-cases (valid_request_id id)) [
    | inl e ↦ rw (e, chosen_id) (valid_sound id e, λ h. refl)
    | inr e ↦
        rw (e, chosen_id)
          (encoded-IsRequestId (env.random w).0 (filling w), λ h. absurd (ground arith))
  ]

  ended_lem :
      (id : Bytes) (r : HttpRequest) (s s' : ℕ) (e : Ending) (wr : Writer) (y : W)
      → Ended r
          ((e, wr), y)
          (let o = observed p env s' (e, wr) y in
            let l = logged p env (some id) r s o.0 o.1 in recovered p env none r l.0 l.1)
  unfolding observed logged recovered request_id_from
  ended_lem id r s s' returned wr y = refl
  ended_lem id r s s' (panics true) wr y = refl
  ended_lem id r s s' (panics false) wr y = refl

  inner_lem :
      (h : Handler W) (r : HttpRequest) (w : Writer) (x : W)
      → (let id = (chosen_id p env (r.header request_id_header) x).0 in
          let y = (p.now (p.now (chosen_id p env (r.header request_id_header) x).1).1).1 in
          let u = set_header request_id_header id w in
          Ended r (h (some id) r (record { header = u.header; sent = u.sent; status = 200 }) y) (
            recoverer p env (request_id p env (request_logger p env (metrics p env h))) none r w x))
  unfolding recoverer request_id request_logger metrics
  inner_lem h r w x = ended_lem _ r _ _ _ _ _

  -- A request that comes in with an id of 1 to 128 bytes keeps it, and any other gets one. The
  -- handler runs with it in its context and in the header of the response. When it returns, its
  -- response goes out as it is. When it panics with anything but http.ErrAbortHandler, the response
  -- is finished with 500, and the line that is logged has an empty request id.
  pub stack_exact :
      (instance : Bytes) (h : Handler W) (r : HttpRequest) (w : Writer) (x : W)
      → HasServed instance h r w (stack p env instance h none r w x)
  unfolding stack instance_id
  stack_exact instance h r w x =
      let (valid, own) = chosen_lem (r.header request_id_header) x in
      record {
        id = (chosen_id p env (r.header request_id_header) x).0;
        at = (p.now (p.now (chosen_id p env (r.header request_id_header) x).1).1).1;
        valid = valid;
        own = own;
        ended = elim (Bool-cases (text_eq instance [])) [
          | inl e ↦ rw (e, stack) (inner_lem h r w x)
          | inr e ↦ rw (e, stack) (inner_lem h r (set_header (codes "X-Instance") instance w) x)
        ];
      }
