-- ===== src/Middleware/Identified.antt =====
-- The request id in the responses, for handlers that leave this field of the header alone.
use url_shortener.Common.{
  ℕ, ◌≡◌, ◌⊎◌, inl, inr, refl, ◌∙◌, true, false, Bool-cases, Bytes, [], Option, none, some, text_eq,
}
use url_shortener.World.Platform.{Platform}
use url_shortener.Web.{
  Header, HttpRequest, Sent, Writer, set_field, set_header, send, write_header, finish, Ending,
  returned, panics, Handler,
}
use url_shortener.Middleware.{Surroundings, request_id_header, stack}
use url_shortener.Middleware.Stack.{IsRequestId, IsFilling, prepared, Ended, stack_exact}

-- What has gone out has `v` in this field.
abbrev pub IsSentWith : Bytes → Option Sent → Type 0
IsSentWith v none = Unit {0}
IsSentWith v (some s) = s.header request_id_header ≡ v

sent_as : {u v : Bytes} (o : Option Sent) → u ≡ v → IsSentWith u o → IsSentWith v o
sent_as o e h = rw (← e) h

-- From `w` to `w'` the field has kept its value, and what has gone out in between has it.
pub record KeepsId (w w' : Writer) : Type 0 where
  pub header : w'.header request_id_header ≡ w.header request_id_header
  pub sent : w.sent ≡ none → IsSentWith (w.header request_id_header) w'.sent

abbrev pub IsPolite : {W : Type 0} → Handler W → Type 0
IsPolite {W} h =
    (ctx : Option Bytes) (r : HttpRequest) (w : Writer) (x : W) → KeepsId w (h ctx r w x).0.1

abbrev pub new_writer : Writer
new_writer = record { header = λ n. []; sent = none; status = 0 }

-- The client gets a response with this request id.
pub record HasId (id : Bytes) (o : Option Sent) : Type 0 where
  pub response : Sent
  pub sent : o ≡ some response
  pub carries : response.header request_id_header ≡ id

send-HasId :
    (code : ℕ) (header : Header) (id : Bytes) (o : Option Sent)
    → header request_id_header ≡ id
    → IsSentWith id o
    → HasId id (send code header o)
unfolding send
send-HasId code header id none e h = record { response = _; sent = refl; carries = e }
send-HasId code header id (some s) e h = record { response = s; sent = refl; carries = h }

resend-HasId :
    (code : ℕ) (header : Header) (id : Bytes) (o : Option Sent)
    → HasId id o
    → HasId id (send code header o)
unfolding send
resend-HasId code header id o h =
    rw h.sent (record { response = h.response; sent = refl; carries = h.carries })

-- The writer that the handler gets carries the id, and nothing has gone out.
prepared_lem :
    (instance id : Bytes)
    → ((prepared instance id new_writer).header request_id_header ≡ id)
      × ((prepared instance id new_writer).sent ≡ none)
unfolding set_header set_field text_eq
prepared_lem instance id = elim (Bool-cases (text_eq instance [])) [
  | inl e ↦ rw e (refl, refl)
  | inr e ↦ rw e (refl, refl)
]

module _ {W : Type 0} (p : Platform W) (env : Surroundings W) (filling : IsFilling env) where
  -- The handler aborted, or the client gets a response with this id.
  abbrev pub IsIdentified : Bytes → (Ending × Writer) × W → Type 0
  IsIdentified id out = (out.0.0 ≡ panics true) ⊎ HasId id (finish out.0.1)

  ended-IsIdentified :
      (id : Bytes) (r : HttpRequest) (e : Ending) (wr : Writer) (y : W)
      (out : (Ending × Writer) × W)
      → wr.header request_id_header ≡ id
      → IsSentWith id wr.sent
      → Ended p env filling r ((e, wr), y) out
      → IsIdentified id out
  unfolding finish write_header
  ended-IsIdentified id r returned wr y out a b q =
      inr (rw q (send-HasId 200 wr.header id wr.sent a b))
  ended-IsIdentified id r (panics true) wr y out a b q = inl (rw q refl)
  ended-IsIdentified id r (panics false) wr y out a b q =
      inr (rw q (resend-HasId 200 wr.header id _ (send-HasId 500 wr.header id wr.sent a b)))

  -- Every response to a request, also to one whose handler panics, carries a request id of 1 to 128
  -- bytes in its header, and the client's own if that has such a length; unless the handler aborts
  -- the response.
  pub stack-IsIdentified :
      (instance : Bytes) (h : Handler W) (r : HttpRequest) (x : W)
      → IsPolite h
      → (id : Bytes) × (IsRequestId id
          × ((IsRequestId (r.header request_id_header) → id ≡ r.header request_id_header)
              × IsIdentified id (stack p env instance h none r new_writer x)))
  stack-IsIdentified instance h r x polite =
      let s = stack_exact p env filling instance h r new_writer x in
      let (a, b) = prepared_lem instance s.id in
      let k = polite (some s.id) r (prepared instance s.id new_writer) s.at in
      (
        s.id,
        (
          s.valid,
          (
            s.own,
            ended-IsIdentified s.id r _ _ _ _ (k.header ∙ a) (sent_as _ a (k.sent b)) s.ended,
          ),
        ),
      )
