-- ===== src/Web.antt =====
-- What the program uses of net/http: requests, the writer of a response, and handlers.
use url_shortener.Common.{ℕ, Bool, Bytes, Option, none, some, text_eq, if◌then◌else◌}
use url_shortener.World.{Action}

-- A set of header fields, by their name; a field that is missing is the empty text, as Header.Get
-- has it.
abbrev pub Header : Type 0
Header = Bytes → Bytes

unfoldable pub set_field : Bytes → Bytes → Header → Header
set_field name value h n = if text_eq name n then value else h n

pub record HttpRequest : Type 0 where
  pub method : Bytes
  pub path : Bytes
  pub header : Header
  pub remote : Bytes

-- A status line and a header that have gone out.
pub record Sent : Type 0 where
  pub status : ℕ
  pub header : Header

-- http.ResponseWriter: the header so far, and what has gone out. `status` is the field of the
-- statusWriter of internal/middleware/logger.go that is put around it.
pub record Writer : Type 0 where
  pub header : Header
  pub sent : Option Sent
  pub status : ℕ

unfoldable pub set_header : Bytes → Bytes → Writer → Writer
unfolding set_field
set_header name value w = record {
  header = set_field name value w.header;
  sent = w.sent;
  status = w.status;
}

-- Only the first status goes out.
unfoldable pub send : ℕ → Header → Option Sent → Option Sent
send code h none = some (record { status = code; header = h })
send code h (some s) = some s

-- WriteHeader, through the statusWriter
unfoldable pub write_header : ℕ → Writer → Writer
unfolding send
write_header code w = record { header = w.header; sent = send code w.header w.sent; status = code }

-- What the client gets when the handlers have returned: 200 where no status was written.
unfoldable pub finish : Writer → Option Sent
unfolding send
finish w = send 200 w.header w.sent

-- How a handler ends: it returns, or it panics, with http.ErrAbortHandler or with something else.
pub data Ending : Type 0 where
  returned : Ending
  panics : Bool → Ending

-- A handler gets the value of the request id in its context, the request and the writer.
abbrev pub Handler : Type 0 → Type 0
Handler W = Option Bytes → HttpRequest → Writer → Action W (Ending × Writer)
