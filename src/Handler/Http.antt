-- ===== src/Handler/Http.antt =====
-- What the handlers use of `net/http`: a request, and a response writer whose headers are fixed by
-- the first `WriteHeader` or `Write`. Header names are the canonical ones that the code writes.
use gardener_discovery_serve.Common.{
  ℕ, ◌≡◌, arith, Bool, false, Option, none, some, [], ◌++◌, Bytes, bytes, if◌then◌else◌, Map,
  lookup, insert,
}

pub record Request : Type 0 where
  pub method : Bytes
  pub path_values : Map Bytes

-- `status` and `sent` are there once the headers went out; a write to a `broken` connection is an
-- error, which the handlers log.
pub record ResponseWriter : Type 0 where
  pub header : Map Bytes
  pub status : Option ℕ
  pub sent : Map Bytes
  pub body : Bytes
  pub broken : Bool

abbrev pub Handler : Type 0
Handler = Request → ResponseWriter → ResponseWriter

-- `http.MethodGet` and `http.MethodHead`
abbrev pub method_connect : Bytes
method_connect = bytes "CONNECT"

abbrev pub method_get : Bytes
method_get = bytes "GET"

abbrev pub method_head : Bytes
method_head = bytes "HEAD"

abbrev or_empty : Option Bytes → Bytes
or_empty none = []
or_empty (some v) = v

-- `r.PathValue(name)`
unfoldable pub path_value : Bytes → Request → Bytes
path_value name r = or_empty (lookup name r.path_values)

-- `w.Header().Get(name)`
unfoldable pub get_header : Bytes → ResponseWriter → Bytes
get_header name w = or_empty (lookup name w.header)

-- `w.Header().Set(name, value)`
unfoldable pub set_header : Bytes → Bytes → ResponseWriter → ResponseWriter
set_header name value w = record w { header = insert name value w.header }

abbrev on_status : Option ℕ → ℕ → ResponseWriter → ResponseWriter
on_status none code w = record w { status = some code; sent = w.header }
on_status (some old) code w = w

-- `w.WriteHeader(code)`
unfoldable pub write_header : ℕ → ResponseWriter → ResponseWriter
write_header code w = on_status w.status code w

-- `w.Write(b)`: the status is 200 if none was written
unfoldable pub write_body : Bytes → ResponseWriter → ResponseWriter
unfolding write_header
write_body b w =
    let open_w = write_header 200 w in
    if open_w.broken then open_w else record open_w { body = open_w.body ++ b }

abbrev pub fresh : Map Bytes → ResponseWriter
fresh header = record { header = header; status = none; sent = []; body = []; broken = false }

-- The first status and the first body go out with the headers of that moment.
abbrev pub sent_with : ℕ → Bytes → ResponseWriter → ResponseWriter
sent_with code b w = record w { status = some code; sent = w.header; body = b }

module _ (w : ResponseWriter) (b : Bytes) where
  module _ (unsent : w.status ≡ none) (empty : w.body ≡ []) (works : w.broken ≡ false) where
    pub write_body_first : write_body b w ≡ sent_with 200 b w
    unfolding write_body
    write_body_first = ground arith

    pub write_body-write_header :
        (code : ℕ) → write_body b (write_header code w) ≡ sent_with code b w
    unfolding write_body
    write_body-write_header code = ground arith
