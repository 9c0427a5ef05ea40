-- ===== src/Handler.antt =====
-- internal/handler/handler.go: the middleware and the handler that serves the data of a store.
pub mod Http
pub mod Laws
pub mod Certificate
pub mod Openidmeta
pub mod Workloadidentity
use gardener_discovery_serve.Common.{
  ℕ, Bool, Option, none, some, List, [], ◌∷◌, ◌++◌, Bytes, bytes, ◌==◌, if◌then◌else◌, Map, lookup,
  insert,
}
use Http.{
  Request, ResponseWriter, Handler, path_value, get_header, set_header, write_header, write_body,
}

abbrev pub header_cache_control : Bytes
header_cache_control = bytes "Cache-Control"

abbrev pub pub_cache_control : Bytes
pub_cache_control = bytes "public, max-age=3600"

abbrev pub header_content_type : Bytes
header_content_type = bytes "Content-Type"

abbrev pub mime_app_json : Bytes
mime_app_json = bytes "application/json"

abbrev pub header_hsts : Bytes
header_hsts = bytes "Strict-Transport-Security"

abbrev pub hsts_value : Bytes
hsts_value = bytes "max-age=31536000; includeSubDomains"

abbrev pub response_invalid_uid : Bytes
response_invalid_uid = bytes "{\"code\":400,\"message\":\"invalid UID\"}"

abbrev pub response_method_not_allowed : Bytes
response_method_not_allowed = bytes "{\"code\":405,\"message\":\"method not allowed\"}"

abbrev pub response_not_found : Bytes
response_not_found = bytes "{\"code\":404,\"message\":\"not found\"}"

unfoldable pub set_hsts : Handler → Handler
set_hsts next r w =
    next r (if get_header header_hsts w == [] then set_header header_hsts hsts_value w else w)

-- `methods.Store(m, nil)` for each allowed method
unfoldable pub store_methods : List Bytes → Map (Unit {0}) → Map (Unit {0})
store_methods [] methods = methods
store_methods (m ∷ rest) methods = store_methods rest (insert m tt methods)

-- Content type, status and body of an error.
abbrev reply_error : ℕ → Bytes → Handler
reply_error code body r w =
    write_body body (write_header code (set_header header_content_type mime_app_json w))

abbrev on_loaded : Option (Unit {0}) → Handler → Handler
on_loaded none next = reply_error 405 response_method_not_allowed
on_loaded (some found) next = next

unfoldable pub allow_methods : Handler → List Bytes → Handler
unfolding store_methods
allow_methods next allowed r w = on_loaded (lookup r.method (store_methods allowed [])) next r w

unfoldable pub not_found : Handler
not_found = reply_error 404 response_not_found

abbrev on_read : {T : Type 0} → (T → Bytes) → Option T → Handler
on_read get_content none r w = not_found r w
on_read get_content (some datum) r w = write_body (get_content datum) (
    set_header header_content_type mime_app_json
      (set_header header_cache_control pub_cache_control w))

-- `valid_uuid` is `uuid.Parse` without an error; `read` is the reader's method.
unfoldable pub store_request :
    {T : Type 0} → (Bytes → Bool) → (Bytes → Option T) → (T → Bytes) → Handler
unfolding not_found
store_request valid_uuid read get_content r w =
    let shoot_uid = path_value (bytes "shootUID") r in
    let project_name = path_value (bytes "projectName") r in
    if valid_uuid shoot_uid
    then on_read get_content (read (project_name ++ bytes "--" ++ shoot_uid)) r w
    else reply_error 400 response_invalid_uid r w
