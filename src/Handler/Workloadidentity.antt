-- ===== src/Handler/Workloadidentity.antt =====
-- internal/handler/workloadidentity/handler.go: the documents of the garden's own issuer, checked
-- once when the handler is made.
pub mod Accepts
pub mod Serves
use gardener_discovery_serve.Common.{
  Bool, not, Option, none, some, List, [], ◌∷◌, Bytes, bytes, ◌==◌, if◌then◌else◌,
}
use gardener_discovery_serve.Common.Results.{Result, ok, err, ◌>>=◌, ◌>>◌, wrap, require}
use gardener_discovery_serve.Utils.Load.{Jose, LoadError, load_key_set, load_open_id_config}
use gardener_discovery_serve.Handler.{
  header_cache_control, pub_cache_control, header_content_type, mime_app_json, set_hsts,
  allow_methods,
}
use gardener_discovery_serve.Handler.Http.{
  Request, Handler, method_get, method_head, set_header, write_body,
}

-- What the code reads of a `*url.URL`.
pub record Url : Type 0 where
  pub scheme : Bytes
  pub raw_query : Bytes
  pub fragment : Bytes

pub data NewError (JsonError UrlError : Type 0) : Type 0 where
  failed_to_load_configuration : LoadError JsonError → NewError JsonError UrlError
  failed_to_parse_issuer_url : UrlError → NewError JsonError UrlError
  invalid_issuer_url_scheme : NewError JsonError UrlError
  issuer_url_must_not_contain_query : NewError JsonError UrlError
  issuer_url_must_not_contain_fragment : NewError JsonError UrlError
  failed_to_parse_jwks_url : UrlError → NewError JsonError UrlError
  invalid_jwks_url_scheme : NewError JsonError UrlError
  failed_to_load_json_web_key_set : LoadError JsonError → NewError JsonError UrlError
  key_is_not_public : Bytes → NewError JsonError UrlError
  -- the nil dereference of `range keySet.Keys`, a panic and no error value
  panicked : NewError JsonError UrlError

pub record WorkloadHandler : Type 0 where
  pub oidc : Bytes
  pub jwks : Bytes

abbrev pub https_scheme : Bytes
https_scheme = bytes "https"

module _ {JsonError UrlError Key : Type 0} (jose : Jose JsonError Key) where
  -- the loop over the keys
  unfoldable pub check_public : List Key → Result (NewError JsonError UrlError) (Unit {0})
  check_public [] = ok tt
  check_public (k ∷ keys) =
      if not (jose.is_public k) then err (key_is_not_public (jose.key_id k)) else check_public keys

  abbrev check_key_set : Option (List Key) → Result (NewError JsonError UrlError) (Unit {0})
  check_key_set none = err panicked
  check_key_set (some keys) = check_public keys

  -- `parse` is `url.Parse`.
  unfoldable pub new_handler :
      (Bytes → Result UrlError Url)
      → Bytes
      → Bytes
      → Result (NewError JsonError UrlError) WorkloadHandler
  unfolding check_public
  new_handler parse open_id_config jwks = do
    conf ← wrap failed_to_load_configuration (load_open_id_config jose open_id_config)
    issuer_url ← wrap failed_to_parse_issuer_url (parse conf.issuer)
    require (issuer_url.scheme == https_scheme) invalid_issuer_url_scheme
    require (issuer_url.raw_query == []) issuer_url_must_not_contain_query
    require (issuer_url.fragment == []) issuer_url_must_not_contain_fragment
    jwks_url ← wrap failed_to_parse_jwks_url (parse conf.jwks_uri)
    require (jwks_url.scheme == https_scheme) invalid_jwks_url_scheme
    key_set ← wrap failed_to_load_json_web_key_set (load_key_set jose jwks)
    check_key_set key_set
    ok (record { oidc = open_id_config; jwks = jwks })

unfoldable pub handle_request : Bytes → Handler
handle_request response_data r w = write_body response_data (
    set_header header_content_type mime_app_json
      (set_header header_cache_control pub_cache_control w))

unfoldable pub handle_open_id_configuration : WorkloadHandler → Handler
unfolding handle_request
handle_open_id_configuration h =
    set_hsts (allow_methods (handle_request h.oidc) (method_get ∷ method_head ∷ []))

unfoldable pub handle_jwks : WorkloadHandler → Handler
unfolding handle_request
handle_jwks h = set_hsts (allow_methods (handle_request h.jwks) (method_get ∷ method_head ∷ []))
