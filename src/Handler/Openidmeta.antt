-- ===== src/Handler/Openidmeta.antt =====
-- internal/handler/openidmeta/handler.go: the endpoints of a shoot's openid configuration and keys.
use gardener_discovery_serve.Common.{◌≡◌, Bool, Option, none, [], ◌∷◌, Bytes, Map, lookup}
use gardener_discovery_serve.Store.Openidmeta.{Data}
use gardener_discovery_serve.Handler.{
  header_cache_control, header_hsts, set_hsts, allow_methods, store_request,
}
use gardener_discovery_serve.Handler.Http.{Request, Handler, method_get, method_head, fresh}
use gardener_discovery_serve.Handler.Laws.{
  IsReply, request_verdict, code_of, cache_of, body_of, endpoint-IsReply,
}

-- `log` is left out; `store` is the reader's method.
pub record OpenidmetaHandler : Type 0 where
  pub store : Bytes → Option (Data Bytes)

unfoldable pub handle_open_id_configuration : (Bytes → Bool) → OpenidmetaHandler → Handler
handle_open_id_configuration valid_uuid h = set_hsts (
    allow_methods (store_request valid_uuid h.store (λ d. d.config))
      (method_get ∷ method_head ∷ []))

unfoldable pub handle_jwks : (Bytes → Bool) → OpenidmetaHandler → Handler
handle_jwks valid_uuid h =
    set_hsts (
      allow_methods (store_request valid_uuid h.store (λ d. d.jwks))
        (method_get ∷ method_head ∷ []))

module _ (valid_uuid : Bytes → Bool) (h : OpenidmetaHandler) (r : Request) (header : Map Bytes)
    (no_hsts : lookup header_hsts header ≡ none)
    (no_cache : lookup header_cache_control header ≡ none) where
  -- Where the response starts with no HSTS and no caching header, both endpoints of a shoot come to
  -- one verdict on a request, and answer with the configuration and with the key set of one entry,
  -- or with the same error; every answer has the HSTS header and is JSON, and only the two
  -- documents may be cached.
  pub handlers-IsReply :
      IsReply
        (code_of (request_verdict valid_uuid h.store (λ d. d.config) r))
        (cache_of (request_verdict valid_uuid h.store (λ d. d.config) r))
        (body_of (λ d. d.config) (request_verdict valid_uuid h.store (λ d. d.config) r))
        (handle_open_id_configuration valid_uuid h r (fresh header))
      × IsReply
          (code_of (request_verdict valid_uuid h.store (λ d. d.config) r))
          (cache_of (request_verdict valid_uuid h.store (λ d. d.config) r))
          (body_of (λ d. d.jwks) (request_verdict valid_uuid h.store (λ d. d.config) r))
          (handle_jwks valid_uuid h r (fresh header))
  unfolding handle_open_id_configuration handle_jwks
  handlers-IsReply = (
    endpoint-IsReply valid_uuid h.store (λ d. d.config) r header no_hsts no_cache,
    endpoint-IsReply valid_uuid h.store (λ d. d.jwks) r header no_hsts no_cache,
  )
