-- ===== src/Handler/Certificate.antt =====
-- internal/handler/certificate/handler.go: the endpoint of a shoot's CA bundle.
use gardener_discovery_serve.Common.{◌≡◌, Bool, Option, none, [], ◌∷◌, Bytes, Map, lookup}
use gardener_discovery_serve.Store.Certificate.{Data}
use gardener_discovery_serve.Handler.{
  header_cache_control, header_hsts, set_hsts, allow_methods, store_request,
}
use gardener_discovery_serve.Handler.Http.{Request, Handler, method_get, method_head, fresh}
use gardener_discovery_serve.Handler.Laws.{
  IsReply, request_verdict, code_of, cache_of, body_of, endpoint-IsReply,
}

-- `log` is left out; `store` is the reader's method.
pub record CertificateHandler : Type 0 where
  pub store : Bytes → Option (Data Bytes)

unfoldable pub handle_ca_bundle : (Bytes → Bool) → CertificateHandler → Handler
handle_ca_bundle valid_uuid h = set_hsts (
    allow_methods (store_request valid_uuid h.store (λ d. d.ca_bundle))
      (method_get ∷ method_head ∷ []))

-- Where the response starts with no HSTS and no caching header, `/cluster-ca` answers with the CA
-- bundle that is stored for the project and the UID of the request, or with the error of its
-- method, its UID or of nothing being stored; every answer has the HSTS header and is JSON, and
-- only the bundle may be cached.
pub handle_ca_bundle-IsReply :
    (valid_uuid : Bytes → Bool) (h : CertificateHandler) (r : Request) (header : Map Bytes)
    → lookup header_hsts header ≡ none
    → lookup header_cache_control header ≡ none
    → IsReply
        (code_of (request_verdict valid_uuid h.store (λ d. d.ca_bundle) r))
        (cache_of (request_verdict valid_uuid h.store (λ d. d.ca_bundle) r))
        (body_of (λ d. d.ca_bundle) (request_verdict valid_uuid h.store (λ d. d.ca_bundle) r))
        (handle_ca_bundle valid_uuid h r (fresh header))
unfolding handle_ca_bundle
handle_ca_bundle-IsReply valid_uuid h = endpoint-IsReply valid_uuid h.store (λ d. d.ca_bundle)
