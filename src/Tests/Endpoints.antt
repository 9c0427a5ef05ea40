-- ===== src/Tests/Endpoints.antt =====
-- The endpoints at concrete requests.
use gardener_discovery_serve.Common.{
  ℕ, ◌≡◌, ◌↔◌, refl, Bool, Option, some, [], ◌∷◌, Bytes, bytes, ◌==◌, eqb, length, lookup, insert,
  remove, has_prefix, if◌then◌else◌,
}
use gardener_discovery_serve.Common.Results.{Result, ok}
use gardener_discovery_serve.Utils.Load.{load_key_set, load_open_id_config}
use gardener_discovery_serve.Handler.{set_hsts, allow_methods, store_request}
use gardener_discovery_serve.Handler.Http.{
  Request, ResponseWriter, fresh, path_value, get_header, set_header, write_header, write_body,
}
use gardener_discovery_serve.Handler.Laws.{IsReply, request_verdict, code_of, cache_of, body_of}
use gardener_discovery_serve.Handler.Certificate.{
  CertificateHandler, handle_ca_bundle, handle_ca_bundle-IsReply,
}
use gardener_discovery_serve.Handler.Openidmeta.{
  OpenidmetaHandler, handle_open_id_configuration, handle_jwks, handlers-IsReply,
}
use gardener_discovery_serve.Handler.Workloadidentity
use gardener_discovery_serve.Handler.Workloadidentity.{Url, NewError, new_handler, check_public}
use gardener_discovery_serve.Handler.Workloadidentity.Accepts.{IsAcceptable, new_handler_iff}
use gardener_discovery_serve.Handler.Workloadidentity.Serves.{IsDocument, new_handler-IsDocument}
use gardener_discovery_serve.Tests.Samples.{jose}

abbrev ask : Bytes → Bytes → Request
ask method uid = record {
  method = method;
  path_values = (bytes "projectName", bytes "foo") ∷ (bytes "shootUID", uid) ∷ [];
}

-- UIDs of two bytes
abbrev short : Bytes → Bool
short uid = eqb (length uid) 2

abbrev authorities : CertificateHandler
authorities = record {
  store = λ k. lookup k ((bytes "foo--u1", record { ca_bundle = bytes "ca" }) ∷ []);
}

abbrev documents : OpenidmetaHandler
documents = record {
  store = λ k. lookup k ((bytes "foo--u1", record { config = bytes "c"; jwks = bytes "j" }) ∷ []);
}

-- status and body of the four kinds of answer
abbrev outcome : ResponseWriter → Option ℕ × Bytes
outcome w = (w.status, w.body)

ca_bundle_answers :
    (outcome (handle_ca_bundle short authorities (ask (bytes "GET") (bytes "u1")) (fresh []))
      ≡ (some 200, bytes "ca"))
    × (outcome (handle_ca_bundle short authorities (ask (bytes "GET") (bytes "u2")) (fresh []))
        ≡ (some 404, bytes "{\"code\":404,\"message\":\"not found\"}"))
    × (outcome (handle_ca_bundle short authorities (ask (bytes "GET") (bytes "u")) (fresh []))
        ≡ (some 400, bytes "{\"code\":400,\"message\":\"invalid UID\"}"))
    × (outcome (handle_ca_bundle short authorities (ask (bytes "POST") (bytes "u1")) (fresh []))
        ≡ (some 405, bytes "{\"code\":405,\"message\":\"method not allowed\"}"))
unfolding handle_ca_bundle set_hsts allow_methods store_request path_value get_header set_header
    write_header write_body lookup insert remove ◌==◌
ca_bundle_answers = (refl, refl, refl, refl)

handle_ca_bundle-IsReply_example :
    IsReply
      (code_of (
        request_verdict short authorities.store
          (λ d. d.ca_bundle)
          (ask (bytes "GET") (bytes "u1"))))
      (cache_of (
        request_verdict short authorities.store
          (λ d. d.ca_bundle)
          (ask (bytes "GET") (bytes "u1"))))
      (body_of
        (λ d. d.ca_bundle)
        (request_verdict short authorities.store
          (λ d. d.ca_bundle)
          (ask (bytes "GET") (bytes "u1"))))
      (handle_ca_bundle short authorities (ask (bytes "GET") (bytes "u1")) (fresh []))
unfolding lookup
handle_ca_bundle-IsReply_example =
    handle_ca_bundle-IsReply short authorities (ask (bytes "GET") (bytes "u1")) [] refl refl

handlers-IsReply_example :
    IsReply
      (code_of
        (request_verdict short documents.store (λ d. d.config) (ask (bytes "GET") (bytes "u1"))))
      (cache_of
        (request_verdict short documents.store (λ d. d.config) (ask (bytes "GET") (bytes "u1"))))
      (body_of
        (λ d. d.config)
        (request_verdict short documents.store (λ d. d.config) (ask (bytes "GET") (bytes "u1"))))
      (handle_open_id_configuration short documents (ask (bytes "GET") (bytes "u1")) (fresh []))
    × IsReply
        (code_of
          (request_verdict short documents.store (λ d. d.config) (ask (bytes "GET") (bytes "u1"))))
        (cache_of
          (request_verdict short documents.store (λ d. d.config) (ask (bytes "GET") (bytes "u1"))))
        (body_of
          (λ d. d.jwks)
          (request_verdict short documents.store (λ d. d.config) (ask (bytes "GET") (bytes "u1"))))
        (handle_jwks short documents (ask (bytes "GET") (bytes "u1")) (fresh []))
unfolding lookup
handlers-IsReply_example =
    handlers-IsReply short documents (ask (bytes "GET") (bytes "u1")) [] refl refl

-- a URL with no query and no fragment
abbrev parse : Bytes → Result (Unit {0}) Url
parse s = ok (record {
  scheme = if has_prefix s (bytes "https:") then bytes "https" else [];
  raw_query = [];
  fragment = [];
})

abbrev made : Workloadidentity.WorkloadHandler
made = record { oidc = bytes "{}"; jwks = bytes "keys" }

makes : new_handler jose parse (bytes "{}") (bytes "keys") ≡ ok made
unfolding new_handler load_key_set load_open_id_config has_prefix ◌==◌
makes = refl

new_handler_iff_example : (new_handler jose parse (bytes "{}") (bytes "keys") ≡ ok made) ↔ (
    (made ≡ record { oidc = bytes "{}"; jwks = bytes "keys" })
    × IsAcceptable jose parse (bytes "{}") (bytes "keys"))
new_handler_iff_example = new_handler_iff jose parse (bytes "{}") (bytes "keys") made

new_handler-IsDocument_example :
    IsDocument
      (bytes "{}")
      (ask (bytes "GET") [])
      (Workloadidentity.handle_open_id_configuration made (ask (bytes "GET") []) (fresh []))
    × IsDocument
        (bytes "keys")
        (ask (bytes "GET") [])
        (Workloadidentity.handle_jwks made (ask (bytes "GET") []) (fresh []))
unfolding lookup
new_handler-IsDocument_example =
    new_handler-IsDocument jose parse (bytes "{}") (bytes "keys") made (ask (bytes "GET") []) []
      makes refl refl
