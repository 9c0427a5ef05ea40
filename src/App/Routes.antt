-- ===== src/App/Routes.antt =====
-- cmd/discovery-server/app/app.go: the routes that `run` registers, and the requests to them.
pub mod Paths
pub mod Finds
pub mod Answers
pub mod Fetch
pub mod Published
pub mod PublishedCa
use gardener_discovery_serve.Common.{
  Bool, true, false, not, ◌&&◌, ◌==◌, Option, List, [], ◌∷◌, ◌++◌, Bytes, bytes, if◌then◌else◌, Map,
}
use gardener_discovery_serve.Common.Results.{Result, ok, err, ◌>>=◌}
use gardener_discovery_serve.Utils.Load.{Jose}
use gardener_discovery_serve.Handler.{set_hsts, not_found}
use gardener_discovery_serve.Handler.Http.{Request, ResponseWriter, Handler, method_connect}
use gardener_discovery_serve.Handler.Openidmeta as Openidmeta
use gardener_discovery_serve.Handler.Openidmeta.{OpenidmetaHandler}
use gardener_discovery_serve.Handler.Certificate.{CertificateHandler, handle_ca_bundle}
use gardener_discovery_serve.Handler.Workloadidentity as Workloadidentity
use gardener_discovery_serve.Handler.Workloadidentity.{Url, NewError, WorkloadHandler, new_handler}
use gardener_discovery_serve.Options.{WorkloadIdentityConfig}
use gardener_discovery_serve.Metrics.{
  Registry, Instrumented, uncounted, Promhttp, instrument_handler,
}
use gardener_discovery_serve.App.Mux.{ServeMux, has_gap, find_handler}

abbrev pub oid_config_path : Bytes
oid_config_path =
    bytes "/projects/{projectName}/shoots/{shootUID}/issuer/.well-known/openid-configuration"

abbrev pub jwks_path : Bytes
jwks_path = bytes "/projects/{projectName}/shoots/{shootUID}/issuer/jwks"

abbrev pub ca_path : Bytes
ca_path = bytes "/projects/{projectName}/shoots/{shootUID}/cluster-ca"

abbrev pub workload_identity_open_id_config_path : Bytes
workload_identity_open_id_config_path =
    bytes "/garden/workload-identity/issuer/.well-known/openid-configuration"

abbrev pub workload_identity_jwks_path : Bytes
workload_identity_jwks_path = bytes "/garden/workload-identity/issuer/jwks"

module _ (promhttp : Promhttp) where
  -- a pattern with its instrumented handler
  abbrev pub route : Bytes → (Request → ResponseWriter → ResponseWriter) → Bytes × Instrumented
  route path h = (path, instrument_handler promhttp path (uncounted h))

  abbrev pub shoot_routes :
      (Bytes → Bool) → OpenidmetaHandler → CertificateHandler → List (Bytes × Instrumented)
  shoot_routes valid_uuid oid ca =
      route oid_config_path (Openidmeta.handle_open_id_configuration valid_uuid oid)
      ∷ route jwks_path (Openidmeta.handle_jwks valid_uuid oid)
      ∷ route ca_path (handle_ca_bundle valid_uuid ca)
      ∷ []

  abbrev pub workload_routes : WorkloadHandler → List (Bytes × Instrumented)
  workload_routes h =
      route workload_identity_open_id_config_path (Workloadidentity.handle_open_id_configuration h)
      ∷ route workload_identity_jwks_path (Workloadidentity.handle_jwks h)
      ∷ []

  module _ {JsonError UrlError Key : Type 0} (jose : Jose JsonError Key)
      (parse : Bytes → Result UrlError Url) where
    -- `if conf.WorkloadIdentity.Enabled { … }`
    unfoldable pub optional_routes :
        WorkloadIdentityConfig → Result (NewError JsonError UrlError) (List (Bytes × Instrumented))
    optional_routes conf =
        if conf.enabled
        then (do h ← new_handler jose parse conf.open_id_config conf.jwks; ok (workload_routes h))
        else ok []

    -- The mux of `run`; an error is what `run` returns.
    unfoldable pub new_mux :
        (Bytes → Bool)
        → OpenidmetaHandler
        → CertificateHandler
        → WorkloadIdentityConfig
        → Result (NewError JsonError UrlError) (ServeMux Instrumented)
    unfolding optional_routes
    new_mux valid_uuid oid ca conf = do
      optional ← optional_routes conf
      ok (record {
        patterns = shoot_routes valid_uuid oid ca ++ optional;
        root = uncounted (set_hsts not_found);
      })

-- the handler, with the path values that the pattern gives
abbrev pub call : Map Bytes × Instrumented → Instrumented
call found r x = found.1 (record r { path_values = found.0 }) x

-- `mux.ServeHTTP` for a request to the path. `redirect` is the redirection of net/http to the clean
-- path, which a CONNECT request does not get; it passes by the metrics.
unfoldable pub serve_http :
    (List Bytes → Handler) → ServeMux Instrumented → List Bytes → Instrumented
serve_http redirect mux path r x =
    if has_gap path && not (r.method == method_connect)
    then uncounted (redirect path) r x
    else call (find_handler mux path) r x
