-- ===== src/App/Routes/Answers.antt =====
-- What the server of cmd/discovery-server/app/app.go answers to a path.
use mathlib.Core.Path.{subst}
use gardener_discovery_serve.Common.{
  ◌≡◌, ◌≢◌, refl, inl, inr, Bool, true, false, Bool-cases, none, List, [], ◌++◌, Bytes, bytes, All,
  Map, lookup,
}
use gardener_discovery_serve.Common.Results.{Result, ok, err, ◌>>=◌}
use gardener_discovery_serve.Utils.Load.{Jose}
use gardener_discovery_serve.Options.{WorkloadIdentityConfig}
use gardener_discovery_serve.Handler.{
  set_hsts, not_found, response_not_found, header_hsts, header_cache_control,
}
use gardener_discovery_serve.Handler.Http.{Request, ResponseWriter, Handler, fresh}
use gardener_discovery_serve.Handler.Laws.{IsReply, IsReady-set_hsts, reply_error-IsReply}
use gardener_discovery_serve.Handler.Openidmeta as Openidmeta
use gardener_discovery_serve.Handler.Openidmeta.{OpenidmetaHandler}
use gardener_discovery_serve.Handler.Certificate.{CertificateHandler, handle_ca_bundle}
use gardener_discovery_serve.Handler.Workloadidentity as Workloadidentity
use gardener_discovery_serve.Handler.Workloadidentity.{Url, NewError, WorkloadHandler, new_handler}
use gardener_discovery_serve.Handler.Workloadidentity.Accepts.{new_handler_iff}
use gardener_discovery_serve.Metrics.{
  Registry, Instrumented, uncounted, Promhttp, instrument_handler,
}
use gardener_discovery_serve.Metrics.Counts.{instrument_handler_reply}
use gardener_discovery_serve.App.Mux.{ServeMux, has_gap, find_pattern, find_handler}
use gardener_discovery_serve.App.Routes.{
  oid_config_path, jwks_path, ca_path, workload_identity_open_id_config_path,
  workload_identity_jwks_path, shoot_routes, workload_routes, new_mux, serve_http,
}
use gardener_discovery_serve.App.Routes.Paths.{
  Route, oid_config, jwks, cluster_ca, workload_config, workload_jwks, path_of, path_of_lem,
  IsClean,
}
use gardener_discovery_serve.App.Routes.Finds.{
  values_of, find_oid_config, find_jwks, find_cluster_ca, find_other, find_workload_config,
  find_workload_jwks, find_no_workload,
}

-- The routes of the landscape's own documents are there if they are enabled.
abbrev pub IsOffered : WorkloadIdentityConfig → Route → Type 0
IsOffered conf workload_config = conf.enabled ≡ true
IsOffered conf workload_jwks = conf.enabled ≡ true
IsOffered conf _ = Unit

-- What net/http does not redirect, however its segments are escaped: no segment before the last is
-- empty, and none is `.` or `..`.
abbrev pub IsCleanPath : List Bytes → Type 0
IsCleanPath path = (has_gap path ≡ false) × All (λ s. (s ≢ bytes ".") × (s ≢ bytes "..")) path

-- the pattern of a route
abbrev pub pattern_of : Route → Bytes
pattern_of (oid_config p u) = oid_config_path
pattern_of (jwks p u) = jwks_path
pattern_of (cluster_ca p u) = ca_path
pattern_of workload_config = workload_identity_open_id_config_path
pattern_of workload_jwks = workload_identity_jwks_path

module _ (valid_uuid : Bytes → Bool) (oid : OpenidmetaHandler) (ca : CertificateHandler)
    (conf : WorkloadIdentityConfig) where
  abbrev documents : WorkloadHandler
  documents = record { oidc = conf.open_id_config; jwks = conf.jwks }

  -- The endpoint of a route.
  abbrev pub endpoint_of : Route → Handler
  endpoint_of (oid_config p u) = Openidmeta.handle_open_id_configuration valid_uuid oid
  endpoint_of (jwks p u) = Openidmeta.handle_jwks valid_uuid oid
  endpoint_of (cluster_ca p u) = handle_ca_bundle valid_uuid ca
  endpoint_of workload_config = Workloadidentity.handle_open_id_configuration documents
  endpoint_of workload_jwks = Workloadidentity.handle_jwks documents

  module _ (promhttp : Promhttp) where
    abbrev instrumented_of : Route → Instrumented
    instrumented_of route =
        instrument_handler promhttp (pattern_of route) (uncounted (endpoint_of route))

    abbrev made_mux : List (Bytes × Instrumented) → ServeMux Instrumented
    made_mux optional = record {
      patterns = shoot_routes promhttp valid_uuid oid ca ++ optional;
      root = uncounted (set_hsts not_found);
    }

    -- what `run` has made when it returns no error
    data IsMade : ServeMux Instrumented → Type 0 where
      with_documents : conf.enabled ≡ true → IsMade (made_mux (workload_routes promhttp documents))
      without : conf.enabled ≡ false → IsMade (made_mux [])

    find_route :
        (mux : ServeMux Instrumented) (route : Route)
        → IsMade mux
        → IsClean route
        → IsOffered conf route
        → find_handler mux (path_of route) ≡ (values_of route, instrumented_of route)
    unfolding find_handler
    find_route mux (oid_config p u) (with_documents on) (hp, hu) off =
        rw (find_oid_config _ _ _ _ p u hp hu)
    find_route mux (oid_config p u) (without on) (hp, hu) off =
        rw (find_oid_config _ _ _ _ p u hp hu)
    find_route mux (jwks p u) (with_documents on) (hp, hu) off = rw (find_jwks _ _ _ _ p u hp hu)
    find_route mux (jwks p u) (without on) (hp, hu) off = rw (find_jwks _ _ _ _ p u hp hu)
    find_route mux (cluster_ca p u) (with_documents on) (hp, hu) off =
        rw (find_cluster_ca _ _ _ _ p u hp hu)
    find_route mux (cluster_ca p u) (without on) (hp, hu) off =
        rw (find_cluster_ca _ _ _ _ p u hp hu)
    find_route mux workload_config (with_documents on) clean off = rw find_workload_config
    find_route mux workload_config (without on) clean off = absurd (cc)
    find_route mux workload_jwks (with_documents on) clean off = rw find_workload_jwks
    find_route mux workload_jwks (without on) clean off = absurd (cc)

    find_no_route :
        (mux : ServeMux Instrumented) (path : List Bytes)
        → IsMade mux
        → ((route : Route) → IsClean route → IsOffered conf route → path_of route ≢ path)
        → find_handler mux path ≡ ([], uncounted (set_hsts not_found))
    unfolding find_handler find_pattern
    find_no_route mux path (with_documents on) none_fits = rw (
      find_other _ _ _ (workload_routes promhttp documents) path
          (λ p u hp hu. none_fits (oid_config p u) (hp, hu) tt)
          (λ p u hp hu. none_fits (jwks p u) (hp, hu) tt)
          (λ p u hp hu. none_fits (cluster_ca p u) (hp, hu) tt),
      find_no_workload (instrumented_of workload_config) (instrumented_of workload_config)
          (instrumented_of workload_config) (instrumented_of workload_config)
          (instrumented_of workload_jwks) path (none_fits workload_config tt on)
          (none_fits workload_jwks tt on),
    )
    find_no_route mux path (without off) none_fits = rw (
        find_other _ _ _ [] path (λ p u hp hu. none_fits (oid_config p u) (hp, hu) tt)
          (λ p u hp hu. none_fits (jwks p u) (hp, hu) tt)
          (λ p u hp hu. none_fits (cluster_ca p u) (hp, hu) tt))

    module _ {JsonError UrlError Key : Type 0} (jose : Jose JsonError Key)
        (parse : Bytes → Result UrlError Url) (redirect : List Bytes → Handler) where
      abbrev finish :
          Result (NewError JsonError UrlError) (List (Bytes × Instrumented))
          → Result (NewError JsonError UrlError) (ServeMux Instrumented)
      finish optional = optional >>= λ l. ok (made_mux l)

      IsMade-with_documents :
          (mux : ServeMux Instrumented) (n : Result (NewError JsonError UrlError) WorkloadHandler)
          → new_handler jose parse conf.open_id_config conf.jwks ≡ n
          → conf.enabled ≡ true
          → finish (n >>= λ h. ok (workload_routes promhttp h)) ≡ ok mux
          → IsMade mux
      IsMade-with_documents mux (err e) made on h = absurd (cc)
      IsMade-with_documents mux (ok wh) made on h =
          let same : wh ≡ documents =
            ((new_handler_iff jose parse conf.open_id_config conf.jwks wh).0 made).0 in
          let is_mux : made_mux (workload_routes promhttp documents) ≡ mux = cc (h, same) in
          subst IsMade is_mux (with_documents on)

      new_mux-IsMade :
          (mux : ServeMux Instrumented)
          → new_mux promhttp jose parse valid_uuid oid ca conf ≡ ok mux
          → IsMade mux
      unfolding new_mux
      new_mux-IsMade mux h = elim (Bool-cases conf.enabled) [
        | inl on ↦
            IsMade-with_documents mux (new_handler jose parse conf.open_id_config conf.jwks) refl on
              (rw on at h)
        | inr off ↦
            let is_mux : made_mux [] ≡ mux = cc (rw off at h) in subst IsMade is_mux (without off)
      ]

      -- A path of a route that is offered, with a project and a UID that are not empty, is answered
      -- by the endpoint of the route, with the project and the UID of the path as its path values.
      pub serve_http_route :
          (mux : ServeMux Instrumented) (route : Route) (r : Request) (m : Registry)
          (w : ResponseWriter)
          → new_mux promhttp jose parse valid_uuid oid ca conf ≡ ok mux
          → IsClean route
          → IsOffered conf route
          → (serve_http redirect mux (path_of route) r (m, w)).1
            ≡ endpoint_of route (record r { path_values = values_of route }) w
      unfolding serve_http
      serve_http_route mux route r m w made clean offered =
          rw (path_of_lem route clean, find_route mux route (new_mux-IsMade mux made) clean offered)
            (instrument_handler_reply promhttp (pattern_of route) (endpoint_of route)
              (record r { path_values = values_of route }) m w)

      -- Where the response starts with no HSTS and no caching header, a clean path, with no segment
      -- `.` or `..` and none inside that is empty, that is of no route that is offered is answered with
      -- a 404, in JSON and with the HSTS header, and is not counted.
      pub serve_http_no_route :
          (mux : ServeMux Instrumented) (path : List Bytes) (r : Request) (m : Registry)
          (header : Map Bytes)
          → new_mux promhttp jose parse valid_uuid oid ca conf ≡ ok mux
          → IsCleanPath path
          → ((route : Route) → IsClean route → IsOffered conf route → path_of route ≢ path)
          → lookup header_hsts header ≡ none
          → lookup header_cache_control header ≡ none
          → IsReply 404 none response_not_found (serve_http redirect mux path r (m, fresh header)).1
            × ((serve_http redirect mux path r (m, fresh header)).0 ≡ m)
      unfolding serve_http set_hsts not_found
      serve_http_no_route mux path r m header made (no_gap, no_dots) none_fits no_hsts no_cache =
          rw (no_gap, find_no_route mux path (new_mux-IsMade mux made) none_fits)
            (
              reply_error-IsReply 404 response_not_found (record r { path_values = [] }) _
                  (IsReady-set_hsts header no_hsts no_cache),
              refl,
            )
