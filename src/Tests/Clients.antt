-- ===== src/Tests/Clients.antt =====
-- A client of the server, after a reconciliation.
use gardener_discovery_serve.Common.{◌≡◌, refl, [], ◌++◌, Bytes, bytes, ◌==◌, Map, lookup}
use gardener_discovery_serve.Common.Results.{ok}
use gardener_discovery_serve.Utils.Load.{load_key_set, load_open_id_config}
use gardener_discovery_serve.Store.Api.{map_api}
use gardener_discovery_serve.Store.Openidmeta.{Data}
use gardener_discovery_serve.Handler.{set_hsts, not_found}
use gardener_discovery_serve.Handler.Http.{fresh}
use gardener_discovery_serve.Handler.Workloadidentity.{new_handler}
use gardener_discovery_serve.Metrics.{Instrumented, uncounted}
use gardener_discovery_serve.App.Mux.{ServeMux}
use gardener_discovery_serve.App.Routes.{shoot_routes, workload_routes, new_mux, serve_http}
use gardener_discovery_serve.App.Routes.Paths.{oid_config, jwks, path_of}
use gardener_discovery_serve.App.Routes.Published.{handler_over, IsPublication, serve_http-Watched}
use gardener_discovery_serve.Tests.Samples.{constants, jose}
use gardener_discovery_serve.Reconciler.Watch.{on_event, request}
use gardener_discovery_serve.Tests.Watches.{
  issuers, cluster_then, arrival, stale, watched, is_current,
}
use gardener_discovery_serve.Tests.Routes.{promhttp, unused, short, ca, conf, parse, moved, get}

abbrev reconciled : Map (Data Bytes)
reconciled =
    (on_event constants jose map_api 30 arrival cluster_then (request issuers (bytes "foo--u1"))
      []).0

abbrev mux_after : ServeMux Instrumented
mux_after = record {
  patterns =
      shoot_routes promhttp short (handler_over map_api reconciled) ca
      ++ workload_routes promhttp (record { oidc = bytes "{}"; jwks = bytes "keys" });
  root = uncounted (set_hsts not_found);
}

made_after :
    new_mux promhttp jose parse short (handler_over map_api reconciled) ca conf ≡ ok mux_after
unfolding new_mux new_handler load_key_set load_open_id_config ◌==◌
made_after = refl

serve_http-Watched_example :
    IsPublication constants jose cluster_then
      (request issuers (bytes "foo--u1"))
      (serve_http moved mux_after
        (path_of (oid_config (bytes "foo") (bytes "u1")))
        get
        (unused, fresh [])).1
      (serve_http moved mux_after
        (path_of (jwks (bytes "foo") (bytes "u1")))
        get
        (unused, fresh [])).1
unfolding lookup
serve_http-Watched_example =
    serve_http-Watched constants jose map_api 30 short ca conf promhttp parse moved issuers
      cluster_then reconciled stale (bytes "foo") (bytes "u1") mux_after get unused [] watched
      is_current made_after (λ e. cc) (λ e. cc) refl refl refl refl
