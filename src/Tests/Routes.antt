-- ===== src/Tests/Routes.antt =====
-- The routes of the server at concrete paths, and what they count.
use gardener_discovery_serve.Common.{
  ◌≡◌, ◌≢◌, ◌+◌, refl, Bool, true, ◌&&◌, none, some, List, [], ◌∷◌, ◌++◌, Bytes, bytes, ◌==◌, eqb,
  length, if◌then◌else◌, lookup, insert, remove,
}
use gardener_discovery_serve.Common.Results.{Result, ok}
use gardener_discovery_serve.Utils.Load.{load_key_set, load_open_id_config}
use gardener_discovery_serve.Options.{WorkloadIdentityConfig}
use gardener_discovery_serve.Handler.{
  set_hsts, not_found, response_not_found, allow_methods, store_request,
}
use gardener_discovery_serve.Handler.Http.{
  Request, Handler, fresh, path_value, get_header, set_header, write_header, write_body,
}
use gardener_discovery_serve.Handler.Laws.{IsReply}
use gardener_discovery_serve.Handler.Openidmeta.{OpenidmetaHandler}
use gardener_discovery_serve.Handler.Certificate.{CertificateHandler, handle_ca_bundle}
use gardener_discovery_serve.Handler.Workloadidentity.{Url, new_handler}
use gardener_discovery_serve.Metrics.{
  Registry, Instrumented, uncounted, observe, count, enter, leave, code_sent, Promhttp,
  instrument_handler,
}
use gardener_discovery_serve.Metrics.Counts.{instrument_handler_counts}
use gardener_discovery_serve.App.Mux.{ServeMux, find_handler}
use gardener_discovery_serve.App.Routes.{
  ca_path, shoot_routes, workload_routes, new_mux, serve_http,
}
use gardener_discovery_serve.App.Routes.Paths.{
  Route, oid_config, jwks, cluster_ca, workload_config, workload_jwks, path_of, IsClean,
}
use gardener_discovery_serve.App.Routes.Finds.{values_of}
use gardener_discovery_serve.App.Routes.Answers.{
  IsOffered, IsCleanPath, serve_http_route, serve_http_no_route,
}
use gardener_discovery_serve.Tests.Samples.{jose}

-- what promhttp documents, as functions
abbrev pub promhttp : Promhttp
promhttp = record {
  instrument_handler_duration = λ path next r x. (observe path (next r x).0, (next r x).1);
  instrument_handler_counter =
      λ path next r x. (count path (code_sent (next r x).1) (next r x).0, (next r x).1);
  instrument_handler_in_flight = λ path next r x.
      (leave path (next r (enter path x.0, x.1)).0, (next r (enter path x.0, x.1)).1);
  duration_lem = λ path next r x. refl;
  counter_lem = λ path next r x. refl;
  in_flight_lem = λ path next r x. refl;
}

abbrev pub unused : Registry
unused = record { request_latency = λ q. 0; request_total = λ q c. 0; request_in_flight = λ q. 0 }

abbrev pub short : Bytes → Bool
short uid = eqb (length uid) 2

abbrev pub oid : OpenidmetaHandler
oid = record {
  store = λ k. lookup k ((bytes "foo--u1", record { config = bytes "c"; jwks = bytes "j" }) ∷ []);
}

abbrev pub ca : CertificateHandler
ca = record { store = λ k. lookup k ((bytes "foo--u1", record { ca_bundle = bytes "ca" }) ∷ []) }

abbrev pub conf : WorkloadIdentityConfig
conf = record { open_id_config = bytes "{}"; jwks = bytes "keys"; enabled = true }

abbrev pub parse : Bytes → Result (Unit {0}) Url
parse s = ok (record { scheme = bytes "https"; raw_query = []; fragment = [] })

-- a redirection, of which only the status counts here
abbrev pub moved : List Bytes → Handler
moved path r w = write_header 301 w

abbrev mux : ServeMux Instrumented
mux = record {
  patterns =
      shoot_routes promhttp short oid ca
      ++ workload_routes promhttp (record { oidc = bytes "{}"; jwks = bytes "keys" });
  root = uncounted (set_hsts not_found);
}

made : new_mux promhttp jose parse short oid ca conf ≡ ok mux
unfolding new_mux new_handler load_key_set load_open_id_config ◌==◌
made = refl

abbrev pub get : Request
get = record { method = bytes "GET"; path_values = [] }

serve_http_route_example :
    (serve_http moved mux
      (path_of (cluster_ca (bytes "foo") (bytes "u1")))
      get
      (unused, fresh [])).1
    ≡ handle_ca_bundle short ca
        (record get { path_values = values_of (cluster_ca (bytes "foo") (bytes "u1")) })
        (fresh [])
serve_http_route_example =
    serve_http_route short oid ca conf promhttp jose parse moved mux
      (cluster_ca (bytes "foo") (bytes "u1")) get unused (fresh []) made ((λ e. cc), (λ e. cc)) tt

ca_served :
    (serve_http moved mux
      (bytes "projects" ∷ bytes "foo" ∷ bytes "shoots" ∷ bytes "u1" ∷ bytes "cluster-ca" ∷ [])
      get
      (unused, fresh [])).1.body
    ≡ bytes "ca"
unfolding serve_http find_handler handle_ca_bundle set_hsts allow_methods store_request path_value
    get_header set_header write_header write_body instrument_handler lookup insert remove ◌==◌
ca_served = refl

abbrev favicon : List Bytes
favicon = bytes "favicon.ico" ∷ []

no_favicon : (route : Route) → IsClean route → IsOffered conf route → path_of route ≢ favicon
no_favicon (oid_config p u) c o e = cc
no_favicon (jwks p u) c o e = cc
no_favicon (cluster_ca p u) c o e = cc
no_favicon workload_config c o e = cc
no_favicon workload_jwks c o e = cc

favicon-IsCleanPath : IsCleanPath favicon
unfolding ◌==◌
favicon-IsCleanPath = (refl, (((λ e. cc), (λ e. cc)), tt))

serve_http_no_route_example :
    IsReply 404 none response_not_found (serve_http moved mux favicon get (unused, fresh [])).1
    × ((serve_http moved mux favicon get (unused, fresh [])).0 ≡ unused)
unfolding lookup
serve_http_no_route_example =
    serve_http_no_route short oid ca conf promhttp jose parse moved mux favicon get unused [] made
      favicon-IsCleanPath no_favicon refl refl

instrument_handler_counts_ca :
    let (m, w) =
      instrument_handler promhttp ca_path
        (uncounted (handle_ca_bundle short ca))
        get
        (unused, fresh []) in
    (w ≡ handle_ca_bundle short ca get (fresh []))
    × (m.request_total ca_path 400
        ≡ 0
          + (if ca_path == ca_path && eqb (code_sent (handle_ca_bundle short ca get (fresh []))) 400
              then 1
              else 0))
    × (m.request_latency ca_path ≡ 0 + (if ca_path == ca_path then 1 else 0))
    × (m.request_in_flight ca_path ≡ 0)
instrument_handler_counts_ca =
    instrument_handler_counts promhttp ca_path (handle_ca_bundle short ca) get unused (fresh [])
      ca_path 400

-- `//favicon.ico`
gap_redirected : (serve_http moved mux ([] ∷ favicon) get (unused, fresh [])).1.status ≡ some 301
unfolding serve_http write_header ◌==◌
gap_redirected = refl
