-- ===== src/App/Routes/Published.antt =====
-- From the cluster to the client: what internal/reconciler/openidmeta publishes, as the server of
-- cmd/discovery-server/app/app.go sends it.
use gardener_discovery_serve.Common.{
  List, refl, ℕ, ◌≡◌, ◌≢◌, ◌⊎◌, inl, inr, Bool, true, false, none, some, [], ◌++◌, Bytes, bytes,
  Map, lookup,
}
use gardener_discovery_serve.Common.Results.{Result, ok}
use gardener_discovery_serve.Utils.Load.{Jose}
use gardener_discovery_serve.Store.Api.{Api}
use gardener_discovery_serve.Store.Openidmeta.{Data}
use gardener_discovery_serve.Options.{WorkloadIdentityConfig}
use gardener_discovery_serve.Handler.{
  header_cache_control, header_hsts, pub_cache_control, response_not_found,
}
use gardener_discovery_serve.Handler.Http.{Request, ResponseWriter, Handler, method_get, fresh}
use gardener_discovery_serve.Handler.Laws.{IsReply}
use gardener_discovery_serve.Handler.Openidmeta.{
  OpenidmetaHandler, handle_open_id_configuration, handle_jwks,
}
use gardener_discovery_serve.Handler.Certificate.{CertificateHandler}
use gardener_discovery_serve.Handler.Workloadidentity.{Url}
use gardener_discovery_serve.Reconciler.{NamespacedName, Cluster, Constants}
use gardener_discovery_serve.Reconciler.Openidmeta.Publishable.{IsPublishable}
use gardener_discovery_serve.Reconciler.Openidmeta.Effects.{Reflects}
use gardener_discovery_serve.Reconciler.Watch.{request, Watched}
use gardener_discovery_serve.Reconciler.Watch.Follows.{Watched-Reflects}
use gardener_discovery_serve.Metrics.{Registry, Instrumented, Promhttp}
use gardener_discovery_serve.App.Mux.{ServeMux}
use gardener_discovery_serve.App.Routes.{new_mux, serve_http}
use gardener_discovery_serve.App.Routes.Paths.{oid_config, jwks, path_of, shoot_values}
use gardener_discovery_serve.App.Routes.Fetch.{get_endpoint-IsReply}
use gardener_discovery_serve.App.Routes.Answers.{serve_http_route}

module _ {S : Type 0} (api : Api (Data Bytes) S) where
  -- the handler over a store
  abbrev pub handler_over : S → OpenidmetaHandler
  handler_over s = record { store = λ key. api.read key s }

module _ {E JsonError Key : Type 0} (constants : Constants) (jose : Jose JsonError Key)
    (cluster : Cluster E) (req : NamespacedName) (configuration keys : ResponseWriter) where
  -- The two documents of a shoot that may be published, or two answers that there are none.
  abbrev pub IsPublication : Type 0
  IsPublication =
      ((d : Data Bytes) × IsPublishable constants jose cluster req d
        × IsReply 200 (some pub_cache_control) d.config configuration
        × IsReply 200 (some pub_cache_control) d.jwks keys)
      ⊎ (((d : Data Bytes) → ¬ IsPublishable constants jose cluster req d)
          × IsReply 404 none response_not_found configuration
          × IsReply 404 none response_not_found keys)

module _ {E JsonError UrlError Key S : Type 0} (constants : Constants) (jose : Jose JsonError Key)
    (api : Api (Data Bytes) S) (resync_period : ℕ) (valid_uuid : Bytes → Bool)
    (ca : CertificateHandler) (conf : WorkloadIdentityConfig) (promhttp : Promhttp)
    (parse : Bytes → Result UrlError Url) (redirect : List Bytes → Handler) where
  publication :
      (cluster : Cluster E) (req : NamespacedName) (s : S) (p u : Bytes) (r : Request)
      (header : Map Bytes)
      → req.name ≡ p ++ bytes "--" ++ u
      → valid_uuid u ≡ true
      → r.method ≡ method_get
      → lookup header_hsts header ≡ none
      → lookup header_cache_control header ≡ none
      → Reflects constants jose api resync_period cluster req s
      → IsPublication constants jose cluster req
          (handle_open_id_configuration valid_uuid
            (handler_over api s)
            (record r { path_values = shoot_values p u })
            (fresh header))
          (handle_jwks valid_uuid
            (handler_over api s)
            (record r { path_values = shoot_values p u })
            (fresh header))
  unfolding handle_open_id_configuration handle_jwks
  publication cluster req s p u r header named valid is_get no_hsts no_cache
        (inl (d, publishable, stored)) =
      inl (
        d,
        publishable,
        get_endpoint-IsReply valid_uuid (λ key. api.read key s) (λ d. d.config) p u r header
            (some d) (rw named at stored) valid is_get no_hsts no_cache,
        get_endpoint-IsReply valid_uuid (λ key. api.read key s) (λ d. d.jwks) p u r header (some d)
            (rw named at stored) valid is_get no_hsts no_cache,
      )
  publication cluster req s p u r header named valid is_get no_hsts no_cache
        (inr (unpublishable, missing)) =
      inr (
        unpublishable,
        get_endpoint-IsReply valid_uuid (λ key. api.read key s) (λ d. d.config) p u r header none
            (rw named at missing) valid is_get no_hsts no_cache,
        get_endpoint-IsReply valid_uuid (λ key. api.read key s) (λ d. d.jwks) p u r header none
            (rw named at missing) valid is_get no_hsts no_cache,
      )

  -- The two documents come from a store that reflects the cluster.
  serve_http-Reflects :
      (cluster : Cluster E) (req : NamespacedName) (s : S) (p u : Bytes)
      (mux : ServeMux Instrumented) (r : Request) (m : Registry) (header : Map Bytes)
      → Reflects constants jose api resync_period cluster req s
      → new_mux promhttp jose parse valid_uuid (handler_over api s) ca conf ≡ ok mux
      → req.name ≡ p ++ bytes "--" ++ u
      → p ≢ []
      → u ≢ []
      → valid_uuid u ≡ true
      → r.method ≡ method_get
      → lookup header_hsts header ≡ none
      → lookup header_cache_control header ≡ none
      → IsPublication constants jose cluster req
          (serve_http redirect mux (path_of (oid_config p u)) r (m, fresh header)).1
          (serve_http redirect mux (path_of (jwks p u)) r (m, fresh header)).1
  serve_http-Reflects cluster req s p u mux r m header reflects made named hp hu valid is_get
        no_hsts no_cache =
      rw
        (
          serve_http_route valid_uuid (handler_over api s) ca conf promhttp jose parse redirect mux
              (oid_config p u) r m (fresh header) made (hp, hu) tt,
          serve_http_route valid_uuid (handler_over api s) ca conf promhttp jose parse redirect mux
              (jwks p u) r m (fresh header) made (hp, hu) tt,
        )
        (publication cluster req s p u r header named valid is_get no_hsts no_cache reflects)

  -- Whatever has happened to the secrets of the namespace, the projects and the shoots since the
  -- start with no secret and an empty store: where, since the last reconciliation of the secret `p--u`
  -- that succeeded, none of an event of it has failed and no project or shoot has changed, a GET of
  -- the two documents of the shoot gets those of the secret with a 200 if they may be published, and
  -- two 404 if not. The project `p` and the UID `u` are not empty, the UID parses, and the response
  -- starts with no HSTS and no caching header.
  pub serve_http-Watched :
      (namespace : Bytes) (cluster : Cluster E) (s : S) (stale : Bytes → Bool) (p u : Bytes)
      (mux : ServeMux Instrumented) (r : Request) (m : Registry) (header : Map Bytes)
      → Watched constants jose api resync_period namespace cluster s stale
      → stale (p ++ bytes "--" ++ u) ≡ false
      → new_mux promhttp jose parse valid_uuid (handler_over api s) ca conf ≡ ok mux
      → p ≢ []
      → u ≢ []
      → valid_uuid u ≡ true
      → r.method ≡ method_get
      → lookup header_hsts header ≡ none
      → lookup header_cache_control header ≡ none
      → IsPublication constants jose cluster
          (request namespace (p ++ bytes "--" ++ u))
          (serve_http redirect mux (path_of (oid_config p u)) r (m, fresh header)).1
          (serve_http redirect mux (path_of (jwks p u)) r (m, fresh header)).1
  serve_http-Watched namespace cluster s stale p u mux r m header watched current made hp hu valid
        is_get no_hsts no_cache =
      serve_http-Reflects cluster (request namespace (p ++ bytes "--" ++ u)) s p u mux r m header
        (Watched-Reflects constants jose api resync_period namespace cluster s stale
          (p ++ bytes "--" ++ u) watched current)
        made refl hp hu valid is_get no_hsts no_cache
