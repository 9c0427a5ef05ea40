-- ===== src/App/Routes/PublishedCa.antt =====
-- From the cluster to the client: what internal/reconciler/certificate publishes, as the server of
-- cmd/discovery-server/app/app.go sends it.
use gardener_discovery_serve.Common.{
  List, ℕ, ◌≡◌, ◌≢◌, ◌⊎◌, inl, inr, Bool, true, false, none, some, [], ◌++◌, Bytes, bytes, Map,
  lookup,
}
use gardener_discovery_serve.Common.Results.{Result, ok}
use gardener_discovery_serve.Utils.Load.{Jose}
use gardener_discovery_serve.Store.Api.{Api}
use gardener_discovery_serve.Store.Certificate.{Data}
use gardener_discovery_serve.Options.{WorkloadIdentityConfig}
use gardener_discovery_serve.Handler.{
  header_cache_control, header_hsts, pub_cache_control, response_not_found,
}
use gardener_discovery_serve.Handler.Http.{Request, ResponseWriter, Handler, method_get, fresh}
use gardener_discovery_serve.Handler.Laws.{IsReply}
use gardener_discovery_serve.Handler.Openidmeta.{OpenidmetaHandler}
use gardener_discovery_serve.Handler.Certificate.{CertificateHandler, handle_ca_bundle}
use gardener_discovery_serve.Handler.Workloadidentity.{Url}
use gardener_discovery_serve.Reconciler.{NamespacedName, Cluster, Constants}
use gardener_discovery_serve.Reconciler.Certificate.{
  Libraries, Bundle, Reconciler, label_public, label_restriction,
}
use gardener_discovery_serve.Reconciler.Certificate.Blocks.{Shrinks}
use gardener_discovery_serve.Reconciler.Certificate.Publishable.{IsPublishable}
use gardener_discovery_serve.Reconciler.CaWatch.{Watched}
use gardener_discovery_serve.Reconciler.CaWatch.History.{IsOrderly, IsServed, Watched-IsServed}
use gardener_discovery_serve.Metrics.{Registry, Instrumented, Promhttp}
use gardener_discovery_serve.App.Mux.{ServeMux}
use gardener_discovery_serve.App.Routes.{new_mux, serve_http}
use gardener_discovery_serve.App.Routes.Paths.{cluster_ca, path_of, shoot_values}
use gardener_discovery_serve.App.Routes.Fetch.{get_endpoint-IsReply}
use gardener_discovery_serve.App.Routes.Answers.{serve_http_route}

-- the handler over a store
abbrev pub ca_handler_over : {S : Type 0} → Api (Data Bytes) S → S → CertificateHandler
ca_handler_over api s = record { store = λ key. api.read key s }

-- The bundle of a shoot that may be published, or an answer that there is none.
abbrev pub IsCaPublication :
    {E : Type 0} → Libraries E → Constants → Cluster E → NamespacedName → ResponseWriter → Type 0
IsCaPublication libraries constants cluster req w =
    ((b : Bundle) × (payload : Bytes) × IsPublishable libraries constants cluster req b
      × (libraries.marshal b.certs ≡ ok payload)
      × IsReply 200 (some pub_cache_control) payload w)
    ⊎ (((b : Bundle) → ¬ IsPublishable libraries constants cluster req b)
        × IsReply 404 none response_not_found w)

module _ {E JsonError UrlError Key S : Type 0} (jose : Jose JsonError Key)
    (api : Api (Data Bytes) S) (libraries : Libraries E) (resync_period : ℕ) (constants : Constants)
    (valid_uuid : Bytes → Bool) (oid : OpenidmetaHandler) (conf : WorkloadIdentityConfig)
    (promhttp : Promhttp) (parse : Bytes → Result UrlError Url)
    (redirect : List Bytes → Handler) where
  publication :
      (keys : Bytes → Bytes) (cluster : Cluster E) (req : NamespacedName) (s : S) (p u : Bytes)
      (r : Request) (header : Map Bytes)
      → keys (libraries.key_of req) ≡ p ++ bytes "--" ++ u
      → valid_uuid u ≡ true
      → r.method ≡ method_get
      → lookup header_hsts header ≡ none
      → lookup header_cache_control header ≡ none
      → IsServed api libraries resync_period constants keys cluster req s
      → IsCaPublication libraries constants cluster req (
          handle_ca_bundle valid_uuid
            (ca_handler_over api s)
            (record r { path_values = shoot_values p u })
            (fresh header))
  unfolding handle_ca_bundle
  publication keys cluster req s p u r header is_key valid is_get no_hsts no_cache
        (inl (b, payload, publishable, made, stored)) =
      inl (
        b,
        payload,
        publishable,
        made,
        get_endpoint-IsReply valid_uuid (λ key. api.read key s) (λ d. d.ca_bundle) p u r header
            (some (record { ca_bundle = payload })) (rw is_key at stored) valid is_get no_hsts
            no_cache,
      )
  publication keys cluster req s p u r header is_key valid is_get no_hsts no_cache
        (inr (unpublishable, missing)) =
      inr (
        unpublishable,
        get_endpoint-IsReply valid_uuid (λ key. api.read key s) (λ d. d.ca_bundle) p u r header none
            (rw is_key at missing) valid is_get no_hsts no_cache,
      )

  module _ (shrinks : Shrinks libraries)
      (same_label_public : constants.label_discovery_public ≡ label_public)
      (same_shoot_ca : constants.discovery_shoot_ca ≡ bytes "shoot-ca")
      (same_label_restriction : constants.label_update_restriction ≡ label_restriction)
      (IsName : NamespacedName → Type 0)
      (printed : (q r : NamespacedName)
        → IsName q
        → IsName r
        → libraries.key_of q ≡ libraries.key_of r
        → q ≡ r)
      (keys : Bytes → Bytes) (injective : (x y : Bytes) → keys x ≡ keys y → x ≡ y) where
    -- Where each config map stands for one key `projectName--shootUID` all the time, and two of them
    -- never for one, whatever has happened to the config maps, the namespaces, the projects and the
    -- shoots since the start with no config map and an empty store: for the config map that stands
    -- for `p--u`, and of which, since its last reconciliation that succeeded, no reconciliation has
    -- failed and nothing else has changed in the cluster, a GET of the CA bundle of the shoot gets
    -- the payload of the bundle with a 200 if it may be published, and a 404 if not. The project `p`
    -- and the UID `u` are not empty, the UID parses, the response starts with no HSTS and no caching
    -- header, pem.Decode shortens its input, the three labels are those that `Reconcile` spells out,
    -- and proper names are printed differently.
    pub serve_http-IsCaPublication :
        {cluster : Cluster E} {rec : Reconciler S} {stale : Bytes → Bool}
        (w : Watched api libraries resync_period constants cluster rec stale) (req : NamespacedName)
        (p u : Bytes) (mux : ServeMux Instrumented) (r : Request) (m : Registry)
        (header : Map Bytes)
        → IsOrderly api libraries resync_period constants IsName keys w
        → IsName req
        → stale (libraries.key_of req) ≡ false
        → keys (libraries.key_of req) ≡ p ++ bytes "--" ++ u
        → new_mux promhttp jose parse valid_uuid oid (ca_handler_over api rec.store) conf ≡ ok mux
        → p ≢ []
        → u ≢ []
        → valid_uuid u ≡ true
        → r.method ≡ method_get
        → lookup header_hsts header ≡ none
        → lookup header_cache_control header ≡ none
        → IsCaPublication libraries constants cluster req
            (serve_http redirect mux (path_of (cluster_ca p u)) r (m, fresh header)).1
    serve_http-IsCaPublication {cluster} {rec} w req p u mux r m header orderly named current is_key
          made hp hu valid is_get no_hsts no_cache =
        rw
          (serve_http_route valid_uuid oid (ca_handler_over api rec.store) conf promhttp jose parse
            redirect mux (cluster_ca p u) r m (fresh header) made (hp, hu) tt)
          (publication keys cluster req rec.store p u r header is_key valid is_get no_hsts no_cache
            (Watched-IsServed api libraries resync_period constants shrinks same_label_public
              same_shoot_ca same_label_restriction IsName printed keys injective w orderly req named
              current))
